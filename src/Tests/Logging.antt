-- ===== src/Tests/Logging.antt =====
-- The logger at concrete inputs.
use detsys_testkit.Base.{◌≡◌, refl, arith, true, false, [], ◌∷◌, ◌++◌, some, ok}
use detsys_testkit.Base.Text.{Text, text}
use detsys_testkit.Events.{internal_message}
use detsys_testkit.Logger.{
  Logger, Worker, Row, log, done, receive, init, new_worker, parse_all, work,
}
use detsys_testkit.Logger.Delivery.{
  Reachable, starts, receives, works, IsDelivered, Reachable-IsDelivered,
}
use detsys_testkit.Logger.Draining.{drain, drain_lem}

-- An entry with two tab characters, and its columns.
abbrev entry : Text
entry = text "event" ++ 9 ∷ text "sender" ++ 9 ∷ text "{}"

abbrev row : Row
row = (text "event", text "sender", text "{}")

abbrev received : Logger
received = record { queue = entry ∷ []; index = 8 }

abbrev buffered : Worker
buffered = record { buffer = entry ∷ []; table = row ∷ [] }

received_lem :
    receive (init 7) 0 (text "scheduler") (internal_message (log entry)) ≡ ok (done received [])
unfolding receive init
received_lem = refl

taken_lem : work false true (entry ∷ []) (new_worker (row ∷ [])) ≡ ok (some ([], buffered))
unfolding work new_worker
taken_lem = refl

one_taken : Reachable (row ∷ []) (entry ∷ []) (record { queue = []; index = 8 }) buffered
one_taken = works false true (receives 0 (text "scheduler") entry (starts 7) received_lem) taken_lem

Reachable-IsDelivered_example : IsDelivered (row ∷ []) (entry ∷ []) [] buffered
Reachable-IsDelivered_example = Reachable-IsDelivered one_taken

parsed : parse_all (entry ∷ entry ∷ []) ≡ ok (row ∷ row ∷ [])
unfolding parse_all
parsed = refl

drain_lem_example :
    drain (λ round. true) 3 (entry ∷ []) buffered
    ≡ ok ([], record { buffer = []; table = row ∷ row ∷ row ∷ [] })
drain_lem_example = drain_lem (λ round. true) 3 (entry ∷ []) buffered parsed (omega arith)
