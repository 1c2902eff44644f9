-- ===== src/Tests/Servers.antt =====
-- The register and the broadcast at concrete inputs.
use detsys_testkit.Base.{
  ◌≡◌, ◌↔◌, refl, true, false, some, none, List, [], ◌∷◌, contains, ok, ◌>>=◌, text_eq, nat_eq,
}
use detsys_testkit.Base.Dict
use detsys_testkit.Base.Text.{text}
use detsys_testkit.Register.Store.{new_register}
use detsys_testkit.Register.Store.Sessions.{Arrival, run, first_writes, run-first_writes, run_again}
use detsys_testkit.Broadcast
use detsys_testkit.Broadcast.{
  Node, Message, ack, new_node_a, ack_deliv, simple_deliv, timer, round_eq, recipients,
}
use detsys_testkit.Broadcast.Acknowledged.{arrives, fires, handle, first_to, timer-run}
use detsys_testkit.Events

-- Two sessions, of which the first writes again.
abbrev calls : List Arrival
calls =
    (text "frontend", 0, some 1)
    ∷ (text "frontend", 1, some 2)
    ∷ (text "frontend", 0, none)
    ∷ (text "frontend", 0, some 1)
    ∷ []

run-first_writes_example :
    run new_register 0 calls ≡ ok (record { value = 1 ∷ 2 ∷ []; sessions = 0 ∷ 1 ∷ [] })
unfolding first_writes nat_eq
run-first_writes_example = run-first_writes 0 calls

run_again_example : (run new_register 0 calls >>= λ s. run s 0 calls) ≡ run new_register 0 calls
run_again_example = run_again new_register 0 calls

-- The node A of the round with acknowledgements, when B has acknowledged.
abbrev acknowledged : Node
acknowledged = record (new_node_a ack_deliv) {
  neighbours = (text "B", false) ∷ (text "C", true) ∷ [];
}

survived :
    Events.run (handle 9) (new_node_a ack_deliv) (fires ∷ arrives (text "B") ack ∷ [])
    ≡ ok (acknowledged, (timer (new_node_a ack_deliv) 9).1 ∷ [] ∷ [])
unfolding new_node_a Broadcast.receive timer Events.run round_eq Dict.insert text_eq
survived = refl

timer-run_example :
    (contains (first_to (timer acknowledged 9).1) (text "C") ≡ true)
    ↔ ((false ≡ false) × (Dict.lookup (text "C") (new_node_a ack_deliv).neighbours ≡ some true))
unfolding new_node_a text_eq Dict.lookup
timer-run_example =
    timer-run 9 (new_node_a ack_deliv) acknowledged (fires ∷ arrives (text "B") ack ∷ [])
      ((timer (new_node_a ack_deliv) 9).1 ∷ [] ∷ []) (text "C") refl (refl, (refl, tt)) survived
      (λ e. cc)
