-- ===== src/Logger/Pipe/Messages.antt =====
-- What the reactor of src/logger/lib.go does with a line of a client.
use detsys_testkit.Base.{
  ℕ, ◌+◌, ◌≤◌, ◌%◌, ◌^◌, ◌≡◌, refl, ap, ◌∙◌, List, [], ◌∷◌, ◌++◌, arith, length, ok, ◌⊎◌,
}
use detsys_testkit.Base.Text.{Text, text}
use detsys_testkit.Events.{Time, internal_message}
use detsys_testkit.Logger.{
  Logger, Row, Message, log, index, done, waits, queue_size, enqueue, receive,
}
use detsys_testkit.Logger.Pipe.{unmarshal_message, handle_line, parse_line}
use detsys_testkit.Logger.Pipe.Requests.{
  write, ask, entry, encode, IsPrintable, IsColumn, IsTidy, parse_line_lem, encode-write,
  encode-ask,
}

module _ (to_lower trim_space : Text → Text) where
  handle_message :
      (l : Logger) (at : Time) (line : Text) {event meta rest : Text} {msg : Message}
      → parse_line line ≡ ok (event, meta, rest)
      → unmarshal_message to_lower trim_space event rest ≡ ok msg
      → handle_line to_lower trim_space l at line ≡ receive l at meta (internal_message msg)
  unfolding handle_line
  handle_message l at line parsed unmarshalled = rw (parsed) (rw (unmarshalled) refl)

  unmarshal_log :
      (rest : Text)
      → to_lower (text "log") ≡ text "log"
      → unmarshal_message to_lower trim_space (text "log") rest ≡ ok (log rest)
  unfolding unmarshal_message
  unmarshal_log rest lower = rw (lower) refl

  unmarshal_index :
      (rest : Text)
      → to_lower (text "index") ≡ text "index"
      → unmarshal_message to_lower trim_space (text "index") rest ≡ ok (index (trim_space rest))
  unfolding unmarshal_message
  unmarshal_index rest lower = rw (lower) refl

  pub handle_write :
      (l : Logger) (at : Time) (from : Text) (row : Row)
      → to_lower (text "log") ≡ text "log"
      → IsColumn from
      → handle_line to_lower trim_space l at (encode (write from row))
        ≡ receive l at from (internal_message (log (entry row (10 ∷ []))))
  handle_write l at from row lower (tidy, _) =
      handle_message l at _
        (ap parse_line (encode-write from row)
          ∙ parse_line_lem (text "log") from (entry row (10 ∷ [])) (omega arith) tidy)
        (unmarshal_log (entry row (10 ∷ [])) lower)

  pub handle_ask :
      (l : Logger) (at : Time) (component : Text)
      → to_lower (text "index") ≡ text "index"
      → ((s : Text) → IsPrintable s → trim_space (s ++ 10 ∷ []) ≡ s)
      → IsTidy (ask component)
      → handle_line to_lower trim_space l at (encode (ask component))
        ≡ ok (done l ((component, l.index) ∷ []))
  handle_ask l at component lower trims ((tidy, _), printable) =
      handle_message l at _
        (ap parse_line (encode-ask component)
          ∙ parse_line_lem (text "index") component (component ++ 10 ∷ []) (omega arith) tidy)
        (unmarshal_index (component ++ 10 ∷ []) lower)
      ∙ rw (trims component printable) (unfold receive in refl)

  pub receive_write :
      (at : Time) (from x : Text) (queue : List Text) (i : ℕ)
      → ((length queue + 1 ≤ queue_size)
          × (receive (record { queue = queue; index = i }) at from (internal_message (log x))
              ≡ ok (done (record { queue = queue ++ x ∷ []; index = (i + 1) % 2 ^ 64 }) [])))
        ⊎ ((queue_size ≤ length queue)
            × (receive (record { queue = queue; index = i }) at from (internal_message (log x))
                ≡ ok waits))
  unfolding receive enqueue
  receive_write at from x queue i = ground arith
