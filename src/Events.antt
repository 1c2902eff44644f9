-- ===== src/Events.antt =====
-- The events that reactors receive and send: src/lib/lib.go. Requests, responses and messages are Go
-- interfaces there; each system under test puts its own types for `Req`, `Resp` and `Msg`.
use detsys_testkit.Base.{ℕ, ◌≡◌, List, [], ◌∷◌, Result, ok, ◌>>=◌}
use detsys_testkit.Base.Text.{Text}
use detsys_testkit.Base.Sort.{sort}

-- Nanoseconds since the zero `time.Time`.
abbrev pub Time : Type 0
Time = ℕ

-- Nanoseconds.
abbrev pub Duration : Type 0
Duration = ℕ

-- `nil_event` is the nil interface, which a fault is decoded to.
pub data InEvent (Req Msg : Type 0) : Type 0 where
  client_request : ℕ → Req → InEvent Req Msg
  internal_message : Msg → InEvent Req Msg
  nil_event : InEvent Req Msg

pub data Args (Resp Msg : Type 0) : Type 0 where
  client_response : ℕ → Resp → Args Resp Msg
  message : Msg → Args Resp Msg
  timer : Duration → Args Resp Msg

pub record OutEvent (Resp Msg : Type 0) : Type 0 where
  pub to : List Text
  pub args : Args Resp Msg

-- `Set` sorts its receivers.
unfoldable pub set : List Text → List Text
unfolding sort
set to = sort to

unfoldable pub singleton : Text → List Text
unfolding set
singleton to = set (to ∷ [])

-- The events that come out of a reactor, one list for each event that goes in.
module _ {S E O : Type 0} (receive : S → E → Result (S × List O)) where
  unfoldable pub run : S → List E → Result (S × List (List O))
  run s [] = ok (s, [])
  run s (e ∷ es) = receive s e >>= λ next. run next.0 es >>= λ rest. ok (rest.0, next.1 ∷ rest.1)

  pub run-cons :
      (s s' : S) (e : E) (es : List E) (out : List O)
      → receive s e ≡ ok (s', out)
      → run s (e ∷ es) ≡ (run s' es >>= λ rest. ok (rest.0, out ∷ rest.1))
  unfolding run
  run-cons s s' e es out h = rw h
