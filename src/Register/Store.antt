-- ===== src/Register/Store.antt =====
-- The register server: src/sut/register/register.go. A method returns the new state and the events.
pub mod Sessions
use detsys_testkit.Base.{ℕ, List, [], ◌∷◌, ◌++◌, contains, nat_eq, if◌then◌else◌, Result, ok, exit}
use detsys_testkit.Base.Text.{Text}
use detsys_testkit.Events.{internal_message, message, singleton, Time}
use detsys_testkit.Register.Messages.{
  SessionId, Response, Event, Out, read, write, value, ack, internal_request, internal_response,
}

pub record Register : Type 0 where
  pub value : List ℕ
  pub sessions : List SessionId

unfoldable pub new_register : Register
new_register = record { value = []; sessions = [] }

-- The event with which the register answers the sender of a request.
abbrev pub answer : Text → SessionId → Response → List Out
answer from id response =
    (record { to = singleton from; args = message (internal_response id response) }) ∷ []

-- The case `Write`: a session that is known already writes nothing.
unfoldable pub write_once : Register → SessionId → ℕ → Register
write_once r id v =
    if contains r.sessions id
    then r
    else record r { value = r.value ++ v ∷ []; sessions = r.sessions ++ id ∷ [] }

-- `Register.Receive`
unfoldable pub receive : Register → Time → Text → Event → Result (Register × List Out)
unfolding write_once singleton
receive r at from (internal_message (internal_request id read)) =
    ok (r, answer from id (Response.value r.value))
receive r at from (internal_message (internal_request id (write v))) =
    ok (write_once r id v, answer from id ack)
receive r at from _ = exit

-- `Register.Tick`, `Register.Timer` and `Register.Init` send nothing.
unfoldable pub tick : Register → Time → List Out
tick r at = []

unfoldable pub timer : Register → Time → List Out
timer r at = []

unfoldable pub init : Register → List Out
init r = []
