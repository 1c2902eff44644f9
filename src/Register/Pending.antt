-- ===== src/Register/Pending.antt =====
-- The requests for which the later front ends still wait, and the loop that sends the overdue ones
-- again: `OnGoingInternalRequest` and the body of `Tick` in frontend2.go (also in frontend3.go, and
-- in `Timer` of frontend4.go).
pub mod Laws
use detsys_testkit.Base.{
  ℕ, ◌+◌, ◌≡◌, refl, Bool, true, false, List, [], ◌∷◌, arith, ltb, not, ◌==◌, nat_eq, if◌then◌else◌,
  filter,
}
use detsys_testkit.Base.Text.{Text}
use detsys_testkit.Events.{Time, Duration}
use detsys_testkit.Register.Messages.{
  SessionId, next_int, Request, Out, register1, register2, forward,
}

pub record OnGoingInternalRequest : Type 0 where
  pub register : Text
  pub request : Request
  pub session_id : SessionId
  pub at : Time
  pub number_of_tries : ℕ

abbrev pub OnGoing : Type 0
OnGoing = List OnGoingInternalRequest

-- The entry that `ReceiveClient` appends for a register.
abbrev pub waiting : Text → Request → SessionId → Time → OnGoingInternalRequest
waiting register request session at = record {
  register = register;
  request = request;
  session_id = session;
  at = at;
  number_of_tries = 0;
}

-- 5s
abbrev pub resend_timer : Duration
resend_timer = 5000000000

-- `at.After(on.At.Add(resendTimer))`
unfoldable pub is_overdue : Duration → Time → OnGoingInternalRequest → Bool
is_overdue timer at on = ltb (on.at + timer) at

-- What an entry becomes when its request is sent again.
unfoldable pub tried_again : Time → OnGoingInternalRequest → OnGoingInternalRequest
tried_again at on = record on { at = at; number_of_tries = next_int on.number_of_tries }

-- The loop over `fe.OnGoing`: the entries after it, and the events to send again.
unfoldable pub resend : Duration → Time → OnGoing → OnGoing × List Out
unfolding is_overdue tried_again forward
resend timer at [] = ([], [])
resend timer at (on ∷ rest) =
    let (later, out) = resend timer at rest in
    if is_overdue timer at on
    then (tried_again at on ∷ later, forward on.register on.request on.session_id ∷ out)
    else (on ∷ later, out)
