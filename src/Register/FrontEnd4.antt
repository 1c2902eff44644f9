-- ===== src/Register/FrontEnd4.antt =====
-- The fourth front end: src/sut/register/frontend4.go.
pub mod Timers
pub mod Awaiting
pub mod Invariant
pub mod Serving
use detsys_testkit.Base.{
  ℕ, Bool, true, false, none, some, not, List, [], ◌∷◌, ◌++◌, Result, ok, exit, ◌==◌, ◌&&◌, nat_eq,
  text_eq, if◌then◌else◌,
}
use detsys_testkit.Base.Dict
use detsys_testkit.Base.Dict.{Dict}
use detsys_testkit.Base.Text.{Text, text}
use detsys_testkit.Events.{client_request, internal_message, Time, Duration, singleton, Args}
use detsys_testkit.Register.Messages.{
  SessionId, next_int, Request, Event, Out, Delivery, internal_response, register1, register2,
  forward, reply,
}
use detsys_testkit.Register.Pending.{OnGoing, waiting, resend}
use detsys_testkit.Register.Pending

pub record FrontEnd4 : Type 0 where
  pub on_going : OnGoing
  pub in_flight : Dict SessionId ℕ
  pub next_session_id : ℕ
  pub resend_timer : Duration

unfoldable pub new_front_end4 : FrontEnd4
new_front_end4 = record {
  on_going = [];
  in_flight = [];
  next_session_id = 0;
  resend_timer = Pending.resend_timer;
}

-- The event that sets the timer of the front end.
unfoldable pub set_timer : FrontEnd4 → Out
unfolding singleton
set_timer fe = record { to = singleton (text "frontend"); args = Args.timer fe.resend_timer }

unfoldable pub receive_client : FrontEnd4 → Time → Text → ℕ → Request → FrontEnd4 × List Out
receive_client fe at from client request = (
  record fe {
    on_going =
        fe.on_going
        ++ waiting register1 request fe.next_session_id at
          ∷ waiting register2 request fe.next_session_id at
          ∷ [];
    in_flight = Dict.insert fe.next_session_id client fe.in_flight;
    next_session_id = next_int fe.next_session_id;
  },
  forward register1 request fe.next_session_id
      ∷ forward register2 request fe.next_session_id
      ∷ set_timer fe
      ∷ [],
)

-- The loop of `RemoveSession`: the entries that stay, `noMore` and `found`.
unfoldable pub strike : Text → SessionId → OnGoing → OnGoing × Bool × Bool
strike from session [] = ([], true, false)
strike from session (on ∷ rest) =
    let (kept, no_more, found) = strike from session rest in
    if on.session_id == session
    then if from == on.register then (kept, no_more, true) else (on ∷ kept, false, found)
    else (on ∷ kept, no_more, found)

-- The client is 0, and the flag false, where the session is not in flight.
unfoldable pub remove_session : FrontEnd4 → Text → SessionId → FrontEnd4 × ℕ × Bool
unfolding strike
remove_session fe from session = elim (Dict.lookup session fe.in_flight) [
  | none ↦ (fe, 0, false)
  | some client ↦
      let (kept, no_more, found) = strike from session fe.on_going in
      (
        record fe {
          on_going = kept;
          in_flight = if no_more then Dict.erase session fe.in_flight else fe.in_flight;
        },
        client,
        no_more && found,
      )
]

-- `FrontEnd4.Receive`
unfoldable pub receive : FrontEnd4 → Time → Text → Event → Result (FrontEnd4 × List Out)
unfolding receive_client remove_session forward reply set_timer
receive fe at from (client_request client request) = ok (receive_client fe at from client request)
receive fe at from (internal_message (internal_response session response)) =
    let (fe', client, no_more) = remove_session fe from session in
    ok (fe', if no_more then reply client response ∷ [] else [])
receive fe at from _ = exit

-- `FrontEnd4.Tick` and `FrontEnd4.Init` send nothing.
unfoldable pub tick : FrontEnd4 → Time → List Out
tick fe at = []

-- The timer is set again if something was sent.
abbrev pub with_timer : Out → List Out → List Out
with_timer t [] = []
with_timer t (e ∷ out) = (e ∷ out) ++ t ∷ []

-- `FrontEnd4.Timer`
unfoldable pub timer : FrontEnd4 → Time → FrontEnd4 × List Out
unfolding resend set_timer
timer fe at =
    let (later, out) = resend fe.resend_timer at fe.on_going in
    (record fe { on_going = later }, with_timer (set_timer fe) out)

unfoldable pub init : FrontEnd4 → List Out
init fe = []

abbrev pub handle : FrontEnd4 → Delivery → Result (FrontEnd4 × List Out)
handle fe (at, from, event) = receive fe at from event
