-- ===== src/Register/FrontEnd3.antt =====
-- The third front end: src/sut/register/frontend3.go.
pub mod Replies
use detsys_testkit.Base.{
  ℕ, Bool, true, false, none, some, not, List, [], ◌∷◌, ◌++◌, Result, ok, exit, ◌==◌, ◌&&◌, nat_eq,
  text_eq, if◌then◌else◌,
}
use detsys_testkit.Base.Dict
use detsys_testkit.Base.Dict.{Dict}
use detsys_testkit.Base.Text.{Text}
use detsys_testkit.Events.{client_request, internal_message, Time}
use detsys_testkit.Register.Messages.{
  SessionId, next_int, Request, Event, Out, Delivery, internal_response, register1, register2,
  forward, reply,
}
use detsys_testkit.Register.Pending.{OnGoing, waiting, resend, resend_timer}

pub record FrontEnd3 : Type 0 where
  pub on_going : OnGoing
  pub in_flight : Dict SessionId ℕ
  pub next_session_id : ℕ

unfoldable pub new_front_end3 : FrontEnd3
new_front_end3 = record { on_going = []; in_flight = []; next_session_id = 0 }

unfoldable pub receive_client : FrontEnd3 → Time → Text → ℕ → Request → FrontEnd3 × List Out
receive_client fe at from client request = (
  record {
    on_going =
        fe.on_going
        ++ waiting register1 request fe.next_session_id at
          ∷ waiting register2 request fe.next_session_id at
          ∷ [];
    in_flight = Dict.insert fe.next_session_id client fe.in_flight;
    next_session_id = next_int fe.next_session_id;
  },
  forward register1 request fe.next_session_id ∷ forward register2 request fe.next_session_id ∷ [],
)

-- The loop of `RemoveSession`: the entries that stay, and `noMore`.
unfoldable pub strike : Text → SessionId → OnGoing → OnGoing × Bool
strike from session [] = ([], true)
strike from session (on ∷ rest) =
    let (kept, no_more) = strike from session rest in
    if on.session_id == session
    then if from == on.register then (kept, no_more) else (on ∷ kept, false)
    else (on ∷ kept, no_more)

-- The client is 0, and the flag true, where the session is not in flight.
unfoldable pub remove_session : FrontEnd3 → Text → SessionId → FrontEnd3 × ℕ × Bool
unfolding strike
remove_session fe from session = elim (Dict.lookup session fe.in_flight) [
  | none ↦ (fe, 0, true)
  | some client ↦
      let (kept, no_more) = strike from session fe.on_going in
      (
        record fe {
          on_going = kept;
          in_flight = if no_more then Dict.erase session fe.in_flight else fe.in_flight;
        },
        client,
        no_more,
      )
]

-- `FrontEnd3.Receive`
unfoldable pub receive : FrontEnd3 → Time → Text → Event → Result (FrontEnd3 × List Out)
unfolding receive_client remove_session forward reply
receive fe at from (client_request client request) = ok (receive_client fe at from client request)
receive fe at from (internal_message (internal_response session response)) =
    let (fe', client, no_more) = remove_session fe from session in
    ok (fe', if no_more then reply client response ∷ [] else [])
receive fe at from _ = exit

-- `FrontEnd3.Tick`
unfoldable pub tick : FrontEnd3 → Time → FrontEnd3 × List Out
unfolding resend
tick fe at =
    let (later, out) = resend resend_timer at fe.on_going in (record fe { on_going = later }, out)

-- `FrontEnd3.Timer` and `FrontEnd3.Init` send nothing.
unfoldable pub timer : FrontEnd3 → Time → List Out
timer fe at = []

unfoldable pub init : FrontEnd3 → List Out
init fe = []

abbrev pub handle : FrontEnd3 → Delivery → Result (FrontEnd3 × List Out)
handle fe (at, from, event) = receive fe at from event
