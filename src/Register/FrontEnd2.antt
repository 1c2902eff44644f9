-- ===== src/Register/FrontEnd2.antt =====
-- The second front end: src/sut/register/frontend2.go.
pub mod Replies
use detsys_testkit.Base.{
  ℕ, Bool, true, false, none, some, not, List, [], ◌∷◌, ◌++◌, filter, Result, ok, exit, ◌==◌,
  nat_eq, if◌then◌else◌,
}
use detsys_testkit.Base.Dict
use detsys_testkit.Base.Dict.{Dict}
use detsys_testkit.Base.Text.{Text}
use detsys_testkit.Events.{client_request, internal_message, Time}
use detsys_testkit.Register.Messages.{
  SessionId, next_int, Request, Response, Event, Out, Delivery, internal_response, register1,
  register2, forward, reply,
}
use detsys_testkit.Register.Pending.{OnGoing, waiting, resend, resend_timer}

pub record FrontEnd2 : Type 0 where
  pub on_going : OnGoing
  pub in_flight : Dict SessionId ℕ
  pub received_response : Dict SessionId Bool
  pub next_session_id : ℕ

unfoldable pub new_front_end2 : FrontEnd2
new_front_end2 = record {
  on_going = [];
  in_flight = [];
  received_response = [];
  next_session_id = 0;
}

unfoldable pub receive_client : FrontEnd2 → Time → Text → ℕ → Request → FrontEnd2 × List Out
receive_client fe at from client request = (
  record {
    on_going =
        fe.on_going
        ++ waiting register1 request fe.next_session_id at
          ∷ waiting register2 request fe.next_session_id at
          ∷ [];
    in_flight = Dict.insert fe.next_session_id client fe.in_flight;
    received_response = Dict.insert fe.next_session_id false fe.received_response;
    next_session_id = next_int fe.next_session_id;
  },
  forward register1 request fe.next_session_id ∷ forward register2 request fe.next_session_id ∷ [],
)

-- The client is 0, and the flag false, where the session is not in flight.
unfoldable pub remove_session : FrontEnd2 → SessionId → FrontEnd2 × ℕ × Bool
remove_session fe session = elim (Dict.lookup session fe.in_flight) [
  | none ↦ (fe, 0, false)
  | some client ↦ (
    record fe {
      in_flight = Dict.erase session fe.in_flight;
      on_going = filter (λ on. not (on.session_id == session)) fe.on_going;
    },
    client,
    true,
  )
]

-- A response: the first one of a session is only noted.
unfoldable pub receive_response : FrontEnd2 → SessionId → Response → FrontEnd2 × List Out
unfolding remove_session
receive_response fe session response = elim (Dict.lookup session fe.received_response) [
  | some true ↦
      let (fe', client, known) = remove_session fe session in
      (fe', if known then reply client response ∷ [] else [])
  | _ ↦ (record fe { received_response = Dict.insert session true fe.received_response }, [])
]

-- `FrontEnd2.Receive`
unfoldable pub receive : FrontEnd2 → Time → Text → Event → Result (FrontEnd2 × List Out)
unfolding receive_client receive_response forward reply
receive fe at from (client_request client request) = ok (receive_client fe at from client request)
receive fe at from (internal_message (internal_response session response)) =
    ok (receive_response fe session response)
receive fe at from _ = exit

-- `FrontEnd2.Tick`
unfoldable pub tick : FrontEnd2 → Time → FrontEnd2 × List Out
unfolding resend
tick fe at =
    let (later, out) = resend resend_timer at fe.on_going in (record fe { on_going = later }, out)

-- `FrontEnd2.Timer` and `FrontEnd2.Init` send nothing.
unfoldable pub timer : FrontEnd2 → Time → List Out
timer fe at = []

unfoldable pub init : FrontEnd2 → List Out
init fe = []

abbrev pub handle : FrontEnd2 → Delivery → Result (FrontEnd2 × List Out)
handle fe (at, from, event) = receive fe at from event
