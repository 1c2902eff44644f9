-- ===== src/Register/FrontEnd.antt =====
-- The first front end: src/sut/register/frontend1.go.
pub mod Consistent
pub mod Replies
use detsys_testkit.Base.{
  ℕ, Bool, true, false, none, some, List, [], ◌∷◌, Result, ok, err, exit, ◌>>=◌, ◌==◌, nat_eq,
  if◌then◌else◌,
}
use detsys_testkit.Base.Dict
use detsys_testkit.Base.Dict.{Dict}
use detsys_testkit.Base.Text.{Text}
use detsys_testkit.Events.{client_request, internal_message, Time}
use detsys_testkit.Register.Messages.{
  SessionId, next_int, Request, Event, Out, Delivery, internal_response, register1, register2,
  forward, reply,
}

pub record SessionIdWithContext : Type 0 where
  pub id : SessionId
  pub at : Time

pub record FrontEnd : Type 0 where
  pub in_flight : Dict ℕ SessionIdWithContext
  pub in_flight_session_to_client : Dict SessionId ℕ
  pub next_session_id : ℕ

unfoldable pub new_front_end : FrontEnd
new_front_end = record { in_flight = []; in_flight_session_to_client = []; next_session_id = 0 }

-- A client that has a session already is an error.
unfoldable pub new_session_id : FrontEnd → ℕ → Time → Result (FrontEnd × SessionId)
new_session_id fe client at = elim (Dict.lookup client fe.in_flight) [
  | some s ↦ err
  | none ↦ ok (
    record {
      in_flight = Dict.insert client (record { id = fe.next_session_id; at = at }) fe.in_flight;
      in_flight_session_to_client =
          Dict.insert fe.next_session_id client fe.in_flight_session_to_client;
      next_session_id = next_int fe.next_session_id;
    },
    fe.next_session_id,
  )
]

-- The client is 0, and the flag false, where the session is not known.
unfoldable pub remove_session : FrontEnd → SessionId → FrontEnd × ℕ × Bool
remove_session fe session = elim (Dict.lookup session fe.in_flight_session_to_client) [
  | none ↦ (fe, 0, false)
  | some client ↦ (
    record fe {
      in_flight = Dict.erase client fe.in_flight;
      in_flight_session_to_client = Dict.erase session fe.in_flight_session_to_client;
    },
    client,
    true,
  )
]

-- An error of `NewSessionId` ends the process.
unfoldable pub receive_client : FrontEnd → Time → Text → ℕ → Request → Result (FrontEnd × List Out)
unfolding new_session_id
receive_client fe at from client request = elim (new_session_id fe client at) [
  | ok (fe', session) ↦
      ok (fe', forward register1 request session ∷ forward register2 request session ∷ [])
  | _ ↦ exit
]

-- `FrontEnd.Receive`
unfoldable pub receive : FrontEnd → Time → Text → Event → Result (FrontEnd × List Out)
unfolding receive_client remove_session forward reply
receive fe at from (client_request client request) = receive_client fe at from client request
receive fe at from (internal_message (internal_response session response)) =
    let (fe', client, known) = remove_session fe session in
    ok (fe', if known then reply client response ∷ [] else [])
receive fe at from _ = exit

-- `FrontEnd.Tick`, `FrontEnd.Timer` and `FrontEnd.Init` send nothing.
unfoldable pub tick : FrontEnd → Time → List Out
tick fe at = []

unfoldable pub timer : FrontEnd → Time → List Out
timer fe at = []

unfoldable pub init : FrontEnd → List Out
init fe = []

abbrev pub handle : FrontEnd → Delivery → Result (FrontEnd × List Out)
handle fe (at, from, event) = receive fe at from event
