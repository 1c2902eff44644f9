-- ===== src/Register/FrontEnd/Replies.antt =====
-- What the first front end answers: one reply for each request, to the client that made it.
use mathlib.Core.Path.{subst}
use detsys_testkit.Base.{
  ℕ, ◌+◌, ◌^◌, ◌<◌, ◌≡◌, ◌≢◌, false, ◌⊎◌, ◌↔◌, refl, ◌∙◌, none, some, true, arith, List, [], ◌∷◌,
  ok, err, exit, nat_eq, Option-cases, inl, inr,
}
use detsys_testkit.Base.Dict
use detsys_testkit.Base.Dict.{lookup-insert_self, lookup-erase_self}
use detsys_testkit.Base.Text.{Text}
use detsys_testkit.Events.{Time, run, client_request, internal_message}
use detsys_testkit.Register.Messages.{
  SessionId, Event, Request, Response, Out, internal_response, forward, reply, register1, register2,
}
use detsys_testkit.Register.FrontEnd.{
  FrontEnd, SessionIdWithContext, handle, new_session_id, remove_session, receive_client, receive,
}
use detsys_testkit.Register.FrontEnd.Consistent.{
  IsConsistent, added, removed, added-IsConsistent, removed-IsConsistent,
}

-- `NewSessionId` fails exactly if the client has a session, and otherwise keeps the maps inverse.
new_session_id_cases :
    (fe : FrontEnd) (client : ℕ) (at : Time)
    → ((s : SessionIdWithContext) × (Dict.lookup client fe.in_flight ≡ some s)
        × (new_session_id fe client at ≡ err))
      ⊎ ((Dict.lookup client fe.in_flight ≡ none)
          × (new_session_id fe client at ≡ ok (added fe client at, fe.next_session_id)))
unfolding new_session_id added
new_session_id_cases fe client at = elim (Option-cases (Dict.lookup client fe.in_flight)) [
  | inl e ↦ inr (e, rw (e, new_session_id))
  | inr (s, e) ↦ inl (s, e, rw (e, new_session_id))
]

receive_client_cases :
    (fe : FrontEnd) (at : Time) (from : Text) (client : ℕ) (request : Request)
    → ((s : SessionIdWithContext) × (Dict.lookup client fe.in_flight ≡ some s)
        × (receive_client fe at from client request ≡ exit))
      ⊎ ((Dict.lookup client fe.in_flight ≡ none)
          × (receive_client fe at from client request
              ≡ ok (
                added fe client at,
                forward register1 request fe.next_session_id
                    ∷ forward register2 request fe.next_session_id
                    ∷ [],
              )))
unfolding receive_client
receive_client_cases fe at from client request = elim (new_session_id_cases fe client at) [
  | inl (s, e, p) ↦ inl (s, e, rw (p, receive_client))
  | inr (e, p) ↦ inr (e, rw (p, receive_client))
]

removed-remove_session :
    (fe : FrontEnd) (session : SessionId) (client : ℕ)
    → Dict.lookup session fe.in_flight_session_to_client ≡ some client
    → remove_session fe session ≡ (removed fe session client, client, true)
unfolding remove_session removed
removed-remove_session fe session client e = rw (e, remove_session)

remove_session_unknown :
    (fe : FrontEnd) (session : SessionId)
    → Dict.lookup session fe.in_flight_session_to_client ≡ none
    → remove_session fe session ≡ (fe, 0, false)
unfolding remove_session
remove_session_unknown fe session e = rw (e, remove_session)

receive_response :
    (fe : FrontEnd) (at : Time) (from : Text) (session : SessionId) (response : Response)
    (client : ℕ)
    → Dict.lookup session fe.in_flight_session_to_client ≡ some client
    → receive fe at from (internal_message (internal_response session response))
      ≡ ok (removed fe session client, reply client response ∷ [])
unfolding receive
receive_response fe at from session response client e =
    rw (removed-remove_session fe session client e)

receive_unknown :
    (fe : FrontEnd) (at : Time) (from : Text) (session : SessionId) (response : Response)
    → Dict.lookup session fe.in_flight_session_to_client ≡ none
    → receive fe at from (internal_message (internal_response session response)) ≡ ok (fe, [])
unfolding receive
receive_unknown fe at from session response e = rw (remove_session_unknown fe session e)

receive_request :
    (fe : FrontEnd) (at : Time) (from : Text) (client : ℕ) (request : Request)
    → receive fe at from (client_request client request) ≡ receive_client fe at from client request
unfolding receive
receive_request fe at from client request = refl

receive_request_free :
    (fe : FrontEnd) (at : Time) (from : Text) (client : ℕ) (request : Request)
    → Dict.lookup client fe.in_flight ≡ none
    → receive fe at from (client_request client request)
      ≡ ok (
        added fe client at,
        forward register1 request fe.next_session_id
            ∷ forward register2 request fe.next_session_id
            ∷ [],
      )
unfolding receive receive_client new_session_id added
receive_request_free fe at from client request free = rw (free, receive_client, new_session_id)

added-lookup :
    (fe : FrontEnd) (client : ℕ) (at : Time)
    → Dict.lookup fe.next_session_id (added fe client at).in_flight_session_to_client ≡ some client
unfolding added
added-lookup fe client at = lookup-insert_self fe.next_session_id client _

removed-lookup :
    (fe : FrontEnd) (session : SessionId) (client : ℕ)
    → Dict.lookup session (removed fe session client).in_flight_session_to_client ≡ none
unfolding removed
removed-lookup fe session client = lookup-erase_self session fe.in_flight_session_to_client

-- Every event that does not end the process keeps the two maps of the first front end inverse to
-- each other, while session ids last.
pub receive-IsConsistent :
    (fe fe' : FrontEnd) (at : Time) (from : Text) (event : Event) (out : List Out)
    → IsConsistent fe
    → fe.next_session_id + 1 < 2 ^ 64
    → receive fe at from event ≡ ok (fe', out)
    → IsConsistent fe'
unfolding receive
receive-IsConsistent fe fe' at from (client_request client request) out v room h =
    elim (receive_client_cases fe at from client request) [
      | inl (s, e, p) ↦ absurd (cc)
      | inr (e, p) ↦ subst IsConsistent (ground arith) (added-IsConsistent fe client at v e room)
    ]
receive-IsConsistent fe fe' at from (internal_message (internal_response session response)) out v
      room h =
    elim (Option-cases (Dict.lookup session fe.in_flight_session_to_client)) [
      | inl e ↦ subst IsConsistent (ground (arith, receive_unknown fe at from session response e)) v
      | inr (client, e) ↦
          subst IsConsistent (ground (arith, receive_response fe at from session response client e))
            (removed-IsConsistent fe session client v e)
    ]
receive-IsConsistent fe fe' at from _ out v room h = absurd (cc)

-- A request of a client ends the process of the first front end exactly if the client has a session
-- in flight.
pub receive-exit_iff :
    (fe : FrontEnd) (at : Time) (from : Text) (client : ℕ) (request : Request)
    → (receive fe at from (client_request client request) ≡ exit)
      ↔ (Dict.lookup client fe.in_flight ≢ none)
receive-exit_iff fe at from client request = elim (receive_client_cases fe at from client request) [
  | inl (s, e, p) ↦ (λ _ none_now. cc, λ _. receive_request fe at from client request ∙ p)
  | inr (e, p) ↦ (
    λ q. absurd (cc (receive_request fe at from client request)),
    λ some_now. absurd (some_now e),
  )
]

-- In the first front end, a request of a client with no session goes to both registers under a new
-- session; the first response of that session is replied to that client, and a second one is
-- dropped.
pub receive_once :
    (fe : FrontEnd) (at at1 at2 : Time) (from from1 from2 : Text) (client : ℕ) (request : Request)
    (response1 response2 : Response)
    → Dict.lookup client fe.in_flight ≡ none
    → (fe' : FrontEnd) × (run handle fe (
          (at, from, client_request client request)
          ∷ (at1, from1, internal_message (internal_response fe.next_session_id response1))
          ∷ (at2, from2, internal_message (internal_response fe.next_session_id response2))
          ∷ [])
        ≡ ok (
          fe',
          (forward register1 request fe.next_session_id
                ∷ forward register2 request fe.next_session_id
                ∷ [])
              ∷ (reply client response1 ∷ [])
              ∷ []
              ∷ [],
        ))
unfolding run
receive_once fe at at1 at2 from from1 from2 client request response1 response2 free = (
  removed (added fe client at) fe.next_session_id client,
  rw (receive_request_free fe at from client request free) (
      rw
        (receive_response (added fe client at) at1 from1 fe.next_session_id response1 client
          (added-lookup fe client at))
        (rw
          (receive_unknown (removed (added fe client at) fe.next_session_id client) at2 from2
            fe.next_session_id response2
            (removed-lookup (added fe client at) fe.next_session_id client))
          refl)),
)
