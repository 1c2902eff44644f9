-- ===== src/Register/FrontEnd2/Replies.antt =====
-- What the second front end replies: to the second response of a session, whoever sends it.
use detsys_testkit.Base.{
  ℕ, ◌≡◌, refl, ap, ◌∙◌, none, some, [], ◌∷◌, ok, nat_eq, true, false, not, ◌==◌, filter,
}
use detsys_testkit.Base.Dict
use detsys_testkit.Base.Dict.{lookup-insert_self, lookup-erase_self}
use detsys_testkit.Base.Text.{Text}
use detsys_testkit.Events.{Time, client_request, internal_message, run}
use detsys_testkit.Register.Messages.{
  SessionId, Request, Response, internal_response, reply, forward, register1, register2,
}
use detsys_testkit.Register.FrontEnd2.{
  FrontEnd2, receive_client, remove_session, receive_response, receive, handle,
}

-- The first response of a session is noted.
noted : FrontEnd2 → SessionId → FrontEnd2
noted fe session = record fe { received_response = Dict.insert session true fe.received_response }

-- The second one ends it.
ended : FrontEnd2 → SessionId → FrontEnd2
ended fe session = record fe {
  in_flight = Dict.erase session fe.in_flight;
  on_going = filter (λ on. not (on.session_id == session)) fe.on_going;
}

receive_first :
    (fe : FrontEnd2) (session : SessionId) (response : Response)
    → Dict.lookup session fe.received_response ≡ some false
    → receive_response fe session response ≡ (noted fe session, [])
unfolding receive_response noted
receive_first fe session response e = rw (e, receive_response) refl

receive_second :
    (fe : FrontEnd2) (session : SessionId) (response : Response) (client : ℕ)
    → Dict.lookup session fe.received_response ≡ some true
    → Dict.lookup session fe.in_flight ≡ some client
    → receive_response fe session response ≡ (ended fe session, reply client response ∷ [])
unfolding receive_response remove_session ended
receive_second fe session response client e f =
    rw (e, receive_response) (rw (f, remove_session) refl)

receive_later :
    (fe : FrontEnd2) (session : SessionId) (response : Response)
    → Dict.lookup session fe.received_response ≡ some true
    → Dict.lookup session fe.in_flight ≡ none
    → receive_response fe session response ≡ (fe, [])
unfolding receive_response remove_session
receive_later fe session response e f = rw (e, receive_response) (rw (f, remove_session) refl)

module _ (at : Time) (from : Text) (response : Response) where
  handle_response :
      (fe : FrontEnd2) (session : SessionId)
      → handle fe (at, from, internal_message (internal_response session response))
        ≡ ok (receive_response fe session response)
  unfolding receive
  handle_response fe session = refl

  handle_first :
      (fe : FrontEnd2) (session : SessionId)
      → Dict.lookup session fe.received_response ≡ some false
      → handle fe (at, from, internal_message (internal_response session response))
        ≡ ok (noted fe session, [])
  handle_first fe session e =
      handle_response fe session ∙ ap ok (receive_first fe session response e)

  handle_second :
      (fe : FrontEnd2) (session : SessionId) (client : ℕ)
      → Dict.lookup session fe.received_response ≡ some true
      → Dict.lookup session fe.in_flight ≡ some client
      → handle fe (at, from, internal_message (internal_response session response))
        ≡ ok (ended fe session, reply client response ∷ [])
  handle_second fe session client e f =
      handle_response fe session ∙ ap ok (receive_second fe session response client e f)

  handle_later :
      (fe : FrontEnd2) (session : SessionId)
      → Dict.lookup session fe.received_response ≡ some true
      → Dict.lookup session fe.in_flight ≡ none
      → handle fe (at, from, internal_message (internal_response session response)) ≡ ok (fe, [])
  handle_later fe session e f =
      handle_response fe session ∙ ap ok (receive_later fe session response e f)

handle_request :
    (fe : FrontEnd2) (at : Time) (from : Text) (client : ℕ) (request : Request)
    → handle fe (at, from, client_request client request)
      ≡ ok (
        (receive_client fe at from client request).0,
        forward register1 request fe.next_session_id
            ∷ forward register2 request fe.next_session_id
            ∷ [],
      )
unfolding receive
handle_request fe at from client request = refl

-- The two flags that a new session has.
requested :
    (fe : FrontEnd2) (at : Time) (from : Text) (client : ℕ) (request : Request)
    → let fe' = (receive_client fe at from client request).0 in
      (Dict.lookup fe.next_session_id fe'.received_response ≡ some false)
      × (Dict.lookup fe.next_session_id fe'.in_flight ≡ some client)
unfolding receive_client
requested fe at from client request = (
  lookup-insert_self fe.next_session_id false fe.received_response,
  lookup-insert_self fe.next_session_id client fe.in_flight,
)

noted-lookup :
    (fe : FrontEnd2) (session : SessionId)
    → Dict.lookup session (noted fe session).received_response ≡ some true
unfolding noted
noted-lookup fe session = lookup-insert_self session true fe.received_response

ended-lookup :
    (fe : FrontEnd2) (session : SessionId) → Dict.lookup session (ended fe session).in_flight ≡ none
unfolding ended
ended-lookup fe session = lookup-erase_self session fe.in_flight

-- After a request, the second front end replies to the client exactly at the second response of the
-- session, also when one register has sent both and the other none.
pub receive_twice :
    (fe : FrontEnd2) (at at1 at2 at3 : Time) (from from1 from2 from3 : Text) (client : ℕ)
    (request : Request) (response1 response2 response3 : Response)
    → let session = fe.next_session_id in
      (fe' : FrontEnd2) × (run handle fe (
          (at, from, client_request client request)
          ∷ (at1, from1, internal_message (internal_response session response1))
          ∷ (at2, from2, internal_message (internal_response session response2))
          ∷ (at3, from3, internal_message (internal_response session response3))
          ∷ [])
        ≡ ok (
          fe',
          (forward register1 request session ∷ forward register2 request session ∷ [])
              ∷ []
              ∷ (reply client response2 ∷ [])
              ∷ []
              ∷ [],
        ))
unfolding run
receive_twice fe at at1 at2 at3 from from1 from2 from3 client request response1 response2
      response3 =
    let session = fe.next_session_id in
    let fe1 : FrontEnd2 = (receive_client fe at from client request).0 in
    let (new, flies) = requested fe at from client request in
    (
      ended (noted fe1 session) session,
      rw (handle_request fe at from client request) (
          rw (handle_first at1 from1 response1 fe1 session new) (
            rw
              (handle_second at2 from2 response2 (noted fe1 session) session client
                (noted-lookup fe1 session) (unfold noted in flies))
              (rw
                (handle_later at3 from3 response3 (ended (noted fe1 session) session) session
                  (unfold ended in noted-lookup fe1 session)
                  (ended-lookup (noted fe1 session) session))
                refl))),
    )
