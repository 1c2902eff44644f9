-- ===== src/Register/FrontEnd4/Serving.antt =====
-- One reply for each request, when both registers have answered, whatever is delivered how often.
pub mod Histories
use detsys_testkit.Base.{
  ℕ, ◌≡◌, ◌≢◌, refl, ap, ◌∙◌, Bool, true, false, none, some, Option, List, [], ◌∷◌, arith, ◌&&◌,
  ◌||◌, ◌==◌, nat_eq, text_eq, if◌then◌else◌, not, ok, map,
}
use detsys_testkit.Base.Text.{Text}
use detsys_testkit.Events.{Time, client_request, internal_message, run}
use detsys_testkit.Register.Messages.{
  SessionId, Request, Response, Out, Delivery, internal_response, register1, register2, reply,
  forward,
}
use detsys_testkit.Register.FrontEnd4.{
  FrontEnd4, remove_session, receive_client, receive, handle, set_timer,
}
use detsys_testkit.Register.FrontEnd4.Awaiting.{
  Awaited, view, answered, completes, view-remove_session, completes-remove_session,
}
use detsys_testkit.Register.FrontEnd4.Invariant.{IsTracked, view-receive_client}

-- A response of some session as it arrives: when, from whom, and what.
abbrev pub Answer : Type 0
Answer = Time × Text × Response

abbrev pub delivery : SessionId → Answer → Delivery
delivery session (at, from, response) =
    (at, from, internal_message (internal_response session response))

abbrev pub reply_to : Option ℕ → Response → List Out
reply_to none response = []
reply_to (some client) response = reply client response ∷ []

receive-view :
    (fe : FrontEnd4) (session : SessionId) (a : Answer)
    → handle fe (delivery session a)
      ≡ ok ((remove_session fe a.1 session).0, reply_to (completes a.1 (view fe session)) a.2)
unfolding receive
receive-view fe session (at, from, response) =
    rw (completes-remove_session fe from session) (ground arith)

-- What the view answers to a sequence of responses of its session.
abbrev replies : Awaited → List Answer → List (List Out)
replies v [] = []
replies v ((at, from, response) ∷ rest) =
    reply_to (completes from v) response ∷ replies (answered from v) rest

abbrev after : FrontEnd4 → SessionId → List Answer → FrontEnd4
after fe session [] = fe
after fe session ((at, from, response) ∷ rest) =
    after (remove_session fe from session).0 session rest

run-replies :
    (fe : FrontEnd4) (session : SessionId) (answers : List Answer)
    → run handle fe (map (delivery session) answers)
      ≡ ok (after fe session answers, replies (view fe session) answers)
unfolding run
run-replies fe session [] = refl
run-replies fe session (a ∷ rest) = rw (receive-view fe session a) (
    rw (run-replies (remove_session fe a.1 session).0 session rest) (
      ap
        (λ v. ok (
          after fe session (a ∷ rest),
          reply_to (completes a.1 (view fe session)) a.2 ∷ replies v rest,
        ))
        (view-remove_session fe a.1 session session ∙ ground arith)))

-- The specification: nothing until both registers have answered, then one reply with the response
-- that came last of the two, and nothing afterwards. The flags tell who has answered so far.
unfoldable pub once_both : ℕ → Bool → Bool → List Answer → List (List Out)
once_both client one two [] = []
once_both client one two ((at, from, response) ∷ rest) =
    let one' = one || from == register1 in
    let two' = two || from == register2 in
    (if one' && two' && not (one && two) then reply client response ∷ [] else [])
    ∷ once_both client one' two' rest

-- The view of a session in flight from whom the flagged registers have been heard.
abbrev heard : ℕ → Bool → Bool → Awaited
heard client true true = none
heard client true false = some (client, register2 ∷ [])
heard client false true = some (client, register1 ∷ [])
heard client false false = some (client, register1 ∷ register2 ∷ [])

answered-heard :
    (client : ℕ) (from : Text) (one two : Bool)
    → answered from (heard client one two)
      ≡ heard client (one || from == register1) (two || from == register2)
unfolding answered
answered-heard client from true true = refl
answered-heard client from true false = ground arith
answered-heard client from false true = ground arith
answered-heard client from false false = ground arith

and_true : (b : Bool) → (b && true) ≡ b
and_true true = refl
and_true false = refl

completes_one :
    (client : ℕ) (from r : Text)
    → completes from (some (client, r ∷ [])) ≡ (if (from == r) && true then some client else none)
unfolding completes
completes_one client from r = ground arith

completes_two :
    (client : ℕ) (from r1 r2 : Text)
    → r1 ≢ r2
    → completes from (some (client, r1 ∷ r2 ∷ []))
      ≡ (if (from == r1) && (from == r2) && true then some client else none)
unfolding completes
completes_two client from r1 r2 h = ground arith

register1-ne-register2 : register1 ≢ register2
register1-ne-register2 h = ground arith

completes-heard :
    (client : ℕ) (from : Text) (one two : Bool)
    → completes from (heard client one two) ≡ (
        if (one || from == register1) && (two || from == register2) && not (one && two)
        then some client
        else none)
unfolding completes
completes-heard client from true true = refl
completes-heard client from true false = completes_one client from register2
completes-heard client from false true =
    rw (and_true (from == register1 && true)) (completes_one client from register1)
completes-heard client from false false =
    completes_two client from register1 register2 register1-ne-register2

replies-heard :
    (client : ℕ) (one two : Bool) (answers : List Answer)
    → replies (heard client one two) answers ≡ once_both client one two answers
unfolding once_both
replies-heard client one two [] = refl
replies-heard client one two ((at, from, response) ∷ rest) =
    rw (completes-heard client from one two, answered-heard client from one two)
      (ground
        (arith, replies-heard client (one || from == register1) (two || from == register2) rest))

receive-request :
    (fe : FrontEnd4) (at : Time) (from : Text) (client : ℕ) (request : Request)
    → handle fe (at, from, client_request client request)
      ≡ ok (
        (receive_client fe at from client request).0,
        forward register1 request fe.next_session_id
            ∷ forward register2 request fe.next_session_id
            ∷ set_timer fe
            ∷ [],
      )
unfolding receive
receive-request fe at from client request = unfold receive_client in refl

replies-receive_client :
    (fe : FrontEnd4) (at : Time) (from : Text) (client : ℕ) (request : Request)
    (answers : List Answer)
    → IsTracked fe
    → replies (view (receive_client fe at from client request).0 fe.next_session_id) answers
      ≡ once_both client false false answers
replies-receive_client fe at from client request answers v =
    ap (λ w. replies w answers)
      (view-receive_client fe at from client request fe.next_session_id v ∙ ground arith)
    ∙ replies-heard client false false answers

-- From a tracked state of the fourth front end, a request is forwarded to both registers with a
-- timer, and whatever responses of its session then arrive, from whomever and how often, the client
-- gets a reply exactly with the response by which both registers have answered, and none before or
-- after it.
pub receive_once_both :
    (fe : FrontEnd4) (at : Time) (from : Text) (client : ℕ) (request : Request)
    (answers : List Answer)
    → IsTracked fe
    → (fe' : FrontEnd4) × (run handle fe
          ((at, from, client_request client request) ∷ map (delivery fe.next_session_id) answers)
        ≡ ok (
          fe',
          (forward register1 request fe.next_session_id
                ∷ forward register2 request fe.next_session_id
                ∷ set_timer fe
                ∷ [])
              ∷ once_both client false false answers,
        ))
unfolding run
receive_once_both fe at from client request answers v = (
  after (receive_client fe at from client request).0 fe.next_session_id answers,
  rw (receive-request fe at from client request) (
      rw (run-replies (receive_client fe at from client request).0 fe.next_session_id answers)
        (rw (replies-receive_client fe at from client request answers v) refl)),
)
