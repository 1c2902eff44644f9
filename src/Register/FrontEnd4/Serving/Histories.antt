-- ===== src/Register/FrontEnd4/Serving/Histories.antt =====
-- The fourth front end over any history: requests of all clients, responses of all sessions, and
-- timers, in any order. Its replies to clients are those of a table of awaited registers.
use mathlib.Core.Path.{fun_ext}
use detsys_testkit.Base.{
  ℕ, ◌+◌, ◌^◌, ◌<◌, ◌≡◌, refl, ap, ◌∙◌, Bool, true, false, none, some, Option, List, [], ◌∷◌, ◌++◌,
  arith, ◌==◌, nat_eq, text_eq, if◌then◌else◌, Result, ok, map, length, filter,
}
use detsys_testkit.Base.Text.{Text}
use detsys_testkit.Events.{Time, client_request, internal_message, client_response, run, run-cons}
use detsys_testkit.Register.Messages.{
  SessionId, Request, Response, Out, internal_response, register1, register2, reply, forward,
}
use detsys_testkit.Register.Pending.{OnGoing, is_overdue}
use detsys_testkit.Register.Pending.Laws.{again}
use detsys_testkit.Register.FrontEnd4.{
  FrontEnd4, remove_session, receive_client, receive, set_timer, timer, with_timer,
}
use detsys_testkit.Register.FrontEnd4.Awaiting.{
  Awaited, view, answered, completes, view-remove_session, view-timer,
}
use detsys_testkit.Register.FrontEnd4.Invariant.{
  IsTracked, view-receive_client, receive_client-IsTracked, remove_session-IsTracked,
  timer-IsTracked,
}
use detsys_testkit.Register.FrontEnd4.Timers.{timer_resends}
use detsys_testkit.Register.FrontEnd4.Serving.{reply_to, receive-view, receive-request}

-- What reaches the front end: a client's request, a response of a session, or the timer.
pub data Input : Type 0 where
  asks : Time → Text → ℕ → Request → Input
  responds : Time → Text → SessionId → Response → Input
  fires : Time → Input

abbrev pub react : FrontEnd4 → Input → Result (FrontEnd4 × List Out)
react fe (asks at from client request) = receive fe at from (client_request client request)
react fe (responds at from session response) =
    receive fe at from (internal_message (internal_response session response))
react fe (fires at) = ok (timer fe at)

abbrev is_reply : Out → Bool
is_reply o = elim o.args [ client_response id response ↦ true | _ ↦ false ]

-- The events that are for clients.
abbrev pub replies_of : List Out → List Out
replies_of = filter is_reply

-- The specification: a table of the awaited registers by session. A request opens the next session, a
-- response is taken off and replied when it completes its session, and the timer does nothing.
abbrev Table : Type 0
Table = SessionId → Awaited

abbrev put : SessionId → Awaited → Table → Table
put session awaited table other = if other == session then awaited else table other

unfoldable pub serve : Table → ℕ → List Input → List (List Out)
serve table next [] = []
serve table next (asks at from client request ∷ rest) =
    [] ∷ serve (put next (some (client, register1 ∷ register2 ∷ [])) table) (next + 1) rest
serve table next (responds at from session response ∷ rest) =
    reply_to (completes from (table session)) response
    ∷ serve (put session (answered from (table session)) table) next rest
serve table next (fires at ∷ rest) = [] ∷ serve table next rest

-- An input is handled, and the table and the next id are those given afterwards.
abbrev Stepped : FrontEnd4 → Input → Table → ℕ → List Out → Type 0
Stepped fe i table next out =
    (fe' : FrontEnd4) × (o : List Out) × (react fe i ≡ ok (fe', o))
    × IsTracked fe'
    × ((session : SessionId) → view fe' session ≡ table session)
    × (fe'.next_session_id ≡ next)
    × (replies_of o ≡ out)

asks_step :
    (fe : FrontEnd4) (at : Time) (from : Text) (client : ℕ) (request : Request)
    → IsTracked fe
    → fe.next_session_id + 1 < 2 ^ 64
    → Stepped fe
        (asks at from client request)
        (put fe.next_session_id (some (client, register1 ∷ register2 ∷ [])) (view fe))
        (fe.next_session_id + 1)
        []
unfolding receive_client set_timer forward
asks_step fe at from client request v room = (
  (receive_client fe at from client request).0,
  forward register1 request fe.next_session_id
      ∷ forward register2 request fe.next_session_id
      ∷ set_timer fe
      ∷ [],
  receive-request fe at from client request,
  receive_client-IsTracked fe at from client request v room,
  λ session. view-receive_client fe at from client request session v,
  omega arith,
  refl,
)

remove_session-next :
    (fe : FrontEnd4) (from : Text) (session : SessionId)
    → (remove_session fe from session).0.next_session_id ≡ fe.next_session_id
unfolding remove_session
remove_session-next fe from session = ground arith

replies_of-reply_to :
    (client : Option ℕ) (response : Response)
    → replies_of (reply_to client response) ≡ reply_to client response
unfolding reply
replies_of-reply_to none response = refl
replies_of-reply_to (some client) response = refl

responds_step :
    (fe : FrontEnd4) (at : Time) (from : Text) (session : SessionId) (response : Response)
    → IsTracked fe
    → Stepped fe
        (responds at from session response)
        (put session (answered from (view fe session)) (view fe))
        fe.next_session_id
        (reply_to (completes from (view fe session)) response)
responds_step fe at from session response v = (
  (remove_session fe from session).0,
  reply_to (completes from (view fe session)) response,
  receive-view fe session (at, from, response),
  remove_session-IsTracked fe from session v,
  λ other. view-remove_session fe from session other,
  remove_session-next fe from session,
  replies_of-reply_to (completes from (view fe session)) response,
)

replies_of-with_timer :
    (fe : FrontEnd4) (ons : OnGoing) → replies_of (map again ons ++ set_timer fe ∷ []) ≡ []
unfolding forward set_timer
replies_of-with_timer fe [] = refl
replies_of-with_timer fe (on ∷ ons) = replies_of-with_timer fe ons

replies_of_resent :
    (fe : FrontEnd4) (ons : OnGoing) → replies_of (with_timer (set_timer fe) (map again ons)) ≡ []
unfolding forward
replies_of_resent fe [] = refl
replies_of_resent fe (on ∷ ons) = replies_of-with_timer fe ons

fires_step :
    (fe : FrontEnd4) (at : Time)
    → IsTracked fe
    → Stepped fe (fires at) (view fe) fe.next_session_id []
fires_step fe at v = (
  (timer fe at).0,
  (timer fe at).1,
  refl,
  timer-IsTracked fe at v,
  λ session. view-timer fe at session,
  unfold timer in refl,
  ap (λ r. replies_of r.1) (timer_resends fe at)
      ∙ replies_of_resent fe (filter (is_overdue fe.resend_timer at) fe.on_going),
)

-- A history is handled, and its replies to clients are those of the table.
abbrev Served : FrontEnd4 → List Input → Table → ℕ → Type 0
Served fe inputs table next =
    (fe' : FrontEnd4) × (outs : List (List Out)) × (run react fe inputs ≡ ok (fe', outs))
    × IsTracked fe'
    × (map replies_of outs ≡ serve table next inputs)

-- One input before a history.
before :
    (fe : FrontEnd4) (i : Input) (rest : List Input) (table : Table) (next : ℕ) (out : List Out)
    → Stepped fe i table next out
    → ((fe' : FrontEnd4)
        → IsTracked fe'
        → fe'.next_session_id ≡ next
        → Served fe' rest (view fe') fe'.next_session_id)
    → (fe' : FrontEnd4) × (outs : List (List Out)) × (run react fe (i ∷ rest) ≡ ok (fe', outs))
      × IsTracked fe'
      × (map replies_of outs ≡ out ∷ serve table next rest)
before fe i rest table next out (fe', o, e, v, sees, n, replied) later =
    let (last, outs, r, w, same) = later fe' v n in
    (
      last,
      o ∷ outs,
      run-cons react fe fe' i rest o e ∙ rw r refl,
      w,
      ap (λ x. x ∷ map replies_of outs) replied
          ∙ ap (λ x. out ∷ x)
              (same
                ∙ ap (λ t. serve t fe'.next_session_id rest) (fun_ext sees)
                ∙ ap (λ k. serve table k rest) n),
    )

-- From a tracked state, while session ids last, every history of requests of any clients, responses
-- of any sessions and timers is handled by the fourth front end, keeps its invariant, and replies to
-- clients exactly what a table of the awaited registers of each session does.
pub run-serve :
    (fe : FrontEnd4) (inputs : List Input)
    → IsTracked fe
    → fe.next_session_id + length inputs < 2 ^ 64
    → Served fe inputs (view fe) fe.next_session_id
unfolding serve run
run-serve fe [] v room = (fe, [], refl, v, refl)
run-serve fe (asks at from client request ∷ rest) v room =
    before fe (asks at from client request) rest _ _ _
      (asks_step fe at from client request v (omega arith))
      (λ fe' v' n. run-serve fe' rest v' (omega arith))
run-serve fe (responds at from session response ∷ rest) v room =
    before fe (responds at from session response) rest _ _ _
      (responds_step fe at from session response v)
      (λ fe' v' n. run-serve fe' rest v' (omega arith))
run-serve fe (fires at ∷ rest) v room =
    before fe (fires at) rest _ _ _ (fires_step fe at v)
      (λ fe' v' n. run-serve fe' rest v' (omega arith))
