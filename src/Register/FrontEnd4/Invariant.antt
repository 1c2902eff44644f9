-- ===== src/Register/FrontEnd4/Invariant.antt =====
-- The invariant of the fourth front end, and what a request does to the view under it.
use mathlib.Core.Path.{subst}
use detsys_testkit.Base.{
  ℕ, ◌+◌, ◌^◌, ◌<◌, ◌≡◌, refl, ◌∙◌, none, some, inl, inr, List, [], ◌∷◌, ◌++◌, arith, ◌==◌, nat_eq,
  text_eq, if◌then◌else◌, Option-cases, append-nil, ok,
}
use detsys_testkit.Base.Dict
use detsys_testkit.Base.Dict.{lookup-erase, lookup-insert}
use detsys_testkit.Base.Text.{Text}
use detsys_testkit.Events.{Time, client_request, internal_message}
use detsys_testkit.Register.Messages.{
  SessionId, Request, Event, Out, internal_response, register1, register2,
}
use detsys_testkit.Register.Pending.{waiting}
use detsys_testkit.Register.Pending.Laws.{pending, pending-append, pending-resend}
use detsys_testkit.Register.FrontEnd4.{
  FrontEnd4, new_front_end4, remove_session, receive_client, receive, timer,
}
use detsys_testkit.Register.FrontEnd4.Awaiting.{
  view, strike-pending, strike-pending_ne, strike-no_more,
}

-- A session that is not in flight awaits nobody, and was handed out before.
pub record IsTracked (fe : FrontEnd4) : Type 0 where
  pub none_pending :
      (session : SessionId)
      → Dict.lookup session fe.in_flight ≡ none
      → pending session fe.on_going ≡ []
  pub below_next :
      (session : SessionId) (client : ℕ)
      → Dict.lookup session fe.in_flight ≡ some client
      → session < fe.next_session_id

pub new_front_end4-IsTracked : IsTracked new_front_end4
unfolding new_front_end4 pending Dict.lookup
new_front_end4-IsTracked = record {
  none_pending = λ session h. refl;
  below_next = λ session client h. absurd (cc);
}

next_free : (fe : FrontEnd4) → IsTracked fe → Dict.lookup fe.next_session_id fe.in_flight ≡ none
next_free fe v = elim (Option-cases (Dict.lookup fe.next_session_id fe.in_flight)) [
  | inl e ↦ e
  | inr (client, e) ↦ absurd (omega (arith, v.below_next fe.next_session_id client e))
]

next_pending : (fe : FrontEnd4) → IsTracked fe → pending fe.next_session_id fe.on_going ≡ []
next_pending fe v = v.none_pending fe.next_session_id (next_free fe v)

pending-both :
    (fe : FrontEnd4) (request : Request) (at : Time) (session : SessionId)
    → pending session (
        fe.on_going
        ++ waiting register1 request fe.next_session_id at
          ∷ waiting register2 request fe.next_session_id at
          ∷ [])
      ≡ (if session == fe.next_session_id
          then pending session fe.on_going ++ register1 ∷ register2 ∷ []
          else pending session fe.on_going)
pending-both fe request at session =
    pending-append session fe.on_going _
    ∙ unfold pending in ground (arith, append-nil (pending session fe.on_going))

-- A request to the fourth front end opens a new session that awaits both registers, and leaves the
-- others as they are, from every tracked state.
pub view-receive_client :
    (fe : FrontEnd4) (at : Time) (from : Text) (client : ℕ) (request : Request)
    (session : SessionId)
    → IsTracked fe
    → view (receive_client fe at from client request).0 session ≡ (
        if session == fe.next_session_id
        then some (client, register1 ∷ register2 ∷ [])
        else view fe session)
unfolding view receive_client
view-receive_client fe at from client request session v = ground (
  arith,
  lookup-insert session fe.next_session_id client fe.in_flight,
  pending-both fe request at session,
  next_pending fe v,
)

pub receive_client-IsTracked :
    (fe : FrontEnd4) (at : Time) (from : Text) (client : ℕ) (request : Request)
    → IsTracked fe
    → fe.next_session_id + 1 < 2 ^ 64
    → IsTracked (receive_client fe at from client request).0
unfolding receive_client
receive_client-IsTracked fe at from client request v room = record {
  none_pending = λ session h. ground (
    arith,
    lookup-insert session fe.next_session_id client fe.in_flight,
    pending-both fe request at session,
    v.none_pending session,
  );
  below_next = λ session c h.
      ground (
        arith,
        lookup-insert session fe.next_session_id client fe.in_flight,
        v.below_next session c,
      );
}

pub remove_session-IsTracked :
    (fe : FrontEnd4) (from : Text) (session : SessionId)
    → IsTracked fe
    → IsTracked (remove_session fe from session).0
unfolding remove_session
remove_session-IsTracked fe from session v = record {
  none_pending = λ other h. ground (
    arith,
    lookup-erase other session fe.in_flight,
    strike-pending from session fe.on_going,
    strike-pending_ne from session other fe.on_going,
    strike-no_more from session fe.on_going,
    v.none_pending other,
  );
  below_next =
      λ other c h. ground (arith, lookup-erase other session fe.in_flight, v.below_next other c);
}

-- Sending requests again keeps the invariant.
pub timer-IsTracked : (fe : FrontEnd4) (at : Time) → IsTracked fe → IsTracked (timer fe at).0
unfolding timer
timer-IsTracked fe at v = record {
  none_pending =
      λ session h. pending-resend session fe.resend_timer at fe.on_going ∙ v.none_pending session h;
  below_next = λ session c h. v.below_next session c h;
}

-- Every event that does not end the process keeps the invariant of the fourth front end (a session
-- that is not in flight awaits nobody, and sessions in flight are below the next id), while session
-- ids last.
pub receive-IsTracked :
    (fe fe' : FrontEnd4) (at : Time) (from : Text) (event : Event) (out : List Out)
    → IsTracked fe
    → fe.next_session_id + 1 < 2 ^ 64
    → receive fe at from event ≡ ok (fe', out)
    → IsTracked fe'
unfolding receive
receive-IsTracked fe fe' at from (client_request client request) out v room h =
    subst IsTracked (ground arith) (receive_client-IsTracked fe at from client request v room)
receive-IsTracked fe fe' at from (internal_message (internal_response session response)) out v room
      h =
    subst IsTracked (ground arith) (remove_session-IsTracked fe from session v)
receive-IsTracked fe fe' at from _ out v room h = absurd (cc)
