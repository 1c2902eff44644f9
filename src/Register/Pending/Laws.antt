-- ===== src/Register/Pending/Laws.antt =====
-- What the loop that sends again does to the entries, and whom a session still waits for.
use detsys_testkit.Base.{
  ◌+◌, ◌≤◌, ◌≡◌, refl, List, [], ◌∷◌, ◌++◌, arith, not, ◌==◌, nat_eq, text_eq, if◌then◌else◌,
  filter, All, map,
}
use detsys_testkit.Base.Text.{Text}
use detsys_testkit.Events.{Time, Duration}
use detsys_testkit.Register.Messages.{SessionId, Out, forward}
use detsys_testkit.Register.Pending.{
  OnGoingInternalRequest, OnGoing, is_overdue, tried_again, resend,
}

-- The registers that a session still waits for, one entry each.
unfoldable pub pending : SessionId → OnGoing → List Text
pending session [] = []
pending session (on ∷ rest) =
    if on.session_id == session then on.register ∷ pending session rest else pending session rest

pub pending-append :
    (session : SessionId) (xs ys : OnGoing)
    → pending session (xs ++ ys) ≡ pending session xs ++ pending session ys
unfolding pending
pending-append session [] ys = refl
pending-append session (on ∷ xs) ys = ground (arith, pending-append session xs ys)

-- The event that sends an entry's request again.
abbrev pub again : OnGoingInternalRequest → Out
again on = forward on.register on.request on.session_id

-- The loop keeps every entry in its place, renews those that are overdue, and sends exactly these
-- requests again, in their order.
pub resend_lem :
    (timer : Duration) (at : Time) (ons : OnGoing)
    → resend timer at ons ≡ (
      map (λ on. if is_overdue timer at on then tried_again at on else on) ons,
      map again (filter (is_overdue timer at) ons),
    )
unfolding resend
resend_lem timer at [] = refl
resend_lem timer at (on ∷ rest) = ground (arith, resend_lem timer at rest)

-- No session waits for other registers after the loop than before it.
pub pending-resend :
    (session : SessionId) (timer : Duration) (at : Time) (ons : OnGoing)
    → pending session (resend timer at ons).0 ≡ pending session ons
unfolding pending resend
pending-resend session timer at [] = refl
pending-resend session timer at (on ∷ rest) = ground (arith, pending-resend session timer at rest)

-- Until more than the timer has passed, a second run of the loop sends again only what was not
-- overdue at the first run, and nothing that the first run sent.
pub resend_early :
    (timer : Duration) (at at' : Time) (ons : OnGoing)
    → at' ≤ at + timer
    → at ≤ at'
    → (resend timer at' (resend timer at ons).0).1
      ≡ (resend timer at' (filter (λ on. not (is_overdue timer at on)) ons)).1
unfolding resend
resend_early timer at at' [] h k = refl
resend_early timer at at' (on ∷ rest) h k = ground (arith, resend_early timer at at' rest h k)

-- If nothing was sent before some time, nothing is overdue when the timer has just run out.
pub resend_on_time :
    (timer : Duration) (at : Time) (ons : OnGoing)
    → All (λ on. at ≤ on.at) ons
    → resend timer (at + timer) ons ≡ (ons, [])
unfolding resend
resend_on_time timer at [] h = refl
resend_on_time timer at (on ∷ rest) (here, h) = ground (arith, resend_on_time timer at rest h)
