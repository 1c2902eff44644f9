-- ===== src/Register/FrontEnd4/Timers.antt =====
-- What the timer of the fourth front end sends again, and when it is set again.
use detsys_testkit.Base.{
  ◌+◌, ◌%◌, ◌^◌, ◌≤◌, ◌≡◌, refl, arith, ap, ◌∙◌, [], ◌∷◌, ◌++◌, filter, All, map, ltb, not, ◌==◌,
  nat_eq, length, if◌then◌else◌, List,
}
use detsys_testkit.Base.Text.{text}
use detsys_testkit.Events.{Time, Duration, Args, singleton}
use detsys_testkit.Register.Messages.{Out, forward}
use detsys_testkit.Register.Pending.{OnGoingInternalRequest, OnGoing, is_overdue, tried_again}
use detsys_testkit.Register.Pending.Laws.{again, resend_lem, resend_early, resend_on_time}
use detsys_testkit.Register.FrontEnd4.{FrontEnd4, timer, set_timer, with_timer}

-- The entries that were sent more than one period before some time, and what becomes of an entry.
abbrev pub late : Duration → Time → OnGoing → OnGoing
late period at = filter (λ on. ltb (on.at + period) at)

abbrev pub renewed : Duration → Time → OnGoingInternalRequest → OnGoingInternalRequest
renewed period at on =
    if ltb (on.at + period) at
    then record {
      register = on.register;
      request = on.request;
      session_id = on.session_id;
      at = at;
      number_of_tries = (on.number_of_tries + 1) % 2 ^ 64;
    }
    else on

-- The requests of some entries, and after them the timer, if there is any request.
abbrev pub asked_again : Duration → OnGoing → List Out
asked_again period ons =
    if length ons == 0
    then []
    else map (λ on. forward on.register on.request on.session_id) ons
      ++ record { to = text "frontend" ∷ []; args = Args.timer period } ∷ []

asked_lem :
    (fe : FrontEnd4) (ons : OnGoing)
    → with_timer (set_timer fe) (map again ons) ≡ asked_again fe.resend_timer ons
unfolding set_timer singleton nat_eq
asked_lem fe [] = refl
asked_lem fe (on ∷ ons) = ground arith

-- The timer by the loop that the front ends share.
pub timer_resends :
    (fe : FrontEnd4) (at : Time)
    → timer fe at ≡ (
      record fe {
        on_going =
            map
              (λ on. if is_overdue fe.resend_timer at on then tried_again at on else on)
              fe.on_going;
      },
      with_timer (set_timer fe) (map again (filter (is_overdue fe.resend_timer at) fe.on_going)),
    )
unfolding timer
timer_resends fe at = rw (resend_lem fe.resend_timer at fe.on_going) refl

-- The timer of the fourth front end sends the requests again that were sent more than one period
-- before, in their order, and then sets itself for one period, or sends nothing if there is no such
-- request; the entries stay in their places, those sent again with the new time and one more try,
-- modulo 2^64, and nothing else of the front end changes.
pub timer_lem :
    (fe : FrontEnd4) (at : Time)
    → timer fe at ≡ (
      record fe { on_going = map (renewed fe.resend_timer at) fe.on_going },
      asked_again fe.resend_timer (late fe.resend_timer at fe.on_going),
    )
unfolding is_overdue tried_again
timer_lem fe at =
    timer_resends fe at
    ∙ ap
        (λ out.
          let fe' : FrontEnd4 = record fe {
            on_going = map (renewed fe.resend_timer at) fe.on_going;
          } in
          (fe', out))
        (asked_lem fe (late fe.resend_timer at fe.on_going))

-- If the timer of the fourth front end goes off a second time, not before the first and at most one
-- period after it, then it sends what it would send if the requests that it sent the first time were
-- not there: none of them is sent a third time so early.
pub timer_twice :
    (fe : FrontEnd4) (at at' : Time)
    → at ≤ at'
    → at' ≤ at + fe.resend_timer
    → (timer (timer fe at).0 at').1
      ≡ (timer
          (record fe {
            on_going = filter (λ on. not (ltb (on.at + fe.resend_timer) at)) fe.on_going;
          })
          at').1
unfolding timer is_overdue
timer_twice fe at at' h k =
    ap (with_timer (set_timer fe)) (resend_early fe.resend_timer at at' fe.on_going k h)

-- If no request was sent before some time, the timer of the fourth front end that goes off exactly
-- one period after it sends nothing and is not set again.
pub timer_on_time :
    (fe : FrontEnd4) (at : Time)
    → All (λ on. at ≤ on.at) fe.on_going
    → timer fe (at + fe.resend_timer) ≡ (fe, [])
unfolding timer
timer_on_time fe at h = rw (resend_on_time fe.resend_timer at fe.on_going h) refl
