-- ===== src/Tests/Resending.antt =====
-- The resending of the later front ends at concrete inputs.
use detsys_testkit.Base.{◌≡◌, arith, [], ◌∷◌, nat_eq}
use detsys_testkit.Events.{singleton}
use detsys_testkit.Register.Messages.{write, register1, register2, forward}
use detsys_testkit.Register.Pending.{OnGoing, waiting, resend}
use detsys_testkit.Register.Pending.Laws.{pending, pending-resend}
use detsys_testkit.Register.FrontEnd4.{FrontEnd4, set_timer, timer}
use detsys_testkit.Register.FrontEnd4.Timers.{timer_lem, timer_twice, timer_on_time}

-- A session that waits for both registers, asked at different times.
abbrev on_going : OnGoing
on_going = waiting register1 (write 1) 0 0 ∷ waiting register2 (write 1) 0 4000000000 ∷ []

abbrev waits : FrontEnd4
waits = record {
  on_going = on_going;
  in_flight = (0, 7) ∷ [];
  next_session_id = 1;
  resend_timer = 5000000000;
}

pending-resend_example :
    pending 0 (resend 5000000000 6000000000 on_going).0 ≡ register1 ∷ register2 ∷ []
unfolding pending nat_eq
pending-resend_example = pending-resend 0 5000000000 6000000000 on_going

timer_lem_example : timer waits 6000000000 ≡ (
  record waits {
    on_going =
        record (waiting register1 (write 1) 0 6000000000) { number_of_tries = 1 }
        ∷ waiting register2 (write 1) 0 4000000000
        ∷ [];
  },
  forward register1 (write 1) 0 ∷ set_timer waits ∷ [],
)
unfolding set_timer singleton forward nat_eq
timer_lem_example = timer_lem waits 6000000000

timer_on_time_example : timer waits 5000000000 ≡ (waits, [])
timer_on_time_example = timer_on_time waits 0 (omega arith, (omega arith, tt))

timer_twice_example :
    (timer (timer waits 6000000000).0 9000000001).1
    ≡ (timer
        (record waits { on_going = waiting register2 (write 1) 0 4000000000 ∷ [] })
        9000000001).1
timer_twice_example = timer_twice waits 6000000000 9000000001 (omega arith) (omega arith)
