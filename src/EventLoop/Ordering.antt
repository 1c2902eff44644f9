-- ===== src/EventLoop/Ordering.antt =====
-- The log of src/executor-event-loop/eventloop.go in the order of its logical times.
use mathlib.Core.Path.{subst}
use detsys_testkit.Base.{
  ℕ, Bool, true, false, ◌+◌, ◌≤◌, ◌<◌, ◌≡◌, refl, arith, List, [], ◌∷◌, ◌++◌, ok, panic, >>=-eq-ok,
  ok-inj, if◌then◌else◌,
}
use detsys_testkit.EventLoop.Clock.{
  LogicalTime, incr, merge, HasRoom, incr_lem, merge_later, merge_lem,
}
use detsys_testkit.EventLoop.Executor.{Sut, Executor, Message, process_envelope}
use detsys_testkit.EventLoop.Loop.{
  Envelope, LogEntry, EnvelopeKind, request, response, to_string, from_string, EventLoop, Input,
  command, envelope, Output, said, dumped, sent, add_to_log, admin_quit, admin_dump_log,
  admin_reset_log, admin_reset_reactors, admin_unknown, to_scheduler_envelope, all_json,
  process_admin, handle_envelope, step, log_send, log_resume_continuation, to_local,
}

-- The entries' times increase strictly, from above `lo` up to `hi` at most.
abbrev pub IsIncreasing : {Raw : Type 0} → LogicalTime → List (LogEntry Raw) → LogicalTime → Type 0
IsIncreasing lo [] hi = lo ≤ hi
IsIncreasing lo (e ∷ es) hi = (lo < e.logical_time) × IsIncreasing e.logical_time es hi

-- The log of a loop is in the order of its times, and its clock is not behind.
abbrev pub IsOrdered : {S Raw : Type 0} → EventLoop S Raw → Type 0
IsOrdered el = IsIncreasing 0 el.log el.logical_time

module _ {Raw : Type 0} where
  later-IsIncreasing :
      (lo : ℕ) (es : List (LogEntry Raw)) {hi hi' : ℕ}
      → hi ≤ hi'
      → IsIncreasing lo es hi
      → IsIncreasing lo es hi'
  later-IsIncreasing lo [] h i = omega arith
  later-IsIncreasing lo (e ∷ es) h (l, i) = (l, later-IsIncreasing e.logical_time es h i)

  snoc-IsIncreasing :
      (lo : ℕ) (es : List (LogEntry Raw)) (e : LogEntry Raw) {hi hi' : ℕ}
      → hi < e.logical_time
      → e.logical_time ≤ hi'
      → IsIncreasing lo es hi
      → IsIncreasing lo (es ++ e ∷ []) hi'
  snoc-IsIncreasing lo [] e h k i = (omega arith, k)
  snoc-IsIncreasing lo (d ∷ es) e h k (l, i) = (l, snoc-IsIncreasing d.logical_time es e h k i)

-- The name of a kind of envelope is read back as that kind.
pub from_string-to_string : (kind : EnvelopeKind) → from_string (to_string kind) ≡ kind
unfolding from_string to_string
from_string-to_string request = refl
from_string-to_string response = refl

module _ {S Raw Req Msg Resp : Type 0} (sut : Sut S Raw Req Msg Resp) where
  abbrev resumed_and_sent :
      EventLoop S Raw → Envelope Raw → Executor S → Message Raw → EventLoop S Raw × Output Raw
  unfolding add_to_log to_scheduler_envelope
  resumed_and_sent el env ex outgoing =
      let at : LogicalTime = merge el.logical_time env.logical_time in
      let me = to_local env.receiver in
      let resumed : EventLoop S Raw =
        add_to_log (record el { logical_time = at }) log_resume_continuation me env.message in
      let ticked : EventLoop S Raw = record resumed { executor = ex; logical_time = incr at } in
      (
        add_to_log ticked log_send me outgoing,
        sent (to_scheduler_envelope ticked env.receiver outgoing env.correlation_id),
      )

  abbrev IsReply : EventLoop S Raw → Envelope Raw → EventLoop S Raw × Output Raw → Type 0
  IsReply el env (el', dumped l) = ⊥
  IsReply el env (el', said l) = ⊥
  IsReply el env (el', sent out) =
      (out.correlation_id ≡ env.correlation_id)
      × (out.logical_time ≡ el'.logical_time)
      × (env.logical_time < out.logical_time)
      × (el.logical_time < out.logical_time)
      × (out.sender ≡ env.receiver)
      × (out.receiver ≡ el.scheduler_ref)

  -- What `handle_envelope` makes of the processed message: the loop after it and the reply.
  abbrev Handled : EventLoop S Raw → Envelope Raw → EventLoop S Raw × Output Raw → Type 0
  Handled el env r = IsReply el env r × (IsOrdered el → IsOrdered r.0)

  handled :
      (el : EventLoop S Raw) (env : Envelope Raw) (ex : Executor S) (outgoing : Message Raw)
      → HasRoom (el.logical_time + 1)
      → HasRoom (env.logical_time + 1)
      → Handled el env (resumed_and_sent el env ex outgoing)
  unfolding to_scheduler_envelope add_to_log
  handled el env ex outgoing room room' =
      let m : LogicalTime = merge el.logical_time env.logical_time in
      let (later, later') : (el.logical_time < m) × (env.logical_time < m) =
        merge_later el.logical_time env.logical_time (omega arith) (omega arith) in
      let next : incr m ≡ m + 1 =
        incr_lem m (
          ground (arith, merge_lem el.logical_time env.logical_time (omega arith) (omega arith))) in
      (
        (refl, refl, omega arith, omega arith, refl, refl),
        λ i.
            snoc-IsIncreasing 0 (el.log ++ _ ∷ []) _ {hi = m} (omega arith) (omega arith)
              (snoc-IsIncreasing 0 el.log _ {hi = el.logical_time} later (omega arith) i),
      )

  -- The answer to an envelope that is processed is sent to the scheduler with the correlation id of
  -- the envelope and a logical time later than that of the envelope and that of the loop before it.
  pub handle_envelope-eq-ok :
      (el : EventLoop S Raw) (env : Envelope Raw) {r : EventLoop S Raw × Output Raw}
      → HasRoom (el.logical_time + 1)
      → HasRoom (env.logical_time + 1)
      → handle_envelope sut el env ≡ ok r
      → IsReply el env r
  unfolding handle_envelope to_scheduler_envelope add_to_log
  handle_envelope-eq-ok el env room room' h =
      let (a, _, e) =
        >>=-eq-ok (process_envelope sut el.executor env.message env.correlation_id) (λ _. _) h in
      (subst (Handled el env) (ok-inj e) (handled el env a.0 a.1 room room')).0

  pub handle_envelope-IsOrdered :
      (el : EventLoop S Raw) (env : Envelope Raw) {el' : EventLoop S Raw} {out : Output Raw}
      → HasRoom (el.logical_time + 1)
      → HasRoom (env.logical_time + 1)
      → IsOrdered el
      → handle_envelope sut el env ≡ ok (el', out)
      → IsOrdered el'
  unfolding handle_envelope to_scheduler_envelope add_to_log
  handle_envelope-IsOrdered el env room room' i h =
      let (a, _, e) =
        >>=-eq-ok (process_envelope sut el.executor env.message env.correlation_id) (λ _. _) h in
      (subst (Handled el env) (ok-inj e) (handled el env a.0 a.1 room room')).1 i

  if-ok-inj : {A : Type 0} (b : Bool) {x y : A} → (if b then ok x else panic) ≡ ok y → x ≡ y
  if-ok-inj true h = ok-inj h
  if-ok-inj false h = cc

  -- The times that a round of the loop can still count up.
  abbrev HasTime : EventLoop S Raw → Input Raw → Type 0
  HasTime el (command cmd) = HasRoom el.logical_time
  HasTime el (envelope env) = HasRoom (el.logical_time + 1) × HasRoom (env.logical_time + 1)

  -- A round of the event loop keeps the log strictly increasing in its logical times and the clock
  -- not behind the log, for every command and envelope, while times last.
  pub step-IsOrdered :
      (el : EventLoop S Raw) (i : Input Raw) {el' : EventLoop S Raw} {out : Output Raw}
      {quit : Bool}
      → HasTime el i
      → IsOrdered el
      → step sut el i ≡ ok (el', out, quit)
      → IsOrdered el'
  unfolding step process_admin
  step-IsOrdered el (command admin_unknown) room v h = cc
  step-IsOrdered el (command admin_quit) room v h =
      subst (λ r. IsOrdered r.0) (ok-inj h)
        (later-IsIncreasing 0 el.log (ground (arith, incr_lem el.logical_time room)) v)
  step-IsOrdered el (command admin_dump_log) room v h =
      subst (λ r. IsOrdered r.0) (if-ok-inj (all_json sut el.log) h)
        (later-IsIncreasing 0 el.log (ground (arith, incr_lem el.logical_time room)) v)
  step-IsOrdered el (command admin_reset_log) room v h =
      subst (λ r. IsOrdered r.0) (ok-inj h) (omega arith)
  step-IsOrdered el (command admin_reset_reactors) room v h =
      subst (λ r. IsOrdered r.0) (ok-inj h)
        (later-IsIncreasing 0 el.log (ground (arith, incr_lem el.logical_time room)) v)
  step-IsOrdered el (envelope env) (room, room') v h =
      let ((el'', out), e, e') = >>=-eq-ok (handle_envelope sut el env) (λ _. _) h in
      subst (λ r. IsOrdered r.0) (ok-inj e') (handle_envelope-IsOrdered el env room room' v e)
