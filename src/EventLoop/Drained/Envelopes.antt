-- ===== src/EventLoop/Drained/Envelopes.antt =====
-- Every case of `processEnvelope` in src/executor-event-loop/executor.go leaves the buffers empty.
use mathlib.Core.Path.{subst}
use detsys_testkit.Base.{
  ℕ, ◌≡◌, refl, sym, ◌∙◌, inl, inr, Bool-cases, Option-cases, arith, some, none, List, [], ◌∷◌,
  Result, ok, panic, ◌>>=◌, >>=-eq-ok, text_eq, or_panic, ok-inj, if◌then◌else◌, ◌==◌, ◌||◌, true,
  false, Bool,
}
use detsys_testkit.Base.Text.{Text, text}
use detsys_testkit.Base.Dict
use detsys_testkit.Base.Dict.{lookup-insert}
use detsys_testkit.Topology
use detsys_testkit.Scheduled.{SchedulerEvent, unmarshal_scheduled_event, time_pico}
use detsys_testkit.EventLoop.Executor.{
  Sut, Executor, Message, Buffers, Update, Processed, call, build_buffers, build_topology,
  new_executor, process_event, process_init, init_all, process_timer, process_fault,
  process_envelope, unix_zero, rebuild, write_all,
}
use detsys_testkit.EventLoop.Drained.{IsDrained, call-IsDrained}

module _ {S Raw Req Msg Resp : Type 0} (sut : Sut S Raw Req Msg Resp) where
  process_event-IsDrained :
      (ex : Executor S) (raw : Raw) (corr_id : ℕ) {r : Processed sut}
      → IsDrained ex
      → process_event sut ex raw corr_id ≡ ok r
      → IsDrained r.0
  unfolding process_event
  process_event-IsDrained ex raw corr_id v h =
      let (sev, _, h1) =
        >>=-eq-ok
          (or_panic
            (sut.scheduled_fields raw >>= unmarshal_scheduled_event sut.marshaler sut.parse_time))
          (λ _. _) h in
      let (c, e, h2) =
        >>=-eq-ok (call sut ex sev.to sev.at (λ s. sut.receive s sev.at sev.from sev.event))
          (λ _. _) h1 in
      subst (λ r. IsDrained r.0) (ok-inj h2) (call-IsDrained sut ex sev.to sev.at _ v e)

  init_all-IsDrained :
      (ex : Executor S) (names : List Text) (inits : List (SchedulerEvent Resp Msg))
      (rui : Update sut) {r : Executor S × List (SchedulerEvent Resp Msg) × Update sut}
      → IsDrained ex
      → init_all sut ex names inits rui ≡ ok r
      → IsDrained r.0
  unfolding init_all
  init_all-IsDrained ex [] inits rui v h = subst (λ r. IsDrained r.0) (ok-inj h) v
  init_all-IsDrained ex (name ∷ names) inits rui v h =
      let (c, e, h1) = >>=-eq-ok (call sut ex name unix_zero sut.init) (λ _. _) h in
      init_all-IsDrained c.0 names _ _ (call-IsDrained sut ex name unix_zero sut.init v e) h1

  process_init-IsDrained :
      (ex : Executor S) (corr_id : ℕ) {r : Processed sut}
      → IsDrained ex
      → process_init sut ex corr_id ≡ ok r
      → IsDrained r.0
  unfolding process_init
  process_init-IsDrained ex corr_id v h =
      let (c, e, h1) =
        >>=-eq-ok (init_all sut ex (Topology.reactors ex.topology) [] []) (λ _. _) h in
      subst (λ r. IsDrained r.0) (ok-inj h1) (init_all-IsDrained ex _ [] [] v e)

  process_timer-IsDrained :
      (ex : Executor S) (raw : Raw) (corr_id : ℕ) {r : Processed sut}
      → IsDrained ex
      → process_timer sut ex raw corr_id ≡ ok r
      → IsDrained r.0
  unfolding process_timer
  process_timer-IsDrained ex raw corr_id v h =
      let (req, _, h1) = >>=-eq-ok (or_panic (sut.timer_request raw)) (λ _. _) h in
      let (at, _, h2) = >>=-eq-ok (or_panic (time_pico sut.parse_time 0 req.at)) (λ _. _) h1 in
      let (c, e, h3) = >>=-eq-ok (call sut ex req.reactor at (λ s. sut.timer s at)) (λ _. _) h2 in
      subst (λ r. IsDrained r.0) (ok-inj h3) (call-IsDrained sut ex req.reactor at _ v e)

  -- What a result, if it is one, leaves of the buffers.
  abbrev Leaves : Result (Processed sut) → Type 0
  Leaves m = (r : Processed sut) → m ≡ ok r → IsDrained r.0

  if-Leaves :
      (b : Bool) (m n : Result (Processed sut)) → Leaves m → Leaves n → Leaves (if b then m else n)
  if-Leaves true m n v w = v
  if-Leaves false m n v w = w

  panic-Leaves : Leaves panic
  panic-Leaves r h = cc

  -- The constructor of reactors writes nothing to the log.
  abbrev pub IsQuiet : Type 0
  IsQuiet = (name : Text) → (sut.build name).1 ≡ []

  -- The executor with a new reactor in the place of a name.
  abbrev rebuilt : Executor S → Text → Buffers → Executor S
  rebuilt ex name buffers = record ex {
    buffers = buffers;
    topology = Topology.insert ex.topology name (sut.build name).0;
  }

  rebuild_missing :
      (ex : Executor S) (name : Text)
      → IsQuiet
      → Dict.lookup name ex.buffers ≡ none
      → rebuild sut ex name ≡ ok (rebuilt ex name ex.buffers)
  unfolding rebuild write_all
  rebuild_missing ex name quiet b = rw (b, rebuild) (rw (quiet name) refl)

  rebuild_found :
      (ex : Executor S) (name : Text) {lw : List Text}
      → IsQuiet
      → Dict.lookup name ex.buffers ≡ some lw
      → rebuild sut ex name ≡ ok (rebuilt ex name (Dict.insert name lw ex.buffers))
  unfolding rebuild write_all
  rebuild_found ex name quiet b = rw (b, rebuild) (rw (quiet name) refl)

  rebuild-IsDrained :
      (ex : Executor S) (name : Text) {ex' : Executor S}
      → IsQuiet
      → IsDrained ex
      → rebuild sut ex name ≡ ok ex'
      → IsDrained ex'
  rebuild-IsDrained ex name quiet v h = elim (Option-cases (Dict.lookup name ex.buffers)) [
    | inl b ↦ subst (λ r. IsDrained r) (ok-inj (sym (rebuild_missing ex name quiet b) ∙ h)) v
    | inr (lw, b) ↦
        subst (λ r. IsDrained r) (ok-inj (sym (rebuild_found ex name quiet b) ∙ h))
          (λ other ls e.
            ground (arith, v other ls, v name lw, lookup-insert other name lw ex.buffers))
  ]

  process_fault-IsDrained :
      (ex : Executor S) (raw : Raw) (corr_id : ℕ) {r : Processed sut}
      → IsQuiet
      → IsDrained ex
      → process_fault sut ex raw corr_id ≡ ok r
      → IsDrained r.0
  unfolding process_fault
  process_fault-IsDrained ex raw corr_id quiet v h =
      let (req, _, h1) = >>=-eq-ok (or_panic (sut.fault_request raw)) (λ _. _) h in
      if-Leaves (req.event == text "restart") _ panic
        (λ r e.
          let (ex', f, e') = >>=-eq-ok (rebuild sut ex req.reactor) (λ _. _) e in
          subst (λ r. IsDrained r.0) (ok-inj e') (rebuild-IsDrained ex req.reactor quiet v f))
        panic-Leaves _ h1

  -- If the constructor of reactors writes nothing to the log, or the envelope is no fault, an
  -- envelope that is processed leaves every buffer of log lines empty, if it found them so: no line
  -- is told with a later step than the one that wrote it.
  pub process_envelope-IsDrained :
      (ex : Executor S) (msg : Message Raw) (corr_id : ℕ) {r : Processed sut}
      → (msg.kind ≡ text "fault" → IsQuiet)
      → IsDrained ex
      → process_envelope sut ex msg corr_id ≡ ok r
      → IsDrained r.0
  unfolding process_envelope
  process_envelope-IsDrained ex msg corr_id quiet v h =
      if-Leaves (msg.kind == text "message" || msg.kind == text "invoke") _ _
        (λ r. process_event-IsDrained ex msg.message corr_id v)
        (if-Leaves (msg.kind == text "init") _ _ (λ r. process_init-IsDrained ex corr_id v)
          (if-Leaves (msg.kind == text "timer") _ _
            (λ r. process_timer-IsDrained ex msg.message corr_id v)
            (elim (Bool-cases (msg.kind == text "fault")) [
              | inl e ↦
                  let fault : msg.kind ≡ text "fault" = ground arith in
                  rw (e) (λ r. process_fault-IsDrained ex msg.message corr_id (quiet fault) v)
              | inr e ↦ rw (e) panic-Leaves
            ])))
        _ h

  build_buffers_drained :
      (names : List Text)
      → IsQuiet
      → (buffers : Buffers)
      → ((name : Text) (lines : List Text) → Dict.lookup name buffers ≡ some lines → lines ≡ [])
      → ((name : Text) (lines : List Text)
          → Dict.lookup name (build_buffers sut names buffers) ≡ some lines
          → lines ≡ [])
  unfolding build_buffers write_all
  build_buffers_drained [] quiet buffers v = v
  build_buffers_drained (n ∷ names) quiet buffers v = rw (quiet n) (
      build_buffers_drained names quiet (Dict.insert n [] buffers)
        (λ name lines h. ground (arith, lookup-insert name n [] buffers, v name lines)))

  -- A new executor's buffers are empty.
  pub new_executor-IsDrained : (names : List Text) → IsQuiet → IsDrained (new_executor sut names)
  unfolding new_executor build_topology
  new_executor-IsDrained names quiet =
      build_buffers_drained names quiet []
        (λ name lines h. ground (arith, Dict.lookup-nil {V = List Text} name))
