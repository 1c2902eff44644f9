-- ===== src/EventLoop/Drained.antt =====
-- The log lines of the reactors between two envelopes: `Buffers` and `DumpReactorLoglines` of
-- src/executor-event-loop/executor.go.
pub mod Envelopes
use mathlib.Core.Path.{subst}
use detsys_testkit.Base.{
  ℕ, ◌≡◌, ◌≢◌, refl, arith, none, some, List, [], ◌∷◌, ◌++◌, Result, ok, err, panic, exit, ◌>>=◌,
  >>=-eq-ok, text_eq, some_or_panic, Option, Option-cases, inl, inr, sym, ◌∙◌, ok-inj,
}
use detsys_testkit.Base.Text.{Text}
use detsys_testkit.Base.Dict
use detsys_testkit.Base.Dict.{lookup-insert, lookup-insert_self}
use detsys_testkit.Events.{Time, OutEvent}
use detsys_testkit.Topology
use detsys_testkit.Topology.Deterministic.{reactor-insert}
use detsys_testkit.EventLoop.Executor.{
  Sut, Executor, Method, ReactorStepInfo, write_all, dump, call, logged,
}

-- Every buffer is empty.
abbrev pub IsDrained : {S : Type 0} → Executor S → Type 0
IsDrained ex =
    (name : Text) (lines : List Text) → Dict.lookup name ex.buffers ≡ some lines → lines ≡ []

module _ {S Raw Req Msg Resp : Type 0} (sut : Sut S Raw Req Msg Resp) where
  logged_lem :
      (ex : Executor S) (name : Text) (lines : List Text) {lw : List Text}
      → Dict.lookup name ex.buffers ≡ some lw
      → logged sut ex name lines
        ≡ record ex { buffers = Dict.insert name (write_all lw lines) ex.buffers }
  unfolding logged
  logged_lem ex name lines b = rw (b, logged) refl

  dump_lem :
      (ex : Executor S) (name : Text) {lines : List Text}
      → Dict.lookup name ex.buffers ≡ some lines
      → dump sut ex name ≡ ok (record ex { buffers = Dict.insert name [] ex.buffers }, lines)
  unfolding dump
  dump_lem ex name b = rw (b, dump) refl

  pub dump_missing :
      (ex : Executor S) (name : Text) (lines : List Text) (topology : Topology.Topology S)
      → Dict.lookup name ex.buffers ≡ none
      → dump sut (record (logged sut ex name lines) { topology = topology }) name ≡ panic
  unfolding dump logged
  dump_missing ex name lines topology b = rw (b, logged, dump) (rw (b, dump) refl)

  pub dump_found :
      (ex : Executor S) (name : Text) (lines : List Text) (topology : Topology.Topology S)
      {lw : List Text}
      → Dict.lookup name ex.buffers ≡ some lw
      → dump sut (record (logged sut ex name lines) { topology = topology }) name
        ≡ ok (
          record ex {
            buffers = Dict.insert name [] (Dict.insert name (write_all lw lines) ex.buffers);
            topology = topology;
          },
          write_all lw lines,
        )
  dump_found ex name lines topology {lw} b =
      let buffers = Dict.insert name (write_all lw lines) ex.buffers in
      rw (logged_lem ex name lines b) (
        dump_lem (record ex { buffers = buffers; topology = topology }) name
          (lookup-insert_self name (write_all lw lines) ex.buffers))

  -- The executor after a call: the reactor's new state, and its buffer written and dumped.
  abbrev called : Executor S → Text → S → List Text → Executor S
  called ex name after lines = record ex {
    buffers = Dict.insert name [] (Dict.insert name (write_all [] lines) ex.buffers);
    topology = Topology.insert ex.topology name after;
  }

  -- A call on a reactor of the topology whose buffer is empty gives the events of the method and
  -- exactly the lines that this call wrote, keeps the new state, and leaves the buffer empty.
  pub call_lem :
      (ex : Executor S) (name : Text) (at : Time) (method : S → Method S Resp Msg)
      {before after : S} {lines : List Text} {oevs : List (OutEvent Resp Msg)}
      → Topology.reactor ex.topology name ≡ ok before
      → method before ≡ ok (after, lines, oevs)
      → Dict.lookup name ex.buffers ≡ some []
      → call sut ex name at method
        ≡ ok (
          called ex name after lines,
          oevs,
          record {
            simulated_time = at;
            log_lines = write_all [] lines;
            state_diff = sut.heap_diff before after;
          },
        )
  unfolding call
  call_lem ex name at method {after = after} {lines = lines} r m b =
      rw (r)
        (rw (m) (rw (dump_found ex name lines (Topology.insert ex.topology name after) b) refl))

  -- Dumping a buffer empties it, and only that buffer was written to.
  dump-IsDrained :
      (ex : Executor S) (name : Text) (lines : List Text) (topology : Topology.Topology S)
      {d : Executor S × List Text}
      → IsDrained ex
      → dump sut (record (logged sut ex name lines) { topology = topology }) name ≡ ok d
      → IsDrained d.0
  dump-IsDrained ex name lines topology v h = elim (Option-cases (Dict.lookup name ex.buffers)) [
    | inl b ↦ (let e = dump_missing ex name lines topology b in cc)
    | inr (lw, b) ↦
        subst (λ r. IsDrained r.0) (ok-inj (sym (dump_found ex name lines topology b) ∙ h))
          (λ other ls e. ground (
            arith,
            v other ls,
            lookup-insert other name [] (Dict.insert name (write_all lw lines) ex.buffers),
            lookup-insert other name (write_all lw lines) ex.buffers,
          ))
  ]

  -- A call leaves every buffer empty, if it found them so.
  pub call-IsDrained :
      (ex : Executor S) (name : Text) (at : Time) (method : S → Method S Resp Msg)
      {ex' : Executor S} {oevs : List (OutEvent Resp Msg)} {info : ReactorStepInfo Raw}
      → IsDrained ex
      → call sut ex name at method ≡ ok (ex', oevs, info)
      → IsDrained ex'
  unfolding call
  call-IsDrained ex name at method v h =
      let (before, r, h1) = >>=-eq-ok (Topology.reactor ex.topology name) (λ _. _) h in
      let ((after, lines, oevs), m, h2) = >>=-eq-ok (method before) (λ _. _) h1 in
      let (d, e, h3) =
        >>=-eq-ok
          (dump sut
            (record (logged sut ex name lines) {
              topology = Topology.insert ex.topology name after;
            })
            name)
          (λ _. _) h2 in
      subst (λ r. IsDrained r.0) (ok-inj h3)
        (dump-IsDrained ex name lines (Topology.insert ex.topology name after) v e)
