-- ===== src/HttpExecutor/Agreement.antt =====
-- The executor behind HTTP does what the executor of the event loop does.
use detsys_testkit.Base.{
  ℕ, ◌-◌, ◌≡◌, refl, ap, ◌∙◌, inl, inr, map, suc, List, [], ◌∷◌, ◌++◌, some, text_eq, arith, length,
  ok, ◌>>=◌, Option-cases, Result-cases,
}
use detsys_testkit.Base.Dict
use detsys_testkit.Base.Text.{Text, text}
use detsys_testkit.Debugger.Repeat.{ℤ, take}
use detsys_testkit.Events.{Time}
use detsys_testkit.Topology
use detsys_testkit.Topology.{Topology}
use detsys_testkit.Scheduled.{MetaInfo, unmarshal_scheduled_event}
use detsys_testkit.EventLoop.Executor.{
  Sut, Method, Processed, ReactorStepInfo, Message, dump, logged, call, process_event, drop_last,
}
use detsys_testkit.EventLoop.Executor
use detsys_testkit.EventLoop.Drained.{dump_missing, dump_found}
use detsys_testkit.HttpExecutor.{
  Server, Request, Answer, not_found, events, inits, ExecutionStepEvent, write, write_all,
  component_update, invoke, emit, corr_id, convert, handle_event,
}
use detsys_testkit.HttpExecutor

take-drop_last : (b : ℕ) (p : Text) → take (length (b ∷ p) - 1) (b ∷ p) ≡ drop_last (b ∷ p)
unfolding drop_last
take-drop_last b [] = refl
take-drop_last b (c ∷ p) =
    ap (λ n. take n (b ∷ c ∷ p))
      (let e : length (b ∷ c ∷ p) - 1 ≡ suc (length (c ∷ p) - 1) = omega arith in e)
    ∙ ap (λ t. b ∷ t) (take-drop_last c p)

write_same : (current : List Text) (p : Text) → write current p ≡ Executor.write current p
unfolding write Executor.write
write_same current [] = refl
write_same current (b ∷ p) = ap (λ line. current ++ line ∷ []) (take-drop_last b p)

write_all_same : (current ps : List Text) → write_all current ps ≡ Executor.write_all current ps
unfolding write_all Executor.write_all
write_all_same current [] = refl
write_all_same current (p ∷ ps) =
    ap (λ c. write_all c ps) (write_same current p) ∙ write_all_same (Executor.write current p) ps

module _ {S Raw Req Msg Resp : Type 0} (server : Server S Raw Req Msg Resp) where
  -- The executor of the event loop, behind HTTP.
  abbrev pub beside :
      Executor.Executor S → List (ExecutionStepEvent Raw) → HttpExecutor.Executor S Raw
  beside ex steps = record { topology = ex.topology; buffers = ex.buffers; steps = steps }

  -- What is left to tell of a run of either executor, which fails as the run does: the reactors, the buffers,
  -- the answer as the event loop encodes it, and what is known of the step.
  abbrev pub Told : Type 0
  Told = Topology S × Executor.Buffers × Message Raw × List (Text × Time × List Text × Raw)

  abbrev pub told_http : ℕ → HttpExecutor.Executor S Raw × Answer Resp Msg → Told
  told_http n (e, a) = (
    e.topology,
    e.buffers,
    record {
      kind = text "Events";
      message = elim a [
        | not_found ↦ server.sut.encode_events [] n
        | events evs c ↦ server.sut.encode_events evs n
        | inits evs ↦ server.sut.encode_events evs n
      ];
    },
    map
        (λ (step : ExecutionStepEvent Raw).
          (step.reactor, step.simulated_time, step.log_lines, step.heap_diff))
        e.steps,
  )

  abbrev pub told_loop : Executor.Processed server.sut → Told
  told_loop (ex, msg, update) = (
    ex.topology,
    ex.buffers,
    msg,
    map
        (λ (entry : Text × ReactorStepInfo Raw).
          (entry.0, entry.1.simulated_time, entry.1.log_lines, entry.1.state_diff))
        update,
  )

  after_call :
      (ex : Executor.Executor S) (name : Text) (at : Time) (meta : MetaInfo) (n : ℕ) (c : ℤ)
      (method : S → Method S Resp Msg)
      → ((invoke server (beside ex []) name method >>= λ (e1, oevs, diff).
            component_update server e1 name >>= λ (e2, lines). ok (
              emit server e2 (record {
                meta = meta;
                reactor = name;
                simulated_time = at;
                log_lines = lines;
                heap_diff = diff;
              }),
              events (convert server name oevs) c,
            ))
          >>= λ r. ok (told_http n r))
        ≡ ((call server.sut ex name at method >>= λ (ex', oevs, info). ok (
          ex',
          record {
            kind = text "Events";
            message = server.sut.encode_events (convert server name oevs) n;
          },
          (name, info) ∷ [],
        ))
            >>= λ r. ok (told_loop r))
  unfolding invoke call component_update emit Topology.reactor
  after_call ex name at meta n c method =
      elim (Option-cases (Dict.lookup name ex.topology.topology)) [
        | inl e ↦ rw (e) refl
        | inr (before, e) ↦ elim (Result-cases (method before)) [
          | inr (inl f) ↦ rw (e) (rw (f) refl)
          | inr (inr (inl f)) ↦ rw (e) (rw (f) refl)
          | inr (inr (inr f)) ↦ rw (e) (rw (f) refl)
          | inl ((after, lines, oevs), f) ↦ elim (Option-cases (Dict.lookup name ex.buffers)) [
            | inl b ↦ rw (e) (
                rw (f) (
                  rw (b) (
                    rw
                      (dump_missing server.sut ex name lines
                        (Topology.insert ex.topology name after) b)
                      (rw (b, component_update) refl))))
            | inr (lw, b) ↦ rw (e) (
                rw (f) (
                  rw (b) (
                    rw
                      (dump_found server.sut ex name lines (Topology.insert ex.topology name after)
                        b)
                      (rw
                        (
                          Dict.lookup-insert_self name (write_all lw lines) ex.buffers,
                          component_update,
                        )
                        (rw (write_all_same lw lines) refl)))))
          ]
        ]
      ]

  -- A POST to the event handler of the executor behind HTTP and the envelope with the same body in
  -- the executor of the event loop fail alike, or leave the same reactors and buffers, answer the
  -- same events, and tell the same reactor, time, log lines and difference of heaps.
  pub handle_event_lem :
      (ex : Executor.Executor S) (raw : Raw) (corr : Text) (n : ℕ)
      → (handle_event server
            (beside ex [])
            (record { method = text "POST"; body = some raw; correlation_id = corr })
          >>= λ r. ok (told_http n r))
        ≡ (process_event server.sut ex raw n >>= λ r. ok (told_loop r))
  unfolding handle_event process_event convert
  handle_event_lem ex raw corr n =
      elim (Result-cases (
        server.sut.scheduled_fields raw
        >>= unmarshal_scheduled_event server.sut.marshaler server.sut.parse_time)) [
          | inl (sev, e) ↦ rw (e) (
              after_call ex sev.to sev.at sev.meta n
                (corr_id server
                  (record { method = text "POST"; body = some raw; correlation_id = corr }))
                (λ s. server.sut.receive s sev.at sev.from sev.event))
          | inr (inl e) ↦ rw (e) refl
          | inr (inr (inl e)) ↦ rw (e) refl
          | inr (inr (inr e)) ↦ rw (e) refl
        ]
