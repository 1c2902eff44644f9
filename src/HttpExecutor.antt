-- ===== src/HttpExecutor.antt =====
-- The executor behind HTTP: src/executor/executor.go and event.go, over the same reactors as the executor of
-- the event loop. JSON, `strconv.Atoi` and the system under test are the record `Server`; the data base,
-- which answers, is the list of the steps that were stored. A panic ends the request.
pub mod Agreement
use detsys_testkit.Base.{
  ℕ, ◌-◌, Bool, true, false, not, List, [], ◌∷◌, ◌++◌, Option, none, some, ◌==◌, text_eq, length,
  if◌then◌else◌, Result, ok, err, panic, ◌>>=◌, or_panic, some_or_panic,
}
use detsys_testkit.Base.Dict
use detsys_testkit.Base.Dict.{Dict}
use detsys_testkit.Base.Text.{Text, text}
use detsys_testkit.Debugger.Repeat.{ℤ, negsuc, take}
use detsys_testkit.Events.{Time, OutEvent}
use detsys_testkit.Topology
use detsys_testkit.Topology.{Topology}
use detsys_testkit.Scheduled.{
  SchedulerEvent, MetaInfo, unmarshal_scheduled_event, out_events_to_events,
}
use detsys_testkit.EventLoop.Executor.{Sut, Method, Buffers}

pub record TickRequest : Type 0 where
  pub reactor : Text
  pub at : Time

pub record TimerRequest : Type 0 where
  pub reactor : Text
  pub at : Time
  pub meta : MetaInfo

pub record Server (S Raw Req Msg Resp : Type 0) : Type 0 where
  pub sut : Sut S Raw Req Msg Resp
  pub tick : S → Time → Method S Resp Msg
  pub tick_request : Raw → Result TickRequest
  pub timer_request : Raw → Result TimerRequest
  pub atoi : Text → Option ℤ

-- A request: its body is none when it cannot be read, or is longer than 1048576 bytes.
pub record Request (Raw : Type 0) : Type 0 where
  pub method : Text
  pub body : Option Raw
  pub correlation_id : Text

-- An answer: 404, or 200 with what is encoded as JSON.
pub data Answer (Resp Msg : Type 0) : Type 0 where
  not_found : Answer Resp Msg
  events : List (SchedulerEvent Resp Msg) → ℤ → Answer Resp Msg
  inits : List (SchedulerEvent Resp Msg) → Answer Resp Msg

pub record ExecutionStepEvent (Raw : Type 0) : Type 0 where
  pub meta : MetaInfo
  pub reactor : Text
  pub simulated_time : Time
  pub log_lines : List Text
  pub heap_diff : Raw

-- `LogWriter.Write`, which keeps a copy of the line without its last byte.
unfoldable pub write : List Text → Text → List Text
write current [] = current
write current (b ∷ p) = current ++ take (length (b ∷ p) - 1) (b ∷ p) ∷ []

unfoldable pub write_all : List Text → List Text → List Text
unfolding write
write_all current [] = current
write_all current (p ∷ ps) = write_all (write current p) ps

pub record Executor (S Raw : Type 0) : Type 0 where
  pub topology : Topology S
  pub buffers : Buffers
  pub steps : List (ExecutionStepEvent Raw)

-- `-1`
abbrev pub minus_one : ℤ
minus_one = negsuc 0

module _ {S Raw Req Msg Resp : Type 0} (server : Server S Raw Req Msg Resp) where
  -- The loop of `NewExecutor`.
  unfoldable pub construct : List Text → Executor S Raw → Executor S Raw
  unfolding Topology.insert write_all text_eq
  construct [] e = e
  construct (name ∷ names) e =
      let (reactor, lines) = server.sut.build name in
      construct names (record e {
        topology = Topology.insert e.topology name reactor;
        buffers = Dict.insert name (write_all [] lines) e.buffers;
      })

  -- `NewExecutor`
  unfoldable pub new_executor : List Text → Executor S Raw
  unfolding construct Topology.new_topology
  new_executor names =
      construct names (record { topology = Topology.new_topology []; buffers = []; steps = [] })

  -- `Reset`: new reactors, which are given the buffers that there are.
  unfoldable pub reset_all : Buffers → Topology S → Buffers × Topology S
  unfolding Topology.insert write_all text_eq
  reset_all [] topology = ([], topology)
  reset_all ((name, current) ∷ buffers) topology =
      let (reactor, lines) = server.sut.build name in
      let (later, last) = reset_all buffers (Topology.insert topology name reactor) in
      ((name, write_all current lines) ∷ later, last)

  unfoldable pub reset : Executor S Raw → Executor S Raw
  unfolding reset_all
  reset e =
      let (buffers, topology) = reset_all e.buffers e.topology in
      record e { buffers = buffers; topology = topology }

  -- What `Deploy` gives as `ComponentUpdate`: the lines of the buffer, which is emptied.
  unfoldable pub component_update : Executor S Raw → Text → Result (Executor S Raw × List Text)
  unfolding text_eq
  component_update e name = elim (Dict.lookup name e.buffers) [
    | none ↦ panic
    | some lines ↦ ok (record e { buffers = Dict.insert name [] e.buffers }, lines)
  ]

  -- A reactor's method: its state is kept, and what it writes goes to its buffer, if it has one.
  unfoldable pub invoke :
      Executor S Raw
      → Text
      → (S → Method S Resp Msg)
      → Result (Executor S Raw × List (OutEvent Resp Msg) × Raw)
  unfolding Topology.reactor Topology.insert write_all text_eq
  invoke e name method = Topology.reactor e.topology name >>= λ before.
      method before >>= λ (after, lines, oevs). ok (
        record e {
          topology = Topology.insert e.topology name after;
          buffers = elim (Dict.lookup name e.buffers) [
            | none ↦ e.buffers
            | some current ↦ Dict.insert name (write_all current lines) e.buffers
          ];
        },
        oevs,
        server.sut.heap_diff before after,
      )

  -- `EmitExecutionStepEvent`
  unfoldable pub emit : Executor S Raw → ExecutionStepEvent Raw → Executor S Raw
  emit e step = record e { steps = e.steps ++ step ∷ [] }

  -- The correlation id of the answer.
  abbrev pub corr_id : Request Raw → ℤ
  corr_id r = elim (server.atoi r.correlation_id) [ none ↦ minus_one | some n ↦ n ]

  abbrev pub convert : Text → List (OutEvent Resp Msg) → List (SchedulerEvent Resp Msg)
  unfolding out_events_to_events
  convert = out_events_to_events server.sut.response_event server.sut.message_event

  -- `handler`
  unfoldable pub handle_event :
      Executor S Raw → Request Raw → Result (Executor S Raw × Answer Resp Msg)
  unfolding invoke component_update emit convert unmarshal_scheduled_event text_eq
  handle_event e r =
      if not (r.method == text "POST")
      then ok (e, not_found)
      else (some_or_panic r.body >>= λ body.
          or_panic (
            server.sut.scheduled_fields body
            >>= unmarshal_scheduled_event server.sut.marshaler server.sut.parse_time)
          >>= λ sev.
              invoke e sev.to (λ s. server.sut.receive s sev.at sev.from sev.event)
              >>= λ (e1, oevs, diff). component_update e1 sev.to >>= λ (e2, lines). ok (
                emit e2 (record {
                  meta = sev.meta;
                  reactor = sev.to;
                  simulated_time = sev.at;
                  log_lines = lines;
                  heap_diff = diff;
                }),
                events (convert sev.to oevs) (corr_id r),
              ))

  -- `handleTick`, which stores no step and drops the log lines.
  unfoldable pub handle_tick :
      Executor S Raw → Request Raw → Result (Executor S Raw × Answer Resp Msg)
  unfolding invoke component_update convert text_eq
  handle_tick e r =
      if not (r.method == text "PUT")
      then ok (e, not_found)
      else (some_or_panic r.body >>= λ body. or_panic (server.tick_request body) >>= λ req.
          invoke e req.reactor (λ s. server.tick s req.at) >>= λ (e1, oevs, diff).
          component_update e1 req.reactor >>= λ (e2, lines).
          ok (e2, events (convert req.reactor oevs) minus_one))

  -- `handleTimer`
  unfoldable pub handle_timer :
      Executor S Raw → Request Raw → Result (Executor S Raw × Answer Resp Msg)
  unfolding invoke component_update emit convert text_eq
  handle_timer e r =
      if not (r.method == text "POST")
      then ok (e, not_found)
      else (some_or_panic r.body >>= λ body. or_panic (server.timer_request body) >>= λ req.
          invoke e req.reactor (λ s. server.sut.timer s req.at) >>= λ (e1, oevs, diff).
          component_update e1 req.reactor >>= λ (e2, lines). ok (
            emit e2 (record {
              meta = req.meta;
              reactor = req.reactor;
              simulated_time = req.at;
              log_lines = lines;
              heap_diff = diff;
            }),
            events (convert req.reactor oevs) (corr_id r),
          ))

  -- The loop of `handleInits`, over the names in order; the buffers are not read.
  unfoldable pub init_all :
      Executor S Raw → List Text → Result (Executor S Raw × List (SchedulerEvent Resp Msg))
  unfolding invoke convert
  init_all e [] = ok (e, [])
  init_all e (name ∷ names) = invoke e name server.sut.init >>= λ (e1, oevs, diff).
      init_all e1 names >>= λ (last, rest). ok (last, convert name oevs ++ rest)

  -- `handleInits`
  unfoldable pub handle_inits :
      Executor S Raw → Request Raw → Result (Executor S Raw × Answer Resp Msg)
  unfolding init_all Topology.reactors text_eq
  handle_inits e r =
      if not (r.method == text "GET")
      then ok (e, not_found)
      else (init_all e (Topology.reactors e.topology) >>= λ (last, all). ok (last, inits all))
