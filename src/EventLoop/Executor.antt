-- ===== src/EventLoop/Executor.antt =====
-- src/executor-event-loop/executor.go and logwriter.go. Reactors are pointers in Go: here the topology
-- holds their states, and a call puts the new state back. What the program takes from elsewhere is
-- the record `Sut`: the system under test, the JSON codec, `time.Parse` and the difference of heaps.
use detsys_testkit.Base.{
  ℕ, Bool, List, [], ◌∷◌, ◌++◌, Option, none, some, ◌==◌, text_eq, ◌||◌, if◌then◌else◌, Result, ok,
  panic, ◌>>=◌, or_panic,
}
use detsys_testkit.Base.Dict
use detsys_testkit.Base.Dict.{Dict}
use detsys_testkit.Base.Text.{Text, text}
use detsys_testkit.Events.{Time, InEvent, OutEvent}
use detsys_testkit.Topology
use detsys_testkit.Topology.{Topology, Item}
use detsys_testkit.Scheduled.{
  Marshaler, Fields, SchedulerEvent, MetaInfo, unmarshal_scheduled_event, time_pico,
  out_events_to_events,
}

pub record TimerRequest : Type 0 where
  pub reactor : Text
  pub at : Text
  pub meta : MetaInfo

pub record FaultRequest : Type 0 where
  pub reactor : Text
  pub event : Text

-- A reactor's method gives its new state, what it wrote to its log and its events.
abbrev pub Method : Type 0 → Type 0 → Type 0 → Type 0
Method S Resp Msg = Result (S × List Text × List (OutEvent Resp Msg))

-- `build` is the constructor of reactors, with what it writes to the log buffer that it is given, and
-- `is_json` is whether `json.Marshal` accepts a raw message.
pub record Sut (S Raw Req Msg Resp : Type 0) : Type 0 where
  pub build : Text → S × List Text
  pub is_json : Raw → Bool
  pub receive : S → Time → Text → InEvent Req Msg → Method S Resp Msg
  pub timer : S → Time → Method S Resp Msg
  pub init : S → Method S Resp Msg
  pub marshaler : Marshaler Raw Req Msg
  pub response_event : Resp → Text
  pub message_event : Msg → Text
  pub scheduled_fields : Raw → Result (Fields marshaler)
  pub timer_request : Raw → Result TimerRequest
  pub fault_request : Raw → Result FaultRequest
  pub encode_events : List (SchedulerEvent Resp Msg) → ℕ → Raw
  pub parse_time : Text → Option Time
  pub heap_diff : S → S → Raw

abbrev pub Buffers : Type 0
Buffers = Dict Text (List Text)

unfoldable pub drop_last : Text → Text
drop_last [] = []
drop_last (b ∷ []) = []
drop_last (b ∷ c ∷ s) = b ∷ drop_last (c ∷ s)

-- `LogWriter.Write` keeps the line without its last byte.
unfoldable pub write : List Text → Text → List Text
unfolding drop_last
write lw [] = lw
write lw (b ∷ p) = lw ++ drop_last (b ∷ p) ∷ []

unfoldable pub write_all : List Text → List Text → List Text
unfolding write
write_all lw [] = lw
write_all lw (p ∷ ps) = write_all (write lw p) ps

pub record Message (Raw : Type 0) : Type 0 where
  pub kind : Text
  pub message : Raw

pub record ReactorStepInfo (Raw : Type 0) : Type 0 where
  pub simulated_time : Time
  pub log_lines : List Text
  pub state_diff : Raw

pub record Executor (S : Type 0) : Type 0 where
  pub reactors : List Text
  pub buffers : Buffers
  pub topology : Topology S

-- `time.Unix(0, 0)`, in nanoseconds since the zero `time.Time`.
abbrev pub unix_zero : Time
unix_zero = 62135596800000000000

module _ {S Raw Req Msg Resp : Type 0} (sut : Sut S Raw Req Msg Resp) where
  -- `buildTopology`
  build_items : List Text → List (Item S)
  build_items [] = []
  build_items (n ∷ names) = record { name = n; reactor = (sut.build n).0 } ∷ build_items names

  unfoldable pub build_buffers : List Text → Buffers → Buffers
  unfolding write_all
  build_buffers [] buffers = buffers
  build_buffers (n ∷ names) buffers =
      build_buffers names (Dict.insert n (write_all [] (sut.build n).1) buffers)

  unfoldable pub build_topology : List Text → Topology S × Buffers
  unfolding build_items build_buffers Dict.insert text_eq Topology.new_topology
  build_topology reactors =
      (Topology.new_topology (build_items reactors), build_buffers reactors [])

  unfoldable pub new_executor : List Text → Executor S
  unfolding build_topology
  new_executor reactors =
      let (topology, buffers) = build_topology reactors in
      record { reactors = reactors; buffers = buffers; topology = topology }

  -- The body of `Executor.Reset`, which works on the copy that the value receiver is.
  reset_copy : Executor S → Executor S
  unfolding build_topology
  reset_copy ex =
      let (topology, buffers) = build_topology ex.reactors in
      record ex { buffers = buffers; topology = topology }

  -- `Executor.Reset` as its caller sees it: the copy is dropped.
  unfoldable pub reset : Executor S → Executor S
  unfolding reset_copy
  reset ex = let dropped : Executor S = reset_copy ex in ex

  -- `DumpReactorLoglines` panics if there is no buffer of that name, and empties the buffer.
  unfoldable pub dump : Executor S → Text → Result (Executor S × List Text)
  dump ex name = elim (Dict.lookup name ex.buffers) [
    | none ↦ panic
    | some lines ↦ ok (record ex { buffers = Dict.insert name [] ex.buffers }, lines)
  ]

  abbrev pub Update : Type 0
  Update = Dict Text (ReactorStepInfo Raw)

  -- What a reactor writes goes to its buffer, if it has one.
  unfoldable pub logged : Executor S → Text → List Text → Executor S
  unfolding write_all
  logged ex name lines = elim (Dict.lookup name ex.buffers) [
    | none ↦ ex
    | some lw ↦ record ex { buffers = Dict.insert name (write_all lw lines) ex.buffers }
  ]

  -- The part that the cases `message`, `init` and `timer` share: call a method of the reactor, and
  -- collect the difference of its heaps and its log lines.
  unfoldable pub call :
      Executor S
      → Text
      → Time
      → (S → Method S Resp Msg)
      → Result (Executor S × List (OutEvent Resp Msg) × ReactorStepInfo Raw)
  unfolding dump logged Topology.reactor Topology.insert
  call ex name at method = Topology.reactor ex.topology name >>= λ before.
      method before >>= λ (after, lines, oevs).
      dump (record (logged ex name lines) { topology = Topology.insert ex.topology name after })
        name
      >>= λ (ex', log_lines). ok (
        ex',
        oevs,
        record {
          simulated_time = at;
          log_lines = log_lines;
          state_diff = sut.heap_diff before after;
        },
      )

  -- The reply to the scheduler.
  abbrev reply : List (SchedulerEvent Resp Msg) → ℕ → Message Raw
  reply events corr_id = record { kind = text "Events"; message = sut.encode_events events corr_id }

  abbrev pub Processed : Type 0
  Processed = Executor S × Message Raw × Update

  abbrev convert : Text → List (OutEvent Resp Msg) → List (SchedulerEvent Resp Msg)
  convert = out_events_to_events sut.response_event sut.message_event

  -- The cases "message" and "invoke".
  unfoldable pub process_event : Executor S → Raw → ℕ → Result Processed
  unfolding call unmarshal_scheduled_event out_events_to_events
  process_event ex raw corr_id =
      or_panic (sut.scheduled_fields raw >>= unmarshal_scheduled_event sut.marshaler sut.parse_time)
      >>= λ sev.
          call ex sev.to sev.at (λ s. sut.receive s sev.at sev.from sev.event)
          >>= λ (ex', oevs, info).
              ok (ex', reply (convert sev.to oevs) corr_id, (sev.to, info) ∷ [])

  -- The loop of the case "init", over the names in order.
  unfoldable pub init_all :
      Executor S
      → List Text
      → List (SchedulerEvent Resp Msg)
      → Update
      → Result (Executor S × List (SchedulerEvent Resp Msg) × Update)
  unfolding call out_events_to_events Dict.insert text_eq
  init_all ex [] inits rui = ok (ex, inits, rui)
  init_all ex (name ∷ names) inits rui = call ex name unix_zero sut.init >>= λ (ex', oevs, info).
      init_all ex' names (inits ++ convert name oevs) (Dict.insert name info rui)

  unfoldable pub process_init : Executor S → ℕ → Result Processed
  unfolding init_all Topology.reactors
  process_init ex corr_id =
      init_all ex (Topology.reactors ex.topology) [] [] >>= λ (ex', inits, rui).
      ok (ex', reply inits corr_id, rui)

  unfoldable pub process_timer : Executor S → Raw → ℕ → Result Processed
  unfolding call time_pico out_events_to_events
  process_timer ex raw corr_id = or_panic (sut.timer_request raw) >>= λ req.
      or_panic (time_pico sut.parse_time 0 req.at) >>= λ at.
      call ex req.reactor at (λ s. sut.timer s at) >>= λ (ex', oevs, info).
      ok (ex', reply (convert req.reactor oevs) corr_id, (req.reactor, info) ∷ [])

  -- `BuildReactor`, with the buffer of that name: without one, whatever is written is a panic.
  unfoldable pub rebuild : Executor S → Text → Result (Executor S)
  unfolding write_all Topology.insert text_eq
  rebuild ex name =
      let (reactor, lines) = sut.build name in
      let topology = Topology.insert ex.topology name reactor in
      elim (Dict.lookup name ex.buffers) [
        | some lw ↦ ok (record ex {
          buffers = Dict.insert name (write_all lw lines) ex.buffers;
          topology = topology;
        })
        | none ↦ elim (write_all [] lines) [
          | [] ↦ ok (record ex { topology = topology })
          | _ ∷ _ ↦ panic
        ]
      ]

  unfoldable pub process_fault : Executor S → Raw → ℕ → Result Processed
  unfolding rebuild text_eq
  process_fault ex raw corr_id = or_panic (sut.fault_request raw) >>= λ req.
      if req.event == text "restart"
      then (rebuild ex req.reactor >>= λ ex'. ok (ex', reply [] corr_id, []))
      else panic

  -- `processEnvelope`, from the message and the correlation id of the envelope.
  unfoldable pub process_envelope : Executor S → Message Raw → ℕ → Result Processed
  unfolding process_event process_init process_timer process_fault text_eq
  process_envelope ex msg corr_id =
      if msg.kind == text "message" || msg.kind == text "invoke"
      then process_event ex msg.message corr_id
      else if msg.kind == text "init"
      then process_init ex corr_id
      else if msg.kind == text "timer"
      then process_timer ex msg.message corr_id
      else if msg.kind == text "fault"
      then process_fault ex msg.message corr_id
      else panic
