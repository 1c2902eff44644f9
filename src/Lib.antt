-- ===== src/Lib.antt =====
-- A model of the Go part of detsys-testkit, a toolkit that tests distributed systems under a
-- deterministic scheduler: the systems under test, the library they share with the scheduler, the
-- executors that run them, and the debugger that shows what a run did.
--
-- The parts. A system under test is a set of reactors (`src/lib/lib.go`): state machines that answer
-- an event, or a timer, with events. A topology holds them by name (`src/lib/topology.go`). The
-- executor takes an envelope of the scheduler, decodes it (`src/lib/marshaler.go`), calls the reactor
-- it is for and sends back what the reactor answers (`src/executor-event-loop`). Faults come from the
-- fault injector and go to the scheduler (`src/lib/ldfi.go`, `src/lib/scheduler.go`). An older executor
-- takes the same events as HTTP requests (`src/executor`). The debugger reads the steps, the network trace
-- and the faults of a run from the data base, and draws them (`src/debugger`). The logger takes entries from a
-- pipe and stores them (`src/logger`). The command line (`src/cli`) starts and stops the scheduler and the
-- logger, and sends the scheduler its commands (`src/lib/scheduler.go`).
--
-- The files.
--   Base, Base/*            shared names: numbers, lists, Go maps, byte texts, results of a call
--   Events                  src/lib/lib.go: InEvent, Args, OutEvent, Set, Singleton
--   Topology                src/lib/topology.go: every operation
--   Scheduled               src/lib/marshaler.go, src/lib/time.go: UnmarshalScheduledEvent, parseClientId,
--                           unmarshal, TimePico.UnmarshalJSON, OutEventsToEvents
--   Faults                  src/lib/ldfi.go, src/lib/scheduler.go: Fault, toSchedulerFaults, Ldfi's arguments
--   Broadcast               src/sut/broadcast/broadcast.go: Node
--   Register/Messages       src/sut/register/messages.go, and what the front ends share
--   Register/Store          src/sut/register/register.go: Register
--   Register/FrontEnd, Register/Pending, Register/FrontEnd2, Register/FrontEnd3, Register/FrontEnd4
--                           src/sut/register/frontend1.go to frontend4.go
--   EventLoop/Clock         src/executor-event-loop/envelope.go: LogicalTime
--   EventLoop/Executor      src/executor-event-loop/executor.go, logwriter.go
--   EventLoop/Loop          src/executor-event-loop/eventloop.go, log.go, admin.go, envelope.go
--   EventLoop/Transport     src/executor-event-loop/admin.go, communication.go, log.go, envelope.go: what is made
--                           of the lines of a socket, Send, and the JSON of kinds and log entries
--   HttpExecutor            src/executor/executor.go, event.go: the handlers, NewExecutor, Reset, LogWriter
--   Debugger/Repeat         src/debugger/internal/sequence.go: WriteRepeat
--   Debugger/Sequence       the same file: boxSize, appendBoxes and the cells of each row
--   Debugger/Sequence/Diagram
--                           the same file: appendArrows, drawDiagram, DrawDiagram
--   Debugger/Trace          src/debugger/internal/debugger.go: the queries' rows, Heaps, GetCrashes
--   Debugger/Diagrams       the same file: SequenceDiagrams
--   Debugger/Application    src/debugger/cmd/detsys-debug/main.go: DebugApplication
--   Debugger/Application/Widgets
--                           the same file: the cells of the table of events, the keys and the arguments
--   Generator               src/lib/generator.go: GenerateTestFromTopologyAndAgenda; src/lib/util.go:
--                           DeploymentInfoForTest; src/executor/executor.go: topologyFromDeployment
--   Register/Deployed       src/sut/register/cmd/main.go, src/sut/register/executor/executorcmd.go: constructors
--   Register/Codec, Broadcast/Codec
--                           src/sut/register/marshaler.go, src/sut/broadcast/marshaler.go
--   Logger                  src/logger/lib.go: Logger and its worker
--   Logger/Pipe             src/logger/lib.go: DeployReadOnlyPipe and Marshaler, with the turns of the reader
--                           and the worker; src/logger/cmd/reactor_logger/main.go
--   Logger/TestClient       src/logger/cmd/test_client/main.go
--   Logger/OldLogger        src/logger/cmd/old_logger/main.go, src/logger/cmd/old_test_client/main.go
--   SchedulerClient         src/lib/scheduler.go, src/lib/util.go: the commands to the scheduler, Post, the ids
--   Cli                     src/cli/cmd/utils.go, scheduler.go, logger.go: up and down of the services
--   Cli/Commands            src/cli/cmd: the other commands
--   Cli/Db                  src/db/db.go, and the command to reset the data base of src/cli/cmd/db.go
--   Tests, Tests/*          the theorems at concrete inputs
-- A file under a component's name holds theorems about it.
--
-- The model. A method with a pointer receiver takes the state and returns it with its answer. A Go
-- call ends in a value, a returned error, a panic or `log.Fatal`: the four constructors of `Result`;
-- the texts of errors and of log lines are left out. Strings are lists of bytes. A Go `int` that
-- wraps, such as a session id or a logical time, is its 64-bit pattern, and the wrap-around is written
-- out; a number of a JSON object is rounded to a `float64` where the source reads it as one; counters that the
-- program only prints are natural numbers. A time is in nanoseconds since the
-- zero time. A map is an association list in the order in which `range` meets its keys, so that a
-- theorem about a permutation is one about Go's unspecified order. Interfaces that other packages
-- could implement have one more constructor for such values.
--
-- Loops are structural recursion over the slice or the map they range over. The endless loop of the
-- executor runs over the inputs that it picks, in their order. The worker of the logger is one round of
-- its loop, and the reactor and the worker interleave as the constructors of a relation; Logger/Draining
-- runs it on a number of rounds, and shows how many are enough. Logger/Pipe runs a given sequence of turns of
-- both; three rounds in which each has one turn are enough for each line, since a turn that is not idle takes
-- a line, moves an entry or empties the buffer. What the pipe holds up to the end of the file is one text.
--
-- Parameters. JSON texts are read and written by encoding/json: a decoder starts from the fields of
-- the object, and a raw field is of a type `Raw` that only the system's own `Marshaler` reads. The
-- record `Sut` of EventLoop/Executor holds what the executor takes from elsewhere: the constructor of
-- reactors, with what it logs, and their methods, that codec, whether a raw message is JSON, `time.Parse` and
-- the difference of two heaps; `Server` of
-- HttpExecutor adds the requests of its handlers, and `Remote` of SchedulerClient is the scheduler behind
-- HTTP with the JSON of its requests and answers. The debugger takes merge patches, the rows of its
-- queries and the height of its window as arguments. `strings.ToLower`, `strings.TrimSpace` and `strconv.Atoi`
-- are arguments, with what a theorem needs of them as its hypotheses; so are what other programs print and
-- whether they fail.
--
-- Diagrams. A builder's text is rows of glyphs, one for each character, with the colour tags of the
-- terminal library apart, since these take no place; names and messages are ASCII. What `WriteRepeat`
-- tests for overflow is then the number of glyphs, which is at most a third of the bytes: the bounds on
-- texts in the theorems leave room for that. Each piece of a row is written to a builder of its own and then
-- appended: while the whole text is shorter than 2^63, as any in memory is, that is the same. Its loop runs as many rounds as there are glyphs to write,
-- which is enough since a round writes at least one. The space that a builder reserves is left out.
--
-- Not modelled: opening pipes and sockets, starting and registering servers, the data base (a
-- table of the logger has the rows that were committed, a step of HttpExecutor is appended to
-- those stored; an error of the data base is a panic), the layout of the debugger's widgets, what
-- the command line prints and the names of its commands, the prototype of memory-mapped files
-- (system calls only), and the parts in other languages. The state that a server goes on with
-- after a handler has panicked is not modelled either.
pub mod Base
pub mod Events
pub mod Tests
pub mod Topology
pub mod Broadcast
pub mod Cli
pub mod SchedulerClient
pub mod Scheduled
pub mod Faults
pub mod Debugger
pub mod Generator
pub mod HttpExecutor
pub mod EventLoop
pub mod Logger
pub mod Register
