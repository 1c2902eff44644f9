-- ===== src/EventLoop/Loop.antt =====
-- The loop over admin commands and envelopes: src/executor-event-loop/eventloop.go, with log.go,
-- admin.go and the envelopes of envelope.go. `select` picks one input at a time: a run is the sequence
-- of inputs in the order in which they are picked. The wall clock of a log entry is left out.
use detsys_testkit.Base.{
  ℕ, Bool, true, false, ◌&&◌, List, [], ◌∷◌, ◌++◌, ◌==◌, text_eq, if◌then◌else◌, Result, ok, panic,
  ◌>>=◌,
}
use detsys_testkit.Base.Text.{Text, text}
use detsys_testkit.EventLoop.Clock.{LogicalTime, incr, merge}
use detsys_testkit.EventLoop.Executor.{Sut, Executor, Message, process_envelope, reset}

pub record LocalRef : Type 0 where
  pub index : ℕ

pub record RemoteRef : Type 0 where
  pub address : Text
  pub index : ℕ

unfoldable pub to_local : RemoteRef → LocalRef
to_local r = record { index = r.index }

pub data EnvelopeKind : Type 0 where
  request response : EnvelopeKind

unfoldable pub to_string : EnvelopeKind → Text
to_string request = text "RequestKind"
to_string response = text "ResponseKind"

-- A name that is no kind is the zero kind, as a missing key of the map is.
unfoldable pub from_string : Text → EnvelopeKind
unfolding text_eq
from_string kind = if kind == text "ResponseKind" then response else request

pub record Envelope (Raw : Type 0) : Type 0 where
  pub kind : EnvelopeKind
  pub sender : RemoteRef
  pub message : Message Raw
  pub receiver : RemoteRef
  pub correlation_id : ℕ
  pub logical_time : LogicalTime

pub data LogDirection : Type 0 where
  log_send log_resume_continuation : LogDirection

pub record LogEntry (Raw : Type 0) : Type 0 where
  pub local_ref : LocalRef
  pub remote_ref : RemoteRef
  pub message : Message Raw
  pub direction : LogDirection
  pub logical_time : LogicalTime

pub data AdminCommandType : Type 0 where
  admin_quit admin_dump_log admin_reset_log admin_reset_reactors admin_unknown : AdminCommandType

unfoldable pub parse_command : Text → AdminCommandType
unfolding text_eq
parse_command command =
    if command == text "AdminQuit"
    then admin_quit
    else if command == text "AdminDumpLog"
    then admin_dump_log
    else if command == text "AdminResetLog"
    then admin_reset_log
    else if command == text "AdminResetReactors"
    then admin_reset_reactors
    else admin_unknown

pub record EventLoop (S Raw : Type 0) : Type 0 where
  pub log : List (LogEntry Raw)
  pub logical_time : LogicalTime
  pub executor : Executor S
  pub scheduler_ref : RemoteRef

-- What the loop hears, and what it does in answer: a text, the log, or an envelope that is sent.
pub data Input (Raw : Type 0) : Type 0 where
  command : AdminCommandType → Input Raw
  envelope : Envelope Raw → Input Raw

pub data Output (Raw : Type 0) : Type 0 where
  said : Text → Output Raw
  dumped : List (LogEntry Raw) → Output Raw
  sent : Envelope Raw → Output Raw

unfoldable pub new_event_loop : {S Raw : Type 0} → Executor S → EventLoop S Raw
new_event_loop executor = record {
  log = [];
  logical_time = 0;
  executor = executor;
  scheduler_ref = record { address = text "scheduler"; index = 0 };
}

module _ {S Raw : Type 0} where
  unfoldable pub add_to_log :
      EventLoop S Raw → LogDirection → LocalRef → Message Raw → EventLoop S Raw
  add_to_log el direction me message = record el {
    log =
        el.log
        ++ record {
          local_ref = me;
          remote_ref = el.scheduler_ref;
          message = message;
          direction = direction;
          logical_time = el.logical_time;
        }
          ∷ [];
  }

  unfoldable pub to_scheduler_envelope :
      EventLoop S Raw → RemoteRef → Message Raw → ℕ → Envelope Raw
  to_scheduler_envelope el me message correlation_id = record {
    kind = response;
    sender = me;
    message = message;
    receiver = el.scheduler_ref;
    correlation_id = correlation_id;
    logical_time = el.logical_time;
  }

  -- Whether `json.Marshal` accepts the log: an error is that of a raw message in it.
  unfoldable pub all_json :
      {Req Msg Resp : Type 0} → Sut S Raw Req Msg Resp → List (LogEntry Raw) → Bool
  all_json sut [] = true
  all_json sut (entry ∷ log) = sut.is_json entry.message.message && all_json sut log

  -- `processAdmin`: the loop after it, the answer, and whether to quit.
  unfoldable pub process_admin :
      {Req Msg Resp : Type 0}
      → Sut S Raw Req Msg Resp
      → EventLoop S Raw
      → AdminCommandType
      → Result (EventLoop S Raw × Output Raw × Bool)
  unfolding reset all_json
  process_admin sut el admin_quit = ok (el, said (text "ok\n"), true)
  process_admin sut el admin_dump_log =
      if all_json sut el.log then ok (el, dumped el.log, false) else panic
  process_admin sut el admin_reset_log =
      ok (record el { log = []; logical_time = 0 }, said (text "Log reseted\n"), false)
  process_admin sut el admin_reset_reactors =
      ok (record el { executor = reset sut el.executor }, said (text "Reactors restarted\n"), false)
  process_admin sut el admin_unknown = panic

module _ {S Raw Req Msg Resp : Type 0} (sut : Sut S Raw Req Msg Resp) where
  -- The case of an envelope in `Run`.
  unfoldable pub handle_envelope :
      EventLoop S Raw → Envelope Raw → Result (EventLoop S Raw × Output Raw)
  unfolding to_local merge incr add_to_log to_scheduler_envelope process_envelope
  handle_envelope el env =
      let me : LocalRef = to_local env.receiver in
      let merged : EventLoop S Raw = record el {
        logical_time = merge el.logical_time env.logical_time;
      } in
      let resumed : EventLoop S Raw = add_to_log merged log_resume_continuation me env.message in
      process_envelope sut resumed.executor env.message env.correlation_id
      >>= λ (executor, outgoing, rui).
          let ticked : EventLoop S Raw = record resumed {
            executor = executor;
            logical_time = incr resumed.logical_time;
          } in
          ok (
            add_to_log ticked log_send me outgoing,
            sent (to_scheduler_envelope ticked env.receiver outgoing env.correlation_id),
          )

  -- One round of `Run`.
  unfoldable pub step : EventLoop S Raw → Input Raw → Result (EventLoop S Raw × Output Raw × Bool)
  unfolding handle_envelope process_admin incr
  step el (command cmd) = process_admin sut (record el { logical_time = incr el.logical_time }) cmd
  step el (envelope env) = handle_envelope el env >>= λ (el', out). ok (el', out, false)

  -- `Run`, until the inputs end or a command quits: what is left, and everything that went out.
  unfoldable pub run :
      EventLoop S Raw → List (Input Raw) → Result (EventLoop S Raw × List (Output Raw))
  unfolding step
  run el [] = ok (el, [])
  run el (i ∷ inputs) = step el i >>= λ (el', out, quit).
      let rest = run el' inputs in
      if quit then ok (el', out ∷ []) else (rest >>= λ (last, outs). ok (last, out ∷ outs))
