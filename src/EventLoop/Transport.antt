-- ===== src/EventLoop/Transport.antt =====
-- The sockets of src/executor-event-loop: admin.go and communication.go, and the JSON of envelopes and log
-- entries as far as it is written there (envelope.go, log.go). What a connection carries is one text; what comes
-- out of the channel is a list. A socket that cannot be opened panics, and is left out.
pub mod Survives
use detsys_testkit.Base.{
  ℕ, Bool, true, false, List, [], ◌∷◌, ◌++◌, Option, none, some, ltb, length, ◌==◌, nat_eq, text_eq,
  if◌then◌else◌, Result, ok, err, panic, exit, ◌>>=◌, or_panic,
}
use detsys_testkit.Base.Text.{Text, text, split}
use detsys_testkit.EventLoop.Executor.{Message}
use detsys_testkit.EventLoop.Loop.{
  LocalRef, RemoteRef, EnvelopeKind, to_string, from_string, Envelope, LogEntry, LogDirection,
  log_send, log_resume_continuation, AdminCommandType, admin_quit, admin_dump_log, admin_reset_log,
  admin_reset_reactors, admin_unknown, parse_command,
}

-- `bufio.ScanLines`: a carriage return at the end of a line is dropped.
drop_cr : Text → Text
unfolding nat_eq
drop_cr [] = []
drop_cr (b ∷ []) = if b == 13 then [] else b ∷ []
drop_cr (b ∷ c ∷ s) = b ∷ drop_cr (c ∷ s)

-- The tokens of a `bufio.Scanner`: a line that fills its buffer ends the scan, and the last line counts
-- if it is not empty.
scan : List Text → List Text
unfolding drop_cr
scan [] = []
scan ([] ∷ []) = []
scan (line ∷ lines) =
    let rest = scan lines in if ltb (length line) 65536 then drop_cr line ∷ rest else []

unfoldable pub scan_lines : Text → List Text
unfolding scan split nat_eq
scan_lines s = scan (split 10 s)

-- The test for an unknown command, which is only printed.
unfoldable pub known : AdminCommandType → Option AdminCommandType
known admin_unknown = none
known admin_quit = some admin_quit
known admin_dump_log = some admin_dump_log
known admin_reset_log = some admin_reset_log
known admin_reset_reactors = some admin_reset_reactors

-- The body of the loop of `AdminInterface.findIncoming`.
unfoldable pub admin_command : Text → Option AdminCommandType
unfolding parse_command known
admin_command [] = none
admin_command (b ∷ line) = known (parse_command (b ∷ line))

admin_commands : List Text → List AdminCommandType
unfolding admin_command
admin_commands [] = []
admin_commands (line ∷ lines) =
    let rest = admin_commands lines in
    elim (admin_command line) [ none ↦ rest | some command ↦ command ∷ rest ]

-- `AdminInterface.findIncoming` on one connection.
unfoldable pub find_commands : Text → List AdminCommandType
unfolding admin_commands scan_lines
find_commands s = admin_commands (scan_lines s)

-- `Listen` of both interfaces: whether it was started before, and whether it starts the reader now.
unfoldable pub listen : Bool → Bool × Bool
listen started = if started then (true, false) else (true, true)

-- The tag of a log entry.
unfoldable pub tag : LogDirection → Text
tag log_send = text "LogSend"
tag log_resume_continuation = text "LogResumeContinuation"

-- The struct that `LogEntry.MarshalJSON` encodes.
pub record EncodedEntry (Raw : Type 0) : Type 0 where
  pub local_ref : ℕ
  pub remote_ref : RemoteRef
  pub message : Message Raw
  pub tag : Text

unfoldable pub encode_entry : {Raw : Type 0} → LogEntry Raw → EncodedEntry Raw
unfolding tag
encode_entry entry = record {
  local_ref = entry.local_ref.index;
  remote_ref = entry.remote_ref;
  message = entry.message;
  tag = tag entry.direction;
}

module _ {Raw : Type 0} (unmarshal : Text → Result (Envelope Raw))
    (marshal : Envelope Raw → Option Text) where
  -- The loop of `CommandTransport.findIncoming`: the envelopes that were delivered, and whether it goes on.
  deliver : List Text → List (Envelope Raw) × Result (Unit {0})
  deliver [] = ([], ok tt)
  deliver ([] ∷ lines) = deliver lines
  deliver ((b ∷ line) ∷ lines) =
      let (later, ended) = deliver lines in
      elim (or_panic (unmarshal (b ∷ line))) [
        | ok env ↦ (env ∷ later, ended)
        | err ↦ ([], err)
        | panic ↦ ([], panic)
        | exit ↦ ([], exit)
      ]

  unfoldable pub find_envelopes : Text → List (Envelope Raw) × Result (Unit {0})
  unfolding deliver scan_lines
  find_envelopes s = deliver (scan_lines s)

  -- `CommandTransport.Send`: the socket, and what is written to it.
  unfoldable pub send : Envelope Raw → Result (Text × Text)
  send env = elim (marshal env) [
    | none ↦ panic
    | some j ↦ ok (text "/tmp/" ++ (env.receiver.address ++ text ".sock"), j)
  ]

-- The JSON strings of kinds.
module _ {Json : Type 0} (marshal_string : Text → Json)
    (unmarshal_string : Json → Result Text) where
  unfoldable pub marshal_kind : EnvelopeKind → Json
  unfolding to_string
  marshal_kind kind = marshal_string (to_string kind)

  unfoldable pub unmarshal_kind : Json → Result EnvelopeKind
  unfolding from_string
  unmarshal_kind json = unmarshal_string json >>= λ s. ok (from_string s)
