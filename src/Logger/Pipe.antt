-- ===== src/Logger/Pipe.antt =====
-- The read-only pipe on which src/logger/lib.go serves the logger, and its worker: what is read up to the
-- end of the file is cut into lines, each line becomes a message, and the reactor and the worker take
-- turns on the queue. `strings.ToLower` and `strings.TrimSpace` are parameters.
pub mod Requests
pub mod Messages
pub mod Progress
pub mod Steps
pub mod Served
use detsys_testkit.Base.{
  ℕ, zero, suc, Bool, List, [], ◌∷◌, ◌++◌, Option, none, some, ◌==◌, nat_eq, text_eq, if◌then◌else◌,
  Result, ok, panic, ◌>>=◌, or_panic,
}
use detsys_testkit.Base.Text.{Text, text, split}
use detsys_testkit.Base.Decimal.{decimal}
use detsys_testkit.Events.{Time, internal_message}
use detsys_testkit.Logger.{
  Logger, Worker, Row, Message, log, index, Handled, waits, done, three_parts, receive, work, init,
  new_worker, get_highest_index,
}

-- What stands before the first separator, and what stands after it.
unfoldable pub cut : ℕ → Text → Text × Option Text
unfolding nat_eq
cut sep [] = ([], none)
cut sep (b ∷ s) =
    let (before, after) = cut sep s in if b == sep then ([], some s) else (b ∷ before, after)

-- `bytes.SplitN(s, sep, n)`: the last of at most `n` parts is the rest, with its separators.
unfoldable pub split_n : ℕ → ℕ → Text → List Text
unfolding cut
split_n sep zero s = []
split_n sep (suc zero) s = s ∷ []
split_n sep (suc (suc n)) s = elim ((cut sep s).1) [
  | none ↦ (cut sep s).0 ∷ []
  | some after ↦ (cut sep s).0 ∷ split_n sep (suc n) after
]

-- `parseLine`
unfoldable pub parse_line : Text → Result Row
unfolding three_parts split_n
parse_line line = three_parts (split_n 9 3 line)

-- `parseFrom`
unfoldable pub parse_from : Text → Text
parse_from meta = meta

-- Every part but the last one ended with a newline, which is kept.
unfoldable pub terminate : List Text → List Text
terminate [] = []
terminate (part ∷ []) = []
terminate (part ∷ next ∷ parts) = (part ++ 10 ∷ []) ∷ terminate (next ∷ parts)

-- The lines that `r.ReadBytes('\n')` gives up to the end of the file; a last line without its newline
-- comes with an error, and is dropped.
unfoldable pub read_lines : Text → List Text
unfolding terminate split nat_eq
read_lines s = terminate (split 10 s)

-- What `writeIndex` prints.
unfoldable pub index_line : ℕ → Text
unfolding decimal
index_line n = decimal n ++ 10 ∷ []

-- The lines that are not read yet, the reactor, the worker, and the indexes written to the pipes.
pub record System : Type 0 where
  pub unread : List Text
  pub logger : Logger
  pub worker : Worker
  pub written : List (Text × ℕ)

-- What `DeployReadOnlyPipe` begins with: nothing is in the queue or the buffer.
unfoldable pub opened : ℕ → List Row → Text → System
unfolding init new_worker read_lines
opened highest before s = record {
  unread = read_lines s;
  logger = init highest;
  worker = new_worker before;
  written = [];
}

-- `main` of the logger's program: `Init`, which sends nothing, and then the pipe.
unfoldable pub main : List Row → Text → Result System
unfolding get_highest_index opened
main before s = get_highest_index before >>= λ highest. ok (opened highest before s)

-- Who makes the next step: the reader of the pipe at a time, or the worker, whose `dequeue` may be late.
pub data Turn : Type 0 where
  reader : Time → Turn
  worker : Bool → Turn

module _ (to_lower trim_space : Text → Text) where
  -- `Marshaler.UnmarshalMessage`
  unfoldable pub unmarshal_message : Text → Text → Result Message
  unfolding text_eq
  unmarshal_message message raw =
      if to_lower message == text "log"
      then ok (log raw)
      else if to_lower message == text "index"
      then ok (index (trim_space raw))
      else panic

  -- The body of the loop of `DeployReadOnlyPipe`, with the logger as its reactor.
  unfoldable pub handle_line : Logger → Time → Text → Result Handled
  unfolding parse_from
  handle_line l at line = parse_line line >>= λ (event, meta, rest).
      or_panic (unmarshal_message event rest) >>= λ msg.
      receive l at (parse_from meta) (internal_message msg)

  handled : System → List Text → Handled → System
  handled s rest waits = s
  handled s rest (done l out) = record s { unread = rest; logger = l; written = s.written ++ out }

  -- The reader takes the next line. While the queue is full it waits, with the line in its hands.
  unfoldable pub read_turn : Time → System → Result System
  unfolding handled handle_line
  read_turn at s = elim s.unread [
    | [] ↦ ok s
    | line ∷ rest ↦ handle_line s.logger at line >>= λ h. ok (handled s rest h)
  ]

  -- The worker makes one round of its loop, unless it blocks on the empty queue.
  unfoldable pub work_turn : Bool → System → Result System
  unfolding work
  work_turn late s = work late Bool.true s.logger.queue s.worker >>= λ r. elim r [
    | none ↦ ok s
    | some (queue, w) ↦ ok (record s { logger = record s.logger { queue = queue }; worker = w })
  ]

  unfoldable pub turn : Turn → System → Result System
  unfolding read_turn work_turn
  turn (reader at) s = read_turn at s
  turn (worker late) s = work_turn late s

  unfoldable pub run : List Turn → System → Result System
  unfolding turn
  run [] s = ok s
  run (t ∷ ts) s = turn t s >>= λ s'. run ts s'
