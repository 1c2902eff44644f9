-- ===== src/Logger.antt =====
-- The logger of src/logger/lib.go: a reactor that puts entries into a bounded queue, and a worker that
-- moves them into a buffer and commits the buffer to a table of the data base. What a round of the
-- worker meets is its argument: whether the time of `dequeue` runs out, and whether the data base answers.
pub mod Delivery
pub mod Draining
pub mod Pipe
pub mod TestClient
pub mod OldLogger
use detsys_testkit.Base.{
  ℕ, ◌+◌, ◌%◌, ◌^◌, Bool, List, [], ◌∷◌, ◌++◌, Option, none, some, ltb, leb, length, if◌then◌else◌,
  Result, ok, panic, ◌>>=◌, nat_eq,
}
use detsys_testkit.Base.Text.{Text, split}
use detsys_testkit.Events.{Time, InEvent, internal_message}

abbrev pub queue_size : ℕ
queue_size = 1024

abbrev pub buffer_len : ℕ
buffer_len = 512

-- The columns `event`, `meta` and `data` of the table.
abbrev pub Row : Type 0
Row = Text × Text × Text

-- A `uint64` index.
pub record Logger : Type 0 where
  pub queue : List Text
  pub index : ℕ

-- The buffer of the worker, and the rows that it has committed.
pub record Worker : Type 0 where
  pub buffer : List Text
  pub table : List Row

pub data Message : Type 0 where
  log : Text → Message
  index : Text → Message
  foreign_message : Text → Message

-- `Receive` waits while the queue is full. Otherwise it is done, with what it wrote to pipes.
pub data Handled : Type 0 where
  waits : Handled
  done : Logger → List (Text × ℕ) → Handled

unfoldable pub enqueue : List Text → Text → Option (List Text)
enqueue queue entry = if ltb (length queue) queue_size then some (queue ++ entry ∷ []) else none

-- `Logger.Receive`
unfoldable pub receive : Logger → Time → Text → InEvent (Unit {0}) Message → Result Handled
unfolding enqueue
receive l at from (internal_message (log entry)) = elim (enqueue l.queue entry) [
  | none ↦ ok waits
  | some queue ↦ ok (done (record { queue = queue; index = (l.index + 1) % 2 ^ 64 }) [])
]
receive l at from (internal_message (index component)) = ok (done l ((component, l.index) ∷ []))
receive l at from _ = panic

-- `Logger.Tick` and `Logger.Timer` send nothing.
unfoldable pub tick : Logger → Time → List (Text × ℕ)
tick l at = []

unfoldable pub timer : Logger → Time → List (Text × ℕ)
timer l at = []

-- `Logger.Init`, with the highest index of the table.
unfoldable pub init : ℕ → Logger
init highest = record { queue = []; index = highest }

-- `getHighestIndex`, where the rows are numbered from 1 on as they are inserted. The highest number of
-- an empty table is null, which `Scan` refuses to read as a `uint64`.
unfoldable pub get_highest_index : List Row → Result ℕ
get_highest_index [] = panic
get_highest_index (row ∷ table) = ok (length (row ∷ table))

-- `newBuffer`, with which the worker starts.
unfoldable pub new_worker : List Row → Worker
new_worker table = record { buffer = []; table = table }

three_parts : List Text → Result Row
three_parts (event ∷ meta ∷ rest ∷ []) = ok (event, meta, rest)
three_parts _ = panic

-- `parse`, at the tab characters.
unfoldable pub parse : Text → Result Row
unfolding three_parts split nat_eq
parse entry = three_parts (split 9 entry)

-- The loop of `commit`.
unfoldable pub parse_all : List Text → Result (List Row)
unfolding parse
parse_all [] = ok []
parse_all (entry ∷ buffer) = parse entry >>= λ row. parse_all buffer >>= λ rows. ok (row ∷ rows)

-- `commit` inserts all rows in one transaction.
unfoldable pub commit : Bool → List Row → List Text → Result (List Row)
unfolding parse_all
commit answers table buffer =
    if answers then (parse_all buffer >>= λ rows. ok (table ++ rows)) else panic

-- `dequeue`, with whether its time runs out first.
unfoldable pub dequeue : Bool → List Text → Option (Text × List Text)
dequeue late [] = none
dequeue late (entry ∷ queue) = if late then none else some (entry, queue)

-- A commit, after which the buffer is new.
unfoldable pub flush : Bool → List Text → Worker → Result (Option (List Text × Worker))
unfolding commit
flush answers queue w = commit answers w.table w.buffer >>= λ table.
    ok (some (queue, record { buffer = []; table = table }))

-- One round of the loop of `worker`: the queue and the worker after it, or none while it blocks.
unfoldable pub work : Bool → Bool → List Text → Worker → Result (Option (List Text × Worker))
unfolding flush dequeue
work late answers queue w =
    if leb buffer_len (length w.buffer) then flush answers queue w else elim w.buffer [
      | [] ↦ elim queue [
        | [] ↦ ok none
        | entry ∷ rest ↦ ok (some (rest, record w { buffer = w.buffer ++ entry ∷ [] }))
      ]
      | _ ∷ _ ↦ elim (dequeue late queue) [
        | some (entry, rest) ↦ ok (some (rest, record w { buffer = w.buffer ++ entry ∷ [] }))
        | none ↦ flush answers queue w
      ]
    ]
