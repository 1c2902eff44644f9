-- ===== src/Logger/OldLogger.antt =====
-- The earlier logger, src/logger/cmd/old_logger, and its client, src/logger/cmd/old_test_client: every line of
-- the pipe is put into the queue as it is, and there are no messages and no index.
pub mod Inserting
pub mod Agreement
use detsys_testkit.Base.{
  ℕ, zero, suc, ◌+◌, Bool, List, [], ◌∷◌, ◌++◌, Option, none, some, ltb, leb, length, if◌then◌else◌,
  nat_eq, ◌==◌, Result, ok, panic, ◌>>=◌,
}
use detsys_testkit.Base.Text.{Text, split}
use detsys_testkit.Logger.{Row}
use detsys_testkit.Logger.TestClient.{join, event_name, event_meta, event_args}

abbrev pub queue_size : ℕ
queue_size = 1024

abbrev pub buffer_len : ℕ
buffer_len = 512

three_parts : List Text → Result Row
three_parts (event ∷ meta ∷ rest ∷ []) = ok (event, meta, rest)
three_parts _ = panic

-- `parse`
unfoldable pub parse : Text → Result Row
unfolding three_parts split
parse entry = three_parts (split 9 entry)

-- The loop of `commit`, one insertion after the other.
unfoldable pub exec_all : List Row → List Text → Result (List Row)
unfolding parse
exec_all table [] = ok table
exec_all table (entry ∷ buffer) = parse entry >>= λ row. exec_all (table ++ row ∷ []) buffer

-- `commit`, with whether the data base answers.
unfoldable pub commit : Bool → List Row → List Text → Result (List Row)
unfolding exec_all
commit answers table buffer = if answers then exec_all table buffer else panic

-- `enqueue`, or none while the queue is full.
unfoldable pub enqueue : List Text → Text → Option (List Text)
enqueue queue entry = if ltb (length queue) queue_size then some (queue ++ entry ∷ []) else none

-- `dequeue`, with whether its time runs out first.
unfoldable pub dequeue : Bool → List Text → Option (Text × List Text)
dequeue late [] = none
dequeue late (entry ∷ queue) = if late then none else some (entry, queue)

-- The pipe, the queue, the buffer of the worker and the table.
pub record OldLogger : Type 0 where
  pub unread : List Text
  pub queue : List Text
  pub buffer : List Text
  pub table : List Row

-- A commit, after which the buffer is new.
unfoldable pub flush : Bool → OldLogger → Result OldLogger
unfolding commit
flush answers s =
    commit answers s.table s.buffer >>= λ table. ok (record s { buffer = []; table = table })

-- One round of the loop of `worker`, which changes nothing while it blocks on the empty queue.
unfoldable pub worker : Bool → Bool → OldLogger → Result OldLogger
unfolding flush dequeue
worker late answers s =
    if leb buffer_len (length s.buffer) then flush answers s else elim s.buffer [
      | [] ↦ elim s.queue [
        | [] ↦ ok s
        | entry ∷ rest ↦ ok (record s { queue = rest; buffer = s.buffer ++ entry ∷ [] })
      ]
      | _ ∷ _ ↦ elim (dequeue late s.queue) [
        | some (entry, rest) ↦ ok (record s { queue = rest; buffer = s.buffer ++ entry ∷ [] })
        | none ↦ flush answers s
      ]
    ]

-- One round of the inner loop of `main`: the next line goes into the queue, or waits for room.
unfoldable pub main_loop : OldLogger → OldLogger
unfolding enqueue
main_loop s = elim s.unread [
  | [] ↦ s
  | line ∷ rest ↦ elim (enqueue s.queue line) [
    | none ↦ s
    | some queue ↦ record s { unread = rest; queue = queue }
  ]
]

-- What `log` of the old client writes.
unfoldable pub log_event : Text → Text → Text → Text
unfolding join
log_event event meta rest = join (event ∷ meta ∷ rest ∷ []) ++ 10 ∷ []

-- The loop of `main` of the old client.
unfoldable pub client_loop : ℕ → ℕ → Text
unfolding log_event event_args
client_loop zero i = []
client_loop (suc n) i = log_event event_name event_meta (event_args i) ++ client_loop n (i + 1)

unfoldable pub client_main : Text
unfolding client_loop
client_main = client_loop 5 0
