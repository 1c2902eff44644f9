-- ===== src/Logger/Delivery.antt =====
-- No entry of the log is lost, repeated or reordered on its way from the reactor to the table,
-- whatever the interleaving of the reactor and the worker.
use mathlib.Core.Path.{subst}
use detsys_testkit.Base.{
  ℕ, ◌+◌, ◌≤◌, ◌≡◌, refl, sym, ap, ◌∙◌, Bool, true, false, List, [], ◌∷◌, ◌++◌, append_assoc,
  append-nil, some, arith, length, length-append, ok, >>=-eq-ok, ok-inj, ◌⊎◌, inl, inr,
}
use detsys_testkit.Base.Text.{Text}
use detsys_testkit.Events.{Time, internal_message}
use detsys_testkit.Logger.{
  Logger, Worker, Row, log, done, queue_size, buffer_len, enqueue, receive, parse, parse_all,
  commit, dequeue, flush, work, init, new_worker,
}

-- The states to which the reactor and the worker can come together, with the entries received so far,
-- from a table that has some rows already.
pub data Reachable (before : List Row) : List Text → Logger → Worker → Type 0 where
  starts : (first : ℕ) → Reachable before [] (init first) (new_worker before)
  receives :
      {entries : List Text} {l l' : Logger} {w : Worker} (at : Time) (from entry : Text)
      → Reachable before entries l w
      → receive l at from (internal_message (log entry)) ≡ ok (done l' [])
      → Reachable before (entries ++ entry ∷ []) l' w
  works :
      {entries queue : List Text} {l : Logger} {w w' : Worker} (late answers : Bool)
      → Reachable before entries l w
      → work late answers l.queue w ≡ ok (some (queue, w'))
      → Reachable before entries (record l { queue = queue }) w'

-- The entries received are those committed, in their order, then those of the buffer and of the queue;
-- the rows that the table has got are the parsed entries; buffer and queue keep within their bounds.
pub record IsDelivered (before : List Row) (entries : List Text) (queue : List Text) (w : Worker)
    : Type 0 where
  pub committed : List Text
  pub in_order : entries ≡ committed ++ w.buffer ++ queue
  pub rows : List Row
  pub parsed : parse_all committed ≡ ok rows
  pub in_table : w.table ≡ before ++ rows
  pub buffer_bounded : length w.buffer ≤ buffer_len
  pub queue_bounded : length queue ≤ queue_size

parse_all-append :
    (xs ys : List Text) {rows rows' : List Row}
    → parse_all xs ≡ ok rows
    → parse_all ys ≡ ok rows'
    → parse_all (xs ++ ys) ≡ ok (rows ++ rows')
unfolding parse_all
parse_all-append [] ys h k = ground arith
parse_all-append (x ∷ xs) ys {rows} {rows'} h k =
    let (row, p, h1) = >>=-eq-ok (parse x) (λ _. _) h in
    let (rest, q, h2) = >>=-eq-ok (parse_all xs) (λ _. _) h1 in
    let same : row ∷ rest ≡ rows = ok-inj h2 in
    rw (p) (rw (parse_all-append xs ys q k) (ap (λ r. ok (r ++ rows')) same))

receive-IsDelivered :
    {before : List Row} {entries : List Text} (l l' : Logger) (w : Worker) (at : Time)
    (from entry : Text)
    → IsDelivered before entries l.queue w
    → receive l at from (internal_message (log entry)) ≡ ok (done l' [])
    → IsDelivered before (entries ++ entry ∷ []) l'.queue w
unfolding receive enqueue
receive-IsDelivered {before} {entries} l l' w at from entry v h =
    let same : l'.queue ≡ l.queue ++ entry ∷ [] = ground arith in
    let bound : length (l.queue ++ entry ∷ []) ≤ queue_size =
      ground (arith, length-append l.queue (entry ∷ [])) in
    subst (λ q. IsDelivered before (entries ++ entry ∷ []) q w) (sym same)
      (record {
        committed = v.committed;
        in_order = ap (λ es. es ++ entry ∷ []) v.in_order ∙ simp append_assoc;
        rows = v.rows;
        parsed = v.parsed;
        in_table = v.in_table;
        buffer_bounded = v.buffer_bounded;
        queue_bounded = bound;
      })

flush-IsDelivered :
    {before : List Row} {entries queue q : List Text} (answers : Bool) (w w' : Worker)
    → IsDelivered before entries queue w
    → flush answers queue w ≡ ok (some (q, w'))
    → IsDelivered before entries q w'
unfolding flush commit
flush-IsDelivered {queue = queue} false w w' v h = cc
flush-IsDelivered {before} {entries} {queue} {q} true w w' v h =
    let (table, c, h1) = >>=-eq-ok (commit true w.table w.buffer) (λ _. _) h in
    let (rows, p, h2) = >>=-eq-ok (parse_all w.buffer) (λ _. _) c in
    let same : w.table ++ rows ≡ table = ok-inj h2 in
    let after : IsDelivered before entries queue (record { buffer = []; table = table }) = record {
      committed = v.committed ++ w.buffer;
      in_order = v.in_order ∙ simp append_assoc;
      rows = v.rows ++ rows;
      parsed = parse_all-append v.committed w.buffer v.parsed p;
      in_table = sym same ∙ ap (λ t. t ++ rows) v.in_table ∙ append_assoc before v.rows rows;
      buffer_bounded = omega arith;
      queue_bounded = v.queue_bounded;
    } in
    let next : ◌≡◌ {A = List Text × Worker} (queue, record { buffer = []; table = table }) (q, w') =
      ground arith in
    subst (λ r. IsDelivered before entries r.0 r.1) next after

-- An entry that moves from the head of the queue to the end of the buffer.
take-IsDelivered :
    {before : List Row} {entries rest : List Text} (entry : Text) (w : Worker)
    → IsDelivered before entries (entry ∷ rest) w
    → length w.buffer + 1 ≤ buffer_len
    → IsDelivered before entries rest (record w { buffer = w.buffer ++ entry ∷ [] })
take-IsDelivered entry w v h = record {
  committed = v.committed;
  in_order = v.in_order ∙ simp append_assoc;
  rows = v.rows;
  parsed = v.parsed;
  in_table = v.in_table;
  buffer_bounded = omega (arith, length-append w.buffer (entry ∷ []));
  queue_bounded = omega (arith, v.queue_bounded);
}

work_nothing :
    {q : List Text} (late answers : Bool) (w w' : Worker)
    → work late answers [] w ≡ ok (some (q, w'))
    → flush answers [] w ≡ ok (some (q, w'))
unfolding work dequeue
work_nothing late answers w w' h = ground arith

work_cases :
    {q : List Text} (late answers : Bool) (entry : Text) (rest : List Text) (w w' : Worker)
    → work late answers (entry ∷ rest) w ≡ ok (some (q, w'))
    → (flush answers (entry ∷ rest) w ≡ ok (some (q, w')))
      ⊎ ((length w.buffer + 1 ≤ buffer_len)
          × (◌≡◌ {A = List Text × Worker}
              (rest, record w { buffer = w.buffer ++ entry ∷ [] })
              (q, w')))
unfolding work dequeue
work_cases late answers entry rest w w' h = ground arith

work-IsDelivered :
    {before : List Row} {entries q : List Text} (late answers : Bool) (queue : List Text)
    (w w' : Worker)
    → IsDelivered before entries queue w
    → work late answers queue w ≡ ok (some (q, w'))
    → IsDelivered before entries q w'
work-IsDelivered late answers [] w w' v h =
    flush-IsDelivered answers w w' v (work_nothing late answers w w' h)
work-IsDelivered {before} {entries} late answers (entry ∷ rest) w w' v h =
    elim (work_cases late answers entry rest w w' h) [
      | inl e ↦ flush-IsDelivered answers w w' v e
      | inr (room, same) ↦
          subst (λ r. IsDelivered before entries r.0 r.1) same (take-IsDelivered entry w v room)
    ]

-- In every state to which the reactor and the worker of the logger come, from any table and whatever
-- their interleaving, the entries received are those whose rows were added to the table, in their
-- order, then those of the buffer and of the queue, which keep within their bounds.
pub Reachable-IsDelivered :
    {before : List Row} {entries : List Text} {l : Logger} {w : Worker}
    → Reachable before entries l w
    → IsDelivered before entries l.queue w
unfolding parse_all init new_worker
Reachable-IsDelivered {before} (starts first) = record {
  committed = [];
  in_order = refl;
  rows = [];
  parsed = refl;
  in_table = sym (append-nil before);
  buffer_bounded = omega arith;
  queue_bounded = omega arith;
}
Reachable-IsDelivered (receives {l = l} {l' = l'} {w = w} at from entry r h) =
    receive-IsDelivered l l' w at from entry (Reachable-IsDelivered r) h
Reachable-IsDelivered (works {l = l} {w = w} {w' = w'} late answers r h) =
    work-IsDelivered late answers l.queue w w' (Reachable-IsDelivered r) h
