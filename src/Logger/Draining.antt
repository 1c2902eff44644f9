-- ===== src/Logger/Draining.antt =====
-- The worker of src/logger/lib.go empties the queue: however its timeouts fall, entries that can be
-- parsed reach the table.
use detsys_testkit.Base.{
  ℕ, zero, suc, ◌+◌, ◌*◌, ◌≤◌, ◌≡◌, refl, sym, ap, ◌∙◌, Bool, true, List, [], ◌∷◌, ◌++◌,
  append_assoc, append-nil, none, some, arith, length, length-append, Result, ok, ◌>>=◌, >>=-eq-ok,
  ok-inj, ◌⊎◌, inl, inr,
}
use detsys_testkit.Base.Text.{Text}
use detsys_testkit.Logger.{Worker, Row, buffer_len, parse, parse_all, commit, dequeue, flush, work}

-- Rounds of the worker with a data base that answers, until it blocks. The function tells in which of
-- the rounds that are left the time of `dequeue` runs out.
pub drain : (ℕ → Bool) → ℕ → List Text → Worker → Result (List Text × Worker)
drain late zero queue w = ok (queue, w)
drain late (suc rounds) queue w = work (late rounds) true queue w >>= λ r. elim r [
  | none ↦ ok (queue, w)
  | some (q, w') ↦ drain late rounds q w'
]

-- A parse of two lists one after the other parses each.
pub parse_all-append-eq-ok :
    (xs ys : List Text) {rows : List Row}
    → parse_all (xs ++ ys) ≡ ok rows
    → (a b : List Row) × (parse_all xs ≡ ok a) × (parse_all ys ≡ ok b) × (a ++ b ≡ rows)
unfolding parse_all
parse_all-append-eq-ok [] ys {rows} h = ([], rows, refl, h, refl)
parse_all-append-eq-ok (x ∷ xs) ys {rows} h =
    let (row, p, h1) = >>=-eq-ok (parse x) (λ _. _) h in
    let (rest, q, h2) = >>=-eq-ok (parse_all (xs ++ ys)) (λ _. _) h1 in
    let (a, b, pa, pb, same) = parse_all-append-eq-ok xs ys q in
    let whole : row ∷ rest ≡ rows = ok-inj h2 in
    (row ∷ a, b, rw (p) (rw (pa) refl), pb, ap (◌∷◌ row) same ∙ whole)

pub flush_lem :
    (queue : List Text) (w : Worker) {rows : List Row}
    → parse_all w.buffer ≡ ok rows
    → flush true queue w ≡ ok (some (queue, record { buffer = []; table = w.table ++ rows }))
unfolding flush commit
flush_lem queue w h = rw (h) refl

pub work_empty :
    (late : Bool) (w : Worker)
    → ((length w.buffer ≡ 0) × (work late true [] w ≡ ok none))
      ⊎ ((1 ≤ length w.buffer) × (work late true [] w ≡ flush true [] w))
unfolding work dequeue
work_empty late w = ground arith

pub work_entry :
    (late : Bool) (entry : Text) (rest : List Text) (w : Worker)
    → ((length w.buffer + 1 ≤ buffer_len)
        × (work late true (entry ∷ rest) w
            ≡ ok (some (rest, record w { buffer = w.buffer ++ entry ∷ [] }))))
      ⊎ ((1 ≤ length w.buffer) × (work late true (entry ∷ rest) w ≡ flush true (entry ∷ rest) w))
unfolding work dequeue
work_entry late entry rest w = ground arith

-- A worker with nothing in its buffer has nothing to add to its table.
finished_parts :
    (buffer : List Text) (table : List Row) {rows : List Row}
    → length buffer ≡ 0
    → parse_all (buffer ++ []) ≡ ok rows
    → ◌≡◌ {A = Worker}
        (record { buffer = buffer; table = table })
        (record { buffer = []; table = table ++ rows })
unfolding parse_all
finished_parts [] table h p =
    ap (λ t. record { buffer = []; table = t })
      (sym (append-nil table) ∙ ap (λ r. table ++ r) (ok-inj p))
finished_parts (x ∷ buffer) table h p = absurd (omega arith)

finished :
    (w : Worker) {rows : List Row}
    → length w.buffer ≡ 0
    → parse_all (w.buffer ++ []) ≡ ok rows
    → w ≡ record { buffer = []; table = w.table ++ rows }
finished w h p = finished_parts w.buffer w.table h p

-- Entries of the buffer and the queue that can all be parsed reach the table in their order, with a
-- data base that answers, and the worker comes to rest on the empty queue, within two rounds for
-- each entry of the queue and one for each of the buffer, whichever timeouts run out.
pub drain_lem :
    (late : ℕ → Bool) (rounds : ℕ) (queue : List Text) (w : Worker) {rows : List Row}
    → parse_all (w.buffer ++ queue) ≡ ok rows
    → 2 * length queue + length w.buffer ≤ rounds
    → drain late rounds queue w ≡ ok ([], record { buffer = []; table = w.table ++ rows })
unfolding drain
drain_lem late zero [] w h n = ap (λ v. ok ([], v)) (finished w (omega arith) h)
drain_lem late zero (entry ∷ rest) w h n = absurd (omega arith)
drain_lem late (suc rounds) [] w {rows} h n = elim (work_empty (late rounds) w) [
  | inl (none_left, e) ↦ rw (e, drain) (ap (λ v. ok ([], v)) (finished w none_left h))
  | inr (some_left, e) ↦
      (let (a, b, pa, pb, same) = parse_all-append-eq-ok w.buffer [] h in
        rw (e ∙ flush_lem [] w pa, drain)
          (drain_lem late rounds [] (record { buffer = []; table = w.table ++ a }) pb (omega arith)
            ∙ ap (λ t. ok ([], record { buffer = []; table = t }))
                (append_assoc w.table a b ∙ ap (λ r. w.table ++ r) same)))
]
drain_lem late (suc rounds) (entry ∷ rest) w {rows} h n =
    elim (work_entry (late rounds) entry rest w) [
      | inl (room, e) ↦
          rw (e, drain)
            (drain_lem late rounds rest (record w { buffer = w.buffer ++ entry ∷ [] })
              (ap parse_all (append_assoc w.buffer (entry ∷ []) rest) ∙ h)
              (omega (arith, length-append w.buffer (entry ∷ []))))
      | inr (some_left, e) ↦
          (let (a, b, pa, pb, same) = parse_all-append-eq-ok w.buffer (entry ∷ rest) h in
            rw (e ∙ flush_lem (entry ∷ rest) w pa, drain)
              (drain_lem late rounds (entry ∷ rest) (record { buffer = []; table = w.table ++ a })
                  pb (omega arith)
                ∙ ap (λ t. ok ([], record { buffer = []; table = t }))
                    (append_assoc w.table a b ∙ ap (λ r. w.table ++ r) same)))
    ]
