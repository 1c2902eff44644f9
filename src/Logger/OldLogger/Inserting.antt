-- ===== src/Logger/OldLogger/Inserting.antt =====
-- The workers of src/logger/lib.go and of src/logger/cmd/old_logger: one inserts the rows of the buffer with one
-- prepared statement, the other one by one.
use detsys_testkit.Base.{
  ◌≡◌, refl, sym, ap, ◌∙◌, Bool, true, false, List, [], ◌∷◌, ◌++◌, append_assoc, append-nil, length,
  leb, Result, ok, err, panic, exit, ◌>>=◌, Result-cases, Bool-cases, inl, inr, none, some,
}
use detsys_testkit.Base.Text.{Text}
use detsys_testkit.Logger
use detsys_testkit.Logger.{Row, work}
use detsys_testkit.Logger.OldLogger
use detsys_testkit.Logger.OldLogger.{OldLogger, buffer_len, queue_size}

parse_agrees : (e : Text) → OldLogger.parse e ≡ Logger.parse e
unfolding OldLogger.parse Logger.parse
parse_agrees e = refl

assemble :
    (parsed : Result (List Row)) (row : Row) (table : List Row)
    → (parsed >>= λ rows. ok ((table ++ row ∷ []) ++ rows))
      ≡ ((parsed >>= λ rows. ok (row ∷ rows)) >>= λ all. ok (table ++ all))
assemble (ok rows) row table = ap ok (append_assoc table (row ∷ []) rows)
assemble err row table = refl
assemble panic row table = refl
assemble exit row table = refl

-- Inserting row by row and inserting all rows at the end are the same.
exec_all_lem :
    (buffer : List Text) (table : List Row)
    → OldLogger.exec_all table buffer ≡ (Logger.parse_all buffer >>= λ rows. ok (table ++ rows))
unfolding OldLogger.exec_all Logger.parse_all
exec_all_lem [] table = ap ok (sym (append-nil table))
exec_all_lem (e ∷ buffer) table = elim (Result-cases (Logger.parse e)) [
  | inl (row, p) ↦
      rw (parse_agrees e ∙ p)
        (exec_all_lem buffer (table ++ row ∷ []) ∙ assemble (Logger.parse_all buffer) row table)
  | inr (inl p) ↦ rw (parse_agrees e ∙ p) refl
  | inr (inr (inl p)) ↦ rw (parse_agrees e ∙ p) refl
  | inr (inr (inr p)) ↦ rw (parse_agrees e ∙ p) refl
]

flush_agrees :
    (unread queue buffer : List Text) (table : List Row)
    → OldLogger.flush true
        (record { unread = unread; queue = queue; buffer = buffer; table = table })
      ≡ (Logger.flush true queue (record { buffer = buffer; table = table }) >>= λ r. elim r [
        | none ↦ ok (record { unread = unread; queue = queue; buffer = buffer; table = table })
        | some (q, w) ↦
            ok (record { unread = unread; queue = q; buffer = w.buffer; table = w.table })
      ])
unfolding OldLogger.flush OldLogger.commit Logger.flush Logger.commit
flush_agrees unread queue buffer table = elim (Result-cases (Logger.parse_all buffer)) [
  | inl (rows, p) ↦ rw (exec_all_lem buffer table) (rw (p) refl)
  | inr (inl p) ↦ rw (exec_all_lem buffer table) (rw (p) refl)
  | inr (inr (inl p)) ↦ rw (exec_all_lem buffer table) (rw (p) refl)
  | inr (inr (inr p)) ↦ rw (exec_all_lem buffer table) (rw (p) refl)
]

pub worker_agrees :
    (late : Bool) (unread queue buffer : List Text) (table : List Row)
    → OldLogger.worker late true
        (record { unread = unread; queue = queue; buffer = buffer; table = table })
      ≡ (work late true queue (record { buffer = buffer; table = table }) >>= λ r. elim r [
        | none ↦ ok (record { unread = unread; queue = queue; buffer = buffer; table = table })
        | some (q, w) ↦
            ok (record { unread = unread; queue = q; buffer = w.buffer; table = w.table })
      ])
unfolding OldLogger.worker OldLogger.dequeue work Logger.dequeue
worker_agrees late unread [] [] table = refl
worker_agrees late unread (x ∷ queue) [] table = refl
worker_agrees late unread [] (b ∷ buffer) table =
    elim (Bool-cases (leb buffer_len (length (b ∷ buffer)))) [
      | inl full ↦ rw (full) (flush_agrees unread [] (b ∷ buffer) table)
      | inr room ↦ rw (room) (flush_agrees unread [] (b ∷ buffer) table)
    ]
worker_agrees true unread (x ∷ queue) (b ∷ buffer) table =
    elim (Bool-cases (leb buffer_len (length (b ∷ buffer)))) [
      | inl full ↦ rw (full) (flush_agrees unread (x ∷ queue) (b ∷ buffer) table)
      | inr room ↦ rw (room) (flush_agrees unread (x ∷ queue) (b ∷ buffer) table)
    ]
worker_agrees false unread (x ∷ queue) (b ∷ buffer) table =
    elim (Bool-cases (leb buffer_len (length (b ∷ buffer)))) [
      | inl full ↦ rw (full) (flush_agrees unread (x ∷ queue) (b ∷ buffer) table)
      | inr room ↦ rw (room) refl
    ]
