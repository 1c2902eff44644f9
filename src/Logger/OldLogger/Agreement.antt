-- ===== src/Logger/OldLogger/Agreement.antt =====
-- The logger of src/logger/lib.go on its pipe against the earlier one of src/logger/cmd/old_logger: the lines
-- of the one have a kind and a sender before the entry, those of the other are the entries.
use detsys_testkit.Base.{
  ℕ, ◌+◌, ◌≤◌, ◌%◌, ◌^◌, ◌≡◌, refl, sym, ap, ◌∙◌, true, List, [], ◌∷◌, ◌++◌, map, append_assoc,
  append-nil, arith, All-append, length, All, Result, ok, err, panic, exit, ◌>>=◌, Result-cases,
  inl, inr, none, some,
}
use detsys_testkit.Base.Text.{Text, text, Lacks, split_of_Lacks}
use detsys_testkit.Logger
use detsys_testkit.Logger.{Row, work}
use detsys_testkit.Logger.Pipe.{
  System, Turn, reader, worker, read_turn, work_turn, turn, run, read_lines, opened,
}
use detsys_testkit.Logger.Pipe.Requests.{
  Request, write, entry, IsColumn, IsTidy, stream, joined-Lacks, read_lines-append,
  read_lines-stream,
}
use detsys_testkit.Logger.Pipe.Steps.{system}
use detsys_testkit.Logger.Pipe.Messages.{handle_write, receive_write}
use detsys_testkit.Logger.OldLogger
use detsys_testkit.Logger.OldLogger.{OldLogger, buffer_len, queue_size}
use detsys_testkit.Logger.OldLogger.Inserting.{worker_agrees}

-- The turns of the old reader and worker, with a data base that answers.
unfoldable pub old_turn : Turn → OldLogger → Result OldLogger
old_turn (reader at) s = ok (OldLogger.main_loop s)
old_turn (worker late) s = OldLogger.worker late true s

unfoldable pub old_run : List Turn → OldLogger → Result OldLogger
unfolding old_turn
old_run [] s = ok s
old_run (t ∷ ts) s = old_turn t s >>= λ s'. old_run ts s'

abbrev pub written_by : Text × Row → Request
written_by (from, row) = write from row

abbrev pub old_line : Text × Row → Text
old_line (from, row) = entry row (10 ∷ [])

abbrev pub old_system : List (Text × Row) → List Text → List Text → List Row → OldLogger
old_system rs queue buffer table = record {
  unread = map old_line rs;
  queue = queue;
  buffer = buffer;
  table = table;
}

-- What the two have in common.
abbrev pub kept : Result System → Result (List Text × List Text × List Row)
kept (ok s) = ok (s.logger.queue, s.worker.buffer, s.worker.table)
kept err = err
kept panic = panic
kept exit = exit

abbrev pub old_kept : Result OldLogger → Result (List Text × List Text × List Row)
old_kept (ok s) = ok (s.queue, s.buffer, s.table)
old_kept err = err
old_kept panic = panic
old_kept exit = exit

main_loop_empty :
    (queue buffer : List Text) (table : List Row)
    → OldLogger.main_loop (record { unread = []; queue = queue; buffer = buffer; table = table })
      ≡ record { unread = []; queue = queue; buffer = buffer; table = table }
unfolding OldLogger.main_loop
main_loop_empty queue buffer table = refl

main_loop_room :
    (line : Text) (rest queue buffer : List Text) (table : List Row)
    → length queue + 1 ≤ Logger.queue_size
    → OldLogger.main_loop
        (record { unread = line ∷ rest; queue = queue; buffer = buffer; table = table })
      ≡ record { unread = rest; queue = queue ++ line ∷ []; buffer = buffer; table = table }
unfolding OldLogger.main_loop
main_loop_room line rest queue buffer table h = ground arith

main_loop_full :
    (line : Text) (rest queue buffer : List Text) (table : List Row)
    → Logger.queue_size ≤ length queue
    → OldLogger.main_loop
        (record { unread = line ∷ rest; queue = queue; buffer = buffer; table = table })
      ≡ record { unread = line ∷ rest; queue = queue; buffer = buffer; table = table }
unfolding OldLogger.main_loop
main_loop_full line rest queue buffer table h = ground arith

run_agrees :
    (to_lower trim_space : Text → Text) (ts : List Turn) (rs : List (Text × Row))
    (queue : List Text) (i : ℕ) (buffer : List Text) (table : List Row) (out : List (Text × ℕ))
    → to_lower (text "log") ≡ text "log"
    → All (λ r. IsColumn r.0) rs
    → kept (run to_lower trim_space ts (system (map written_by rs) queue i buffer table out))
      ≡ old_kept (old_run ts (old_system rs queue buffer table))
unfolding run turn read_turn work_turn old_run old_turn
run_agrees to_lower trim_space [] rs queue i buffer table out lower tidy = refl
run_agrees to_lower trim_space (reader at ∷ ts) [] queue i buffer table out lower tidy =
    rw (main_loop_empty queue buffer table)
      (run_agrees to_lower trim_space ts [] queue i buffer table out lower tidy)
run_agrees to_lower trim_space (reader at ∷ ts) ((from, row) ∷ rs) queue i buffer table out lower
      (column, tidy) =
    elim (receive_write to_lower trim_space at from (entry row (10 ∷ [])) queue i) [
      | inl (room, e) ↦
          rw
            (handle_write to_lower trim_space (record { queue = queue; index = i }) at from row
                lower column
              ∙ e)
            (rw (main_loop_room (entry row (10 ∷ [])) (map old_line rs) queue buffer table room) (
              run_agrees to_lower trim_space ts rs (queue ++ entry row (10 ∷ []) ∷ [])
                ((i + 1) % 2 ^ 64) buffer table (out ++ []) lower tidy))
      | inr (full, e) ↦
          rw
            (handle_write to_lower trim_space (record { queue = queue; index = i }) at from row
                lower column
              ∙ e)
            (rw (main_loop_full (entry row (10 ∷ [])) (map old_line rs) queue buffer table full) (
              run_agrees to_lower trim_space ts ((from, row) ∷ rs) queue i buffer table out lower
                (column, tidy)))
    ]
run_agrees to_lower trim_space (worker late ∷ ts) rs queue i buffer table out lower tidy =
    rw (worker_agrees late (map old_line rs) queue buffer table)
      (elim (Result-cases (work late true queue (record { buffer = buffer; table = table }))) [
        | inl (none, e) ↦
            rw (e) (run_agrees to_lower trim_space ts rs queue i buffer table out lower tidy)
        | inl (some (q, w), e) ↦
            rw (e) (run_agrees to_lower trim_space ts rs q i w.buffer w.table out lower tidy)
        | inr (inl e) ↦ rw (e) refl
        | inr (inr (inl e)) ↦ rw (e) refl
        | inr (inr (inr e)) ↦ rw (e) refl
      ])

-- What clients write to the pipe of the old logger.
unfoldable pub old_stream : List (Text × Row) → Text
old_stream [] = []
old_stream (r ∷ rs) = old_line r ++ old_stream rs

-- The old logger at the start of `main`.
unfoldable pub old_opened : List Row → Text → OldLogger
unfolding read_lines
old_opened before s = record { unread = read_lines s; queue = []; buffer = []; table = before }

old_line-Lacks : (r : Text × Row) → IsTidy (written_by r) → Lacks 10 (entry r.1 [])
unfolding entry
old_line-Lacks (from, (event, meta, rest)) (_, (_, he), (_, hm), (_, hr)) =
    joined-Lacks event _ he (joined-Lacks meta _ hm (All-append _ rest [] hr tt))

old_line_lem : (row : Row) (t : Text) → entry row (10 ∷ []) ++ t ≡ entry row [] ++ 10 ∷ t
unfolding entry
old_line_lem row t = simp append_assoc

read_lines-old_stream :
    (rs : List (Text × Row)) (tail : Text)
    → All (λ r. IsTidy (written_by r)) rs
    → Lacks 10 tail
    → read_lines (old_stream rs ++ tail) ≡ map old_line rs
unfolding old_stream
read_lines-old_stream [] tail h ht = unfold read_lines in rw (split_of_Lacks 10 tail ht) refl
read_lines-old_stream ((from, row) ∷ rs) tail (hr, h) ht =
    ap read_lines (
      append_assoc (entry row (10 ∷ [])) (old_stream rs) tail
      ∙ old_line_lem row (old_stream rs ++ tail))
    ∙ read_lines-append (entry row []) (old_stream rs ++ tail) (old_line-Lacks (from, row) hr)
    ∙ ap (λ l. l ∷ read_lines (old_stream rs ++ tail))
        (sym (old_line_lem row []) ∙ append-nil (entry row (10 ∷ [])))
    ∙ ap (λ ls. entry row (10 ∷ []) ∷ ls) (read_lines-old_stream rs tail h ht)

senders_of_IsTidy :
    (rs : List (Text × Row))
    → All (λ r. IsTidy (written_by r)) rs
    → All (λ r. IsColumn r.0) rs × All IsTidy (map written_by rs)
senders_of_IsTidy [] h = (tt, tt)
senders_of_IsTidy (r ∷ rs) (hr, h) = let (a, b) = senders_of_IsTidy rs h in ((hr.0, a), (hr, b))

-- If ToLower leaves the kind log as it is: for the same entries, without tabs or newlines in their
-- columns and senders, the same turns of the reader and the worker, and a last line without its
-- newline, the logger and the old logger fail alike, or have the same queue, buffer and table.
pub old_logger_agrees :
    (to_lower trim_space : Text → Text) (ts : List Turn) (rs : List (Text × Row)) (tail : Text)
    (highest : ℕ) (before : List Row)
    → to_lower (text "log") ≡ text "log"
    → All (λ r. IsTidy (written_by r)) rs
    → Lacks 10 tail
    → kept (run to_lower trim_space ts (opened highest before (stream (map written_by rs) ++ tail)))
      ≡ old_kept (old_run ts (old_opened before (old_stream rs ++ tail)))
unfolding opened old_opened Logger.init Logger.new_worker
old_logger_agrees to_lower trim_space ts rs tail highest before lower tidy ht =
    let (senders, all_tidy) = senders_of_IsTidy rs tidy in
    rw (read_lines-stream (map written_by rs) tail all_tidy ht) (
      rw (read_lines-old_stream rs tail tidy ht)
        (run_agrees to_lower trim_space ts rs [] highest [] before [] lower senders))
