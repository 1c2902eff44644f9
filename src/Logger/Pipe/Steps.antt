-- ===== src/Logger/Pipe/Steps.antt =====
-- The steps of the reader and of the worker of src/logger/lib.go, on the lines that clients write.
use detsys_testkit.Base.{
  ℕ, ◌+◌, ◌*◌, ◌≤◌, ◌%◌, ◌^◌, ◌≡◌, refl, ap, ◌∙◌, Bool, List, [], ◌∷◌, ◌++◌, map, append_assoc,
  append-nil, arith, length, length-append, All, Result, ok, ◌⊎◌, inl, inr,
}
use detsys_testkit.Base.Text.{Text, text}
use detsys_testkit.Events.{Time}
use detsys_testkit.Logger.{Row, queue_size, parse_all}
use detsys_testkit.Logger.Draining.{parse_all-append-eq-ok, flush_lem, work_empty, work_entry}
use detsys_testkit.Logger.Pipe.{System, read_turn, work_turn}
use detsys_testkit.Logger.Pipe.Messages.{handle_write, handle_ask, receive_write}
use detsys_testkit.Logger.Pipe.Requests.{
  Request, write, ask, entry, encode, IsPrintable, IsTidy, entries, last_index, asked,
}

abbrev pub system : List Request → List Text → ℕ → List Text → List Row → List (Text × ℕ) → System
system rs queue i buffer table written = record {
  unread = map encode rs;
  logger = record { queue = queue; index = i };
  worker = record { buffer = buffer; table = table };
  written = written;
}

-- Three steps for each line, two for each entry of the queue and one for each of the buffer.
abbrev pub work_left : List Request → List Text → List Text → ℕ
work_left rs queue buffer = 3 * length rs + 2 * length queue + length buffer

-- What is still to be done leads to the given table, answers and index.
pub record IsOnCourse (table : List Row) (written : List (Text × ℕ)) (last : ℕ) (rs : List Request)
    (queue : List Text) (i : ℕ) (buffer : List Text) (before : List Row)
    (answered : List (Text × ℕ)) : Type 0 where
  pub tidy : All IsTidy rs
  pub fresh : List Row
  pub parsed : parse_all (buffer ++ (queue ++ entries rs)) ≡ ok fresh
  pub in_table : before ++ fresh ≡ table
  pub in_answers : answered ++ asked rs i ≡ written
  pub counted : last_index rs i ≡ last

-- A step that was made: what the system came to, with less work left.
pub record IsStep (table : List Row) (written : List (Text × ℕ)) (last : ℕ) (left : ℕ)
    (result : Result System) : Type 0 where
  pub rs : List Request
  pub queue : List Text
  pub i : ℕ
  pub buffer : List Text
  pub before : List Row
  pub answered : List (Text × ℕ)
  pub made : result ≡ ok (system rs queue i buffer before answered)
  pub course : IsOnCourse table written last rs queue i buffer before answered
  pub less : work_left rs queue buffer + 1 ≤ left

module _ {table : List Row} {written : List (Text × ℕ)} {last : ℕ} where
  flushed :
      (rs : List Request) (queue : List Text) (i : ℕ) (buffer : List Text) (before : List Row)
      (answered : List (Text × ℕ))
      → IsOnCourse table written last rs queue i buffer before answered
      → (a : List Row) × (parse_all buffer ≡ ok a)
        × IsOnCourse table written last rs queue i [] (before ++ a) answered
  flushed rs queue i buffer before answered c =
      let (a, b, pa, pb, same) = parse_all-append-eq-ok buffer (queue ++ entries rs) c.parsed in
      (
        a,
        pa,
        record {
          tidy = c.tidy;
          fresh = b;
          parsed = pb;
          in_table = append_assoc before a b ∙ ap (λ r. before ++ r) same ∙ c.in_table;
          in_answers = c.in_answers;
          counted = c.counted;
        },
      )

  -- An entry of the queue comes into the buffer.
  taken :
      (rs : List Request) (x : Text) (queue : List Text) (i : ℕ) (buffer : List Text)
      (before : List Row) (answered : List (Text × ℕ))
      → IsOnCourse table written last rs (x ∷ queue) i buffer before answered
      → IsOnCourse table written last rs queue i (buffer ++ x ∷ []) before answered
  taken rs x queue i buffer before answered c = record {
    tidy = c.tidy;
    fresh = c.fresh;
    parsed = ap parse_all (append_assoc buffer (x ∷ []) (queue ++ entries rs)) ∙ c.parsed;
    in_table = c.in_table;
    in_answers = c.in_answers;
    counted = c.counted;
  }

  -- An entry that is written comes into the queue.
  written_lem :
      (from : Text) (row : Row) (rs : List Request) (queue : List Text) (i : ℕ) (buffer : List Text)
      (before : List Row) (answered : List (Text × ℕ))
      → IsOnCourse table written last (write from row ∷ rs) queue i buffer before answered
      → IsOnCourse table written last rs
          (queue ++ entry row (10 ∷ []) ∷ [])
          ((i + 1) % 2 ^ 64)
          buffer
          before
          answered
  unfolding entries asked last_index
  written_lem from row rs queue i buffer before answered c = record {
    tidy = c.tidy.1;
    fresh = c.fresh;
    parsed =
        ap (λ es. parse_all (buffer ++ es))
          (append_assoc queue (entry row (10 ∷ []) ∷ []) (entries rs))
        ∙ c.parsed;
    in_table = c.in_table;
    in_answers = c.in_answers;
    counted = c.counted;
  }

  answered_lem :
      (component : Text) (rs : List Request) (queue : List Text) (i : ℕ) (buffer : List Text)
      (before : List Row) (answered : List (Text × ℕ))
      → IsOnCourse table written last (ask component ∷ rs) queue i buffer before answered
      → IsOnCourse table written last rs queue i buffer before (answered ++ (component, i) ∷ [])
  unfolding entries asked last_index
  answered_lem component rs queue i buffer before answered c = record {
    tidy = c.tidy.1;
    fresh = c.fresh;
    parsed = c.parsed;
    in_table = c.in_table;
    in_answers = append_assoc answered ((component, i) ∷ []) (asked rs i) ∙ c.in_answers;
    counted = c.counted;
  }

module _ (to_lower trim_space : Text → Text) where
  pub work-IsStep :
      {table : List Row} {written : List (Text × ℕ)} {last : ℕ} (late : Bool) (rs : List Request)
      (queue : List Text) (i : ℕ) (buffer : List Text) (before : List Row)
      (answered : List (Text × ℕ))
      → IsOnCourse table written last rs queue i buffer before answered
      → ((length queue + length buffer ≡ 0)
          × (work_turn to_lower trim_space late (system rs queue i buffer before answered)
              ≡ ok (system rs queue i buffer before answered)))
        ⊎ IsStep table written last
            (work_left rs queue buffer)
            (work_turn to_lower trim_space late (system rs queue i buffer before answered))
  unfolding work_turn
  work-IsStep late rs [] i buffer before answered c =
      elim (work_empty late (record { buffer = buffer; table = before })) [
        | inl (none_left, e) ↦ inl (omega arith, rw (e) refl)
        | inr (some_left, e) ↦
            (let (a, pa, after) = flushed rs [] i buffer before answered c in
              inr (record {
                rs = rs;
                queue = [];
                i = i;
                buffer = [];
                before = before ++ a;
                answered = answered;
                made = rw (e ∙ flush_lem [] (record { buffer = buffer; table = before }) pa) refl;
                course = after;
                less = omega arith;
              }))
      ]
  work-IsStep late rs (x ∷ queue) i buffer before answered c =
      elim (work_entry late x queue (record { buffer = buffer; table = before })) [
        | inl (room, e) ↦ inr (record {
          rs = rs;
          queue = queue;
          i = i;
          buffer = buffer ++ x ∷ [];
          before = before;
          answered = answered;
          made = rw (e) refl;
          course = taken rs x queue i buffer before answered c;
          less = omega (arith, length-append buffer (x ∷ []));
        })
        | inr (some_left, e) ↦
            (let (a, pa, after) = flushed rs (x ∷ queue) i buffer before answered c in
              inr (record {
                rs = rs;
                queue = x ∷ queue;
                i = i;
                buffer = [];
                before = before ++ a;
                answered = answered;
                made =
                    rw (e ∙ flush_lem (x ∷ queue) (record { buffer = buffer; table = before }) pa)
                      refl;
                course = after;
                less = omega arith;
              }))
      ]

  pub read-IsStep :
      {table : List Row} {written : List (Text × ℕ)} {last : ℕ} (at : Time) (rs : List Request)
      (queue : List Text) (i : ℕ) (buffer : List Text) (before : List Row)
      (answered : List (Text × ℕ))
      → to_lower (text "log") ≡ text "log"
      → to_lower (text "index") ≡ text "index"
      → ((s : Text) → IsPrintable s → trim_space (s ++ 10 ∷ []) ≡ s)
      → IsOnCourse table written last rs queue i buffer before answered
      → (((length rs ≡ 0) ⊎ (queue_size ≤ length queue))
          × (read_turn to_lower trim_space at (system rs queue i buffer before answered)
              ≡ ok (system rs queue i buffer before answered)))
        ⊎ IsStep table written last
            (work_left rs queue buffer)
            (read_turn to_lower trim_space at (system rs queue i buffer before answered))
  unfolding read_turn
  read-IsStep at [] queue i buffer before answered hl hi ht c = inl (inl refl, refl)
  read-IsStep at (ask component ∷ rs) queue i buffer before answered hl hi ht c = inr (record {
    rs = rs;
    queue = queue;
    i = i;
    buffer = buffer;
    before = before;
    answered = answered ++ (component, i) ∷ [];
    made =
        rw
          (handle_ask to_lower trim_space (record { queue = queue; index = i }) at component hi ht
            c.tidy.0)
          refl;
    course = answered_lem component rs queue i buffer before answered c;
    less = omega arith;
  })
  read-IsStep at (write from row ∷ rs) queue i buffer before answered hl hi ht c =
      elim (receive_write to_lower trim_space at from (entry row (10 ∷ [])) queue i) [
        | inl (room, e) ↦ inr (record {
          rs = rs;
          queue = queue ++ entry row (10 ∷ []) ∷ [];
          i = (i + 1) % 2 ^ 64;
          buffer = buffer;
          before = before;
          answered = answered;
          made =
              rw
                (handle_write to_lower trim_space (record { queue = queue; index = i }) at from row
                    hl c.tidy.0.0
                  ∙ e)
                (ap
                  (λ w. ok (
                    system rs (queue ++ entry row (10 ∷ []) ∷ []) ((i + 1) % 2 ^ 64) buffer before
                      w))
                  (append-nil answered));
          course = written_lem from row rs queue i buffer before answered c;
          less = omega (arith, length-append queue (entry row (10 ∷ []) ∷ []));
        })
        | inr (full, e) ↦ inl (
          inr full,
          rw
              (handle_write to_lower trim_space (record { queue = queue; index = i }) at from row hl
                  c.tidy.0.0
                ∙ e)
              refl,
        )
      ]
