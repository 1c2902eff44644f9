-- ===== src/Logger/Pipe/Progress.antt =====
-- Turns of the reader and the worker of src/logger/lib.go, one after the other, and what they come to.
use detsys_testkit.Base.{
  ℕ, ◌+◌, ◌≤◌, ◌<◌, ◌≡◌, refl, sym, ap, ◌∙◌, Bool, List, [], ◌∷◌, ◌++◌, append-nil, arith, Result,
  ok, ◌>>=◌, ok-inj, Result-cases, ◌⊎◌, inl, inr,
}
use detsys_testkit.Base.Text.{Text}
use detsys_testkit.Events.{Time}
use detsys_testkit.Logger.{Row, parse_all}
use detsys_testkit.Logger.Pipe.{System, Turn, reader, worker, turn, run}
use detsys_testkit.Logger.Pipe.Requests.{Request, entries, last_index, asked}
use detsys_testkit.Logger.Pipe.Steps.{system, work_left, IsOnCourse, IsStep}

-- Turns in which the reader and the worker alternate.
unfoldable pub rounds : List (Time × Bool) → List Turn
rounds [] = []
rounds ((at, late) ∷ rest) = reader at ∷ worker late ∷ rounds rest

pub run-append :
    (to_lower trim_space : Text → Text) (ts us : List Turn) (s : System)
    → run to_lower trim_space (ts ++ us) s
      ≡ (run to_lower trim_space ts s >>= λ s'. run to_lower trim_space us s')
unfolding run
run-append to_lower trim_space [] us s = refl
run-append to_lower trim_space (t ∷ ts) us s = elim (Result-cases (turn to_lower trim_space t s)) [
  | inl (s', e) ↦ rw (e) (run-append to_lower trim_space ts us s')
  | inr (inl e) ↦ rw (e) refl
  | inr (inr (inl e)) ↦ rw (e) refl
  | inr (inr (inr e)) ↦ rw (e) refl
]

pub le_or_lt : (m n : ℕ) → (m ≤ n) ⊎ (n < m)
le_or_lt m n = ground arith

module _ {table : List Row} {written : List (Text × ℕ)} {last : ℕ} where
  pub weaker :
      {result : Result System} (m n : ℕ)
      → m ≤ n
      → IsStep table written last m result
      → IsStep table written last n result
  weaker m n h s = record {
    rs = s.rs;
    queue = s.queue;
    i = s.i;
    buffer = s.buffer;
    before = s.before;
    answered = s.answered;
    made = s.made;
    course = s.course;
    less = omega (arith, s.less);
  }

  pub stay :
      (rs : List Request) (queue : List Text) (i : ℕ) (buffer : List Text) (before : List Row)
      (answered : List (Text × ℕ)) {result : Result System}
      → IsOnCourse table written last rs queue i buffer before answered
      → result ≡ ok (system rs queue i buffer before answered)
      → IsStep table written last (work_left rs queue buffer + 1) result
  stay rs queue i buffer before answered c e = record {
    rs = rs;
    queue = queue;
    i = i;
    buffer = buffer;
    before = before;
    answered = answered;
    made = e;
    course = c;
    less = omega arith;
  }

  -- A step, and then what any system with less work left makes.
  pub and_then_lem :
      {result : Result System} {m n : ℕ} (rest : System → Result System)
      → IsStep table written last m result
      → ((rs : List Request) (queue : List Text) (i : ℕ) (buffer : List Text) (before : List Row)
            (answered : List (Text × ℕ))
          → IsOnCourse table written last rs queue i buffer before answered
          → work_left rs queue buffer + 1 ≤ m
          → IsStep table written last n (rest (system rs queue i buffer before answered)))
      → IsStep table written last n (result >>= rest)
  and_then_lem rest s next =
      rw (s.made) (next s.rs s.queue s.i s.buffer s.before s.answered s.course s.less)

  finished_parts :
      (rs : List Request) (queue : List Text) (i : ℕ) (buffer : List Text) (before : List Row)
      (answered : List (Text × ℕ))
      → IsOnCourse table written last rs queue i buffer before answered
      → work_left rs queue buffer ≤ 0
      → system rs queue i buffer before answered ≡ system [] [] last [] table written
  unfolding entries asked last_index parse_all
  finished_parts [] [] i [] before answered c h =
      let none_fresh : [] ≡ c.fresh = ok-inj c.parsed in
      let same_table : before ≡ table =
        sym (append-nil before) ∙ ap (λ f. before ++ f) none_fresh ∙ c.in_table in
      let same_answers : answered ≡ written = sym (append-nil answered) ∙ c.in_answers in
      λ k. system [] [] (c.counted k) [] (same_table k) (same_answers k)
  finished_parts (_ ∷ rs) queue i buffer before answered c h = absurd (omega arith)
  finished_parts [] (_ ∷ queue) i buffer before answered c h = absurd (omega arith)
  finished_parts [] [] i (_ ∷ buffer) before answered c h = absurd (omega arith)

  pub finished :
      {result : Result System}
      → IsStep table written last 1 result
      → result ≡ ok (system [] [] last [] table written)
  finished s =
      s.made
      ∙ ap ok (
          finished_parts s.rs s.queue s.i s.buffer s.before s.answered s.course
            (omega (arith, s.less)))
