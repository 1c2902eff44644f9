-- ===== src/Logger/Pipe/Served.antt =====
-- The pipe of src/logger/lib.go serves its clients: whatever the turns of the reader and of the worker, and
-- also when the queue is full.
use detsys_testkit.Base.{
  ℕ, ◌+◌, ◌*◌, ◌≤◌, ◌≡◌, refl, Bool, List, [], ◌∷◌, ◌++◌, arith, length, All, ok, ◌>>=◌, inl, inr,
}
use detsys_testkit.Base.Text.{Text, text, Lacks}
use detsys_testkit.Events.{Time}
use detsys_testkit.Logger.{Row, init, new_worker}
use detsys_testkit.Logger.Pipe.{Turn, reader, worker, turn, run, opened, main}
use detsys_testkit.Logger.Pipe.Requests.{
  Request, IsPrintable, IsTidy, stream, rows, last_index, asked, read_lines-stream,
  parse_all-entries,
}
use detsys_testkit.Logger.Pipe.Steps.{
  system, work_left, IsOnCourse, IsStep, read-IsStep, work-IsStep,
}
use detsys_testkit.Logger.Pipe.Progress.{
  rounds, run-append, le_or_lt, weaker, stay, and_then_lem, finished,
}

module _ (to_lower trim_space : Text → Text) (log_lower : to_lower (text "log") ≡ text "log")
    (index_lower : to_lower (text "index") ≡ text "index")
    (trims : (s : Text) → IsPrintable s → trim_space (s ++ 10 ∷ []) ≡ s) where
  module _ {table : List Row} {written : List (Text × ℕ)} {last : ℕ} where
    turn-IsStep :
        (t : Turn) (rs : List Request) (queue : List Text) (i : ℕ) (buffer : List Text)
        (before : List Row) (answered : List (Text × ℕ))
        → IsOnCourse table written last rs queue i buffer before answered
        → IsStep table written last
            (work_left rs queue buffer + 1)
            (turn to_lower trim_space t (system rs queue i buffer before answered))
    unfolding turn
    turn-IsStep (reader at) rs queue i buffer before answered c =
        elim (read-IsStep to_lower trim_space at rs queue i buffer before answered log_lower
          index_lower trims c) [
            | inl (_, e) ↦ stay rs queue i buffer before answered c e
            | inr s ↦ weaker _ _ (omega arith) s
          ]
    turn-IsStep (worker late) rs queue i buffer before answered c =
        elim (work-IsStep to_lower trim_space late rs queue i buffer before answered c) [
          | inl (_, e) ↦ stay rs queue i buffer before answered c e
          | inr s ↦ weaker _ _ (omega arith) s
        ]

    run-IsStep :
        (ts : List Turn) (rs : List Request) (queue : List Text) (i : ℕ) (buffer : List Text)
        (before : List Row) (answered : List (Text × ℕ))
        → IsOnCourse table written last rs queue i buffer before answered
        → IsStep table written last
            (work_left rs queue buffer + 1)
            (run to_lower trim_space ts (system rs queue i buffer before answered))
    unfolding run
    run-IsStep [] rs queue i buffer before answered c =
        stay rs queue i buffer before answered c refl
    run-IsStep (t ∷ ts) rs queue i buffer before answered c =
        and_then_lem (run to_lower trim_space ts)
          (turn-IsStep t rs queue i buffer before answered c)
          λ rs' queue' i' buffer' before' answered' c' h.
            weaker _ _ (omega arith) (run-IsStep ts rs' queue' i' buffer' before' answered' c')

    -- A round of both: nothing was left, or less is.
    round-IsStep :
        (at : Time) (late : Bool) (rs : List Request) (queue : List Text) (i : ℕ)
        (buffer : List Text) (before : List Row) (answered : List (Text × ℕ))
        → IsOnCourse table written last rs queue i buffer before answered
        → 1 ≤ work_left rs queue buffer
        → IsStep table written last (work_left rs queue buffer) (
            run to_lower trim_space
              (reader at ∷ worker late ∷ [])
              (system rs queue i buffer before answered))
    unfolding run turn
    round-IsStep at late rs queue i buffer before answered c some_left =
        elim (read-IsStep to_lower trim_space at rs queue i buffer before answered log_lower
          index_lower trims c) [
            | inl (idle, e) ↦
                rw (e)
                  (elim (work-IsStep to_lower trim_space late rs queue i buffer before answered c) [
                    | inl (nothing, k) ↦
                        absurd
                          (elim idle [ inl none_unread ↦ omega arith | inr full ↦ omega arith ])
                    | inr s ↦
                        and_then_lem (λ s'. ok s') s
                          λ rs' queue' i' buffer' before' answered' c' h.
                            weaker _ _ h (stay rs' queue' i' buffer' before' answered' c' refl)
                  ])
            | inr s ↦
                and_then_lem (λ s'. run to_lower trim_space (worker late ∷ []) s') s
                  λ rs' queue' i' buffer' before' answered' c' h.
                    weaker _ _ h
                      (run-IsStep (worker late ∷ []) rs' queue' i' buffer' before' answered' c')
          ]

    rounds-IsStep :
        (lates : List (Time × Bool)) (rs : List Request) (queue : List Text) (i : ℕ)
        (buffer : List Text) (before : List Row) (answered : List (Text × ℕ))
        → IsOnCourse table written last rs queue i buffer before answered
        → work_left rs queue buffer ≤ length lates
        → IsStep table written last 1
            (run to_lower trim_space (rounds lates) (system rs queue i buffer before answered))
    unfolding rounds
    rounds-IsStep [] rs queue i buffer before answered c h =
        weaker _ _ (omega arith) (run-IsStep [] rs queue i buffer before answered c)
    rounds-IsStep ((at, late) ∷ lates) rs queue i buffer before answered c h =
        elim (le_or_lt 1 (work_left rs queue buffer)) [
          | inl some_left ↦
              rw
                (run-append to_lower trim_space (reader at ∷ worker late ∷ []) (rounds lates)
                  (system rs queue i buffer before answered))
                (and_then_lem (run to_lower trim_space (rounds lates))
                  (round-IsStep at late rs queue i buffer before answered c some_left)
                  λ rs' queue' i' buffer' before' answered' c' k.
                    rounds-IsStep lates rs' queue' i' buffer' before' answered' c' (omega arith))
          | inr none_left ↦ weaker _ _ (omega arith) (
              run-IsStep (reader at ∷ worker late ∷ rounds lates) rs queue i buffer before answered
                c)
        ]

  pub served_lem :
      (turns : List Turn) (lates : List (Time × Bool)) (rs : List Request) (tail : Text)
      (highest : ℕ) (before : List Row)
      → All IsTidy rs
      → Lacks 10 tail
      → 3 * length rs ≤ length lates
      → run to_lower trim_space (turns ++ rounds lates) (opened highest before (stream rs ++ tail))
        ≡ ok (system [] [] (last_index rs highest) [] (before ++ rows rs) (asked rs highest))
  unfolding opened init new_worker
  served_lem turns lates rs tail highest before tidy no_newline enough =
      let course : IsOnCourse (before ++ rows rs) (asked rs highest) (last_index rs highest) rs []
          highest [] before [] =
        record {
          tidy = tidy;
          fresh = rows rs;
          parsed = parse_all-entries rs tidy;
          in_table = refl;
          in_answers = refl;
          counted = refl;
        } in
      rw (read_lines-stream rs tail tidy no_newline) (
        rw (run-append to_lower trim_space turns (rounds lates) (system rs [] highest [] before []))
          (finished (
            and_then_lem (run to_lower trim_space (rounds lates))
              (run-IsStep turns rs [] highest [] before [] course)
              λ rs' queue' i' buffer' before' answered' c' k.
                rounds-IsStep lates rs' queue' i' buffer' before' answered' c' (omega arith))))

  -- If ToLower leaves the two kinds of messages as they are and TrimSpace takes the newline off a
  -- printable text: when the logger is started on a table with rows and reads a stream of requests
  -- whose texts hold no tab or newline, and whose components are printable, the reader and the
  -- worker may take any turns first: after alternating for three rounds for each request, whichever
  -- timeouts run out, the rows of all entries stand in the table in their order, the queue and the
  -- buffer are empty, each question is answered with the number of the rows that the table has after
  -- the entries before it, and a last line without its newline is dropped.
  pub serving_main_lem :
      (turns : List Turn) (lates : List (Time × Bool)) (rs : List Request) (tail : Text) (row : Row)
      (before : List Row)
      → All IsTidy rs
      → Lacks 10 tail
      → 3 * length rs ≤ length lates
      → (main (row ∷ before) (stream rs ++ tail) >>= λ s.
          run to_lower trim_space (turns ++ rounds lates) s)
        ≡ ok (
            system [] []
              (last_index rs (length (row ∷ before)))
              []
              ((row ∷ before) ++ rows rs)
              (asked rs (length (row ∷ before))))
  unfolding main
  serving_main_lem turns lates rs tail row before =
      served_lem turns lates rs tail (length (row ∷ before)) (row ∷ before)
