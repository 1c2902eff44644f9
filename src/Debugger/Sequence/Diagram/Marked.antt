-- ===== src/Debugger/Sequence/Diagram/Marked.antt =====
-- The line of a diagram: how many rows stand before those of the marked arrow.
use detsys_testkit.Base.{
  ℕ, ◌+◌, ◌≤◌, ◌≡◌, refl, ap, ◌∙◌, true, false, ◌||◌, List, [], ◌∷◌, ◌++◌, arith, length,
  length-append, All, if◌then◌else◌, ok, nat_eq, append_assoc,
}
use detsys_testkit.Base.Dict
use detsys_testkit.Base.Text.{Text}
use detsys_testkit.Debugger.Sequence.{Row, Place, ArrowInternal}
use detsys_testkit.Debugger.Sequence.Layout.{IsLaidOut, IsPlaced, arrow_step}
use detsys_testkit.Debugger.Sequence.Diagram.{CrashInformation, or_empty, append_arrows}

module _ (names : List Text) (gaps : List ℕ) (half : ℕ) (v : IsLaidOut names gaps half)
    (one : 1 ≤ length names) (crashes : CrashInformation) where
  -- Nothing is counted once the line is found.
  found_line :
      (dead : List Place) (arrows : List ArrowInternal)
      → All (IsPlaced gaps half) arrows
      → (rows : List Row) × (append_arrows names gaps half crashes dead true arrows ≡ ok (rows, 0))
  unfolding append_arrows
  found_line dead [] ps = ([], refl)
  found_line dead (arr ∷ arrows) (p, ps) =
      let (first, step, a) = arrow_step names gaps half v crashes dead arr one p in
      let (rest, h) = found_line (dead ++ or_empty (Dict.lookup arr.at crashes)) arrows ps in
      (first ++ rest, step true arrows rest 0 h)

  -- For arrows that fit a layout, the line that is returned is the number of rows which the arrows
  -- before the marked one take.
  pub marked_line :
      (dead : List Place) (before after : List ArrowInternal) (arr : ArrowInternal)
      → All (IsPlaced gaps half) before
      → IsPlaced gaps half arr
      → All (IsPlaced gaps half) after
      → All (λ (a : ArrowInternal). a.is_line ≡ false) before
      → arr.is_line ≡ true
      → (first : List Row) × (rest : List Row) × (append_arrows names gaps half crashes dead false
            before
          ≡ ok (first, length first))
        × (append_arrows names gaps half crashes dead false (before ++ arr ∷ after)
            ≡ ok (first ++ rest, length first))
  unfolding append_arrows
  marked_line dead [] after arr ps p qs un marked =
      let (first, step, a) = arrow_step names gaps half v crashes dead arr one p in
      let (rest, h) = found_line (dead ++ or_empty (Dict.lookup arr.at crashes)) after qs in
      let e = step false after rest 0 (rw marked h) in ([], first ++ rest, refl, e ∙ rw marked refl)
  marked_line dead (a ∷ before) after arr (b, ps) p qs (u, un) marked =
      let (here, step, al) = arrow_step names gaps half v crashes dead a one b in
      let (first, rest, e, f) =
        marked_line (dead ++ or_empty (Dict.lookup a.at crashes)) before after arr ps p qs un
          marked in
      let total : (if false || a.is_line then 0 else length here) + length first
          ≡ length (here ++ first) =
        rw (u) (omega (arith, length-append here first)) in
      (
        here ++ first,
        rest,
        step false before first (length first) (rw (u) e) ∙ ap (λ n. ok (here ++ first, n)) total,
        step false (before ++ arr ∷ after) (first ++ rest) (length first) (rw (u) f)
            ∙ rw (total, append_assoc here first rest) refl,
      )
