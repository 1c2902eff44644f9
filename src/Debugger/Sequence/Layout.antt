-- ===== src/Debugger/Sequence/Layout.antt =====
-- The rows of a diagram whose gaps hold the messages: each is written, and they are equally wide.
use mathlib.Core.Path.{subst}
use detsys_testkit.Base.{
  ℕ, zero, suc, ◌+◌, ◌-◌, ◌*◌, ◌^◌, ◌≤◌, ◌<◌, ◌≡◌, ◌≢◌, refl, ◌∙◌, Bool, true, false, ◌⊎◌, inl, inr,
  List, [], ◌∷◌, ◌++◌, Option, none, some, arith, ◌==◌, nat_eq, length, length-append, get_elem?,
  All, All-append, if◌then◌else◌, Result, ok, Bool-cases, ◌||◌, String,
}
use detsys_testkit.Base.Dict
use detsys_testkit.Base.Text.{Text}
use detsys_testkit.Debugger.Sequence.{
  Row, Place, ArrowInternal, each, crash_cell, label_cell, loop_cell, line_cell, glyphs,
}
use detsys_testkit.Debugger.Sequence.Widths.{
  width, width-append, IsWide, crash_cell-IsWide, loop_cell-IsWide, line_cell-IsWide,
  label_cell-IsWide,
}
use detsys_testkit.Debugger.Sequence.Diagram.{
  CrashInformation, crash_rows, arrow_rows, or_empty, append_arrows,
}

-- The sum of a function over the numbers from an index on.
abbrev pub sum : (ℕ → ℕ) → ℕ → ℕ → ℕ
sum w i zero = 0
sum w i (suc n) = w i + sum w (suc i) n

each-IsWide :
    (cell : ℕ → Text → Result Row) (P : Text → Type 0) (w : ℕ → ℕ) (i : ℕ) (names : List Text)
    → All P names
    → ((j : ℕ) (name : Text) → i ≤ j → j < i + length names → P name → IsWide (cell j name) (w j))
    → IsWide (each cell i names) (sum w i (length names))
unfolding each
each-IsWide cell P w i [] ps h = ([], refl, refl)
each-IsWide cell P w i (name ∷ names) (p, ps) h =
    let (first, e, v) = h i name (omega arith) (omega arith) p in
    let (rest, f, u) =
      each-IsWide cell P w (suc i) names ps (λ j n le lt q. h j n (omega arith) (omega arith) q) in
    (first ++ rest, rw (e) (rw (f) refl), omega (arith, width-append first rest, v, u))

abbrev pub gap_of : List ℕ → ℕ → ℕ
gap_of [] i = 0
gap_of (g ∷ gaps) zero = g
gap_of (g ∷ gaps) (suc i) = gap_of gaps i

pub get_gap : (gaps : List ℕ) (i : ℕ) → i < length gaps → get_elem? gaps i ≡ some (gap_of gaps i)
get_gap [] i h = absurd (omega arith)
get_gap (g ∷ gaps) zero h = refl
get_gap (g ∷ gaps) (suc i) h = get_gap gaps i (omega arith)

small_gap : (gaps : List ℕ) (i : ℕ) → All (λ gap. gap < 2 ^ 61) gaps → gap_of gaps i < 2 ^ 61
small_gap [] i h = omega arith
small_gap (g ∷ gaps) zero (p, h) = p
small_gap (g ∷ gaps) (suc i) (p, h) = small_gap gaps i h

-- Boxes that hold the names, and a gap for each.
pub record IsLaidOut (names : List Text) (gaps : List ℕ) (half : ℕ) : Type 0 where
  pub two : 2 ≤ half
  pub small : half < 2 ^ 60
  pub named : All (λ name. 4 + length name ≤ 2 * half + 1) names
  pub paired : length gaps ≡ length names
  pub small_gaps : All (λ gap. gap < 2 ^ 61) gaps

-- An arrow between nodes whose message fits its gap.
pub record IsPlaced (gaps : List ℕ) (half : ℕ) (arr : ArrowInternal) : Type 0 where
  pub later : arr.gap_index ≢ 0
  pub fits : length arr.message ≤ 2 * half + gap_of gaps arr.gap_index
  pub unseen_left : width arr.annotation_left ≡ 0
  pub unseen_right : width arr.annotation_right ≡ 0

-- The width of a row, and of the row of a message, which lacks the left half of the first box.
abbrev pub full_width : List ℕ → ℕ → ℕ → ℕ
full_width gaps half n = sum (λ j. gap_of gaps j + (2 * half + 1)) 0 n

abbrev label_width : List ℕ → ℕ → ℕ → ℕ
label_width gaps half j = gap_of gaps j + (if j == 0 then half + 1 else 2 * half + 1)

sum_later :
    (gaps : List ℕ) (half i n : ℕ)
    → sum (label_width gaps half) (suc i) n ≡ sum (λ j. gap_of gaps j + (2 * half + 1)) (suc i) n
sum_later gaps half i zero = refl
sum_later gaps half i (suc n) = ground (arith, sum_later gaps half (suc i) n)

sum_label :
    (gaps : List ℕ) (half n : ℕ)
    → 1 ≤ n
    → sum (label_width gaps half) 0 n ≡ full_width gaps half n - half
unfolding nat_eq
sum_label gaps half zero h = absurd (omega arith)
sum_label gaps half (suc n) h = omega (arith, sum_later gaps half 0 n)

module _ (names : List Text) (gaps : List ℕ) (half : ℕ) (v : IsLaidOut names gaps half) where
  abbrev Fits : Text → Type 0
  Fits name = 4 + length name ≤ 2 * half + 1

  -- A row whose cells are as wide as a box and its gap.
  pub row-IsWide :
      (cell : ℕ → Text → Result Row)
      → ((j gap : ℕ) (name : Text)
          → get_elem? gaps j ≡ some gap
          → gap < 2 ^ 61
          → Fits name
          → IsWide (cell j name) (gap + (2 * half + 1)))
      → IsWide (each cell 0 names) (full_width gaps half (length names))
  row-IsWide cell h =
      each-IsWide cell Fits (λ j. gap_of gaps j + (2 * half + 1)) 0 names v.named
        (λ j name le lt p.
          h j (gap_of gaps j) name (get_gap gaps j (omega (arith, v.paired)))
            (small_gap gaps j v.small_gaps) p)

  pub loop_row-IsWide :
      (arr : ArrowInternal) (dead : List Place) (is_top : Bool)
      → IsWide
          (each (loop_cell arr gaps half dead is_top) 0 names)
          (full_width gaps half (length names))
  loop_row-IsWide arr dead is_top =
      row-IsWide (loop_cell arr gaps half dead is_top) (λ j gap name g s p.
        loop_cell-IsWide gaps j gap name g s arr half dead is_top (omega (arith, v.two)))

  pub line_row-IsWide :
      (arr : ArrowInternal) (dead : List Place)
      → IsWide (each (line_cell arr gaps half dead) 0 names) (full_width gaps half (length names))
  line_row-IsWide arr dead =
      row-IsWide (line_cell arr gaps half dead)
        (λ j gap name g s p. line_cell-IsWide gaps j gap name g s arr half dead)

  pub label_row-IsWide :
      (arr : ArrowInternal) (dead : List Place)
      → 1 ≤ length names
      → IsPlaced gaps half arr
      → IsWide
          (each (label_cell arr gaps half dead) 0 names)
          (full_width gaps half (length names) - half)
  label_row-IsWide arr dead one p =
      let (row, e, w) =
        each-IsWide (label_cell arr gaps half dead) Fits (label_width gaps half) 0 names v.named
          (λ j name le lt q.
            label_cell-IsWide gaps j (gap_of gaps j) name (get_gap gaps j (omega (arith, v.paired)))
              (small_gap gaps j v.small_gaps) arr half dead (omega (arith, v.small)) p.later
              (λ same.
                let fits : length arr.message ≤ 2 * half + gap_of gaps arr.gap_index = p.fits in
                subst (λ k. length arr.message ≤ 2 * half + gap_of gaps k) same fits)
              p.unseen_left p.unseen_right) in
      (row, e, w ∙ sum_label gaps half (length names) one)

  -- Every row is as wide as the diagram, or lacks half a box.
  abbrev pub Aligned : List Row → Type 0
  Aligned = All (λ row.
      (width row ≡ full_width gaps half (length names))
      ⊎ (width row ≡ full_width gaps half (length names) - half))

  crash_rows_wide :
      (crashes : Option (List Place)) (dead : List Place)
      → (rows : List Row) × (crash_rows names gaps half crashes dead ≡ ok rows) × Aligned rows
  unfolding crash_rows
  crash_rows_wide none dead = ([], refl, tt)
  crash_rows_wide (some crashes) dead =
      let wide = λ (part : String) (five : width (glyphs part) ≡ 5).
        row-IsWide (crash_cell gaps half crashes dead part) (λ j gap name g s p.
          crash_cell-IsWide gaps j gap name g s half crashes dead part (omega (arith, v.small))
            v.two five) in
      let (top, e, t) = wide "╭─┴─╮" refl in
      let (middle, f, m) = wide "│ ☠ │" refl in
      let (bottom, g, b) = wide "╰───╯" refl in
      (top ∷ middle ∷ bottom ∷ [], rw (e) (rw (f) (rw (g) refl)), (inl t, (inl m, (inl b, tt))))

  arrow_rows_wide :
      (arr : ArrowInternal) (dead : List Place)
      → (rows : List Row) × (arrow_rows names gaps half arr dead ≡ ok rows) × Aligned rows
  unfolding arrow_rows
  arrow_rows_wide arr dead = elim (Bool-cases (arr.to == arr.from)) [
    | inl same ↦
        let (top, e, t) = loop_row-IsWide arr dead true in
        let (bottom, f, b) = loop_row-IsWide arr dead false in
        (top ∷ bottom ∷ [], rw (same, e, f) refl, (inl t, (inl b, tt)))
    | inr other ↦
        let (row, e, w) = line_row-IsWide arr dead in (row ∷ [], rw (other, e) refl, (inl w, tt))
  ]

  -- The rows of one arrow that is placed, before those of the arrows after it.
  pub arrow_step :
      (crashes : CrashInformation) (dead : List Place) (arr : ArrowInternal)
      → 1 ≤ length names
      → IsPlaced gaps half arr
      → (rows : List Row) × ((found : Bool) (arrows : List ArrowInternal) (rest : List Row)
            (line : ℕ)
          → append_arrows names gaps half crashes
              (dead ++ or_empty (Dict.lookup arr.at crashes))
              (found || arr.is_line)
              arrows
            ≡ ok (rest, line)
          → append_arrows names gaps half crashes dead found (arr ∷ arrows)
            ≡ ok (rows ++ rest, (if found || arr.is_line then 0 else length rows) + line))
        × Aligned rows
  unfolding append_arrows
  arrow_step crashes dead arr one p =
      let dead' : List Place = dead ++ or_empty (Dict.lookup arr.at crashes) in
      let (crashed, e, c) = crash_rows_wide (Dict.lookup arr.at crashes) dead' in
      let (label, f, l) = label_row-IsWide arr dead' one p in
      let (drawn, g, d) = arrow_rows_wide arr dead' in
      (
        crashed ++ label ∷ drawn,
        (λ found arrows rest line h. rw (e) (rw (f) (rw (g) (rw (h) refl)))),
        All-append _ crashed (label ∷ drawn) c (inr l, d),
      )

  -- The rows of arrows that are placed are written, and aligned.
  pub append_arrows_wide :
      (crashes : CrashInformation) (dead : List Place) (found : Bool) (arrows : List ArrowInternal)
      → 1 ≤ length names
      → All (IsPlaced gaps half) arrows
      → (rows : List Row) × (line : ℕ) × (append_arrows names gaps half crashes dead found arrows
          ≡ ok (rows, line))
        × (line ≤ length rows)
        × Aligned rows
  unfolding append_arrows
  append_arrows_wide crashes dead found [] one ps = ([], 0, refl, omega arith, tt)
  append_arrows_wide crashes dead found (arr ∷ arrows) one (p, ps) =
      let (first, step, a) = arrow_step crashes dead arr one p in
      let (rest, line, h, few, r) =
        append_arrows_wide crashes (dead ++ or_empty (Dict.lookup arr.at crashes))
          (found || arr.is_line) arrows one ps in
      (
        first ++ rest,
        (if found || arr.is_line then 0 else length first) + line,
        step found arrows rest line h,
        ground (arith, few, length-append first rest),
        All-append _ first rest a r,
      )
