-- ===== src/Debugger/Sequence/Widths.antt =====
-- How wide a cell of each row is. Tags are not seen.
use detsys_testkit.Base.{
  ℕ, zero, suc, ◌+◌, ◌-◌, ◌*◌, ◌/◌, ◌^◌, ◌≤◌, ◌<◌, ◌≡◌, ◌≢◌, refl, ap, ◌∙◌, Bool, true, false, not,
  ◌&&◌, String, List, [], ◌∷◌, ◌++◌, some, arith, ◌==◌, nat_eq, contains, length, get_elem?,
  if◌then◌else◌, Result, ok, Bool-cases, inl, inr,
}
use detsys_testkit.Base.Text.{Text, text}
use detsys_testkit.Debugger.Repeat.{pos, minus, write_repeat, copies}
use detsys_testkit.Debugger.Repeat.Laws.{write_repeat_lem}
use detsys_testkit.Debugger.Sequence.{
  glyph, tag, Row, glyphs, ascii, Place, place_eq, ArrowInternal, space, h_line, d_line, edge_cell,
  content_cell, crash_cell, label_cell, loop_cell, line_cell, loop_middle, middle_of,
  strings_repeat, over_gap, over_right,
}

abbrev pub width : Row → ℕ
width [] = 0
width (glyph c ∷ row) = suc (width row)
width (tag t ∷ row) = width row

pub width-append : (a b : Row) → width (a ++ b) ≡ width a + width b
width-append [] b = omega arith
width-append (glyph c ∷ a) b = omega (arith, width-append a b)
width-append (tag t ∷ a) b = width-append a b

width-copies : (n c : ℕ) → width (copies n (glyph c ∷ [])) ≡ n
unfolding copies
width-copies zero c = refl
width-copies (suc n) c = omega (arith, width-copies n c)

width-ascii : (t : Text) → width (ascii t) ≡ length t
width-ascii [] = refl
width-ascii (b ∷ t) = ap suc (width-ascii t)

-- A count that a diagram of reasonable size asks for.
repeat_ok :
    (n c : ℕ) → n < 2 ^ 63 → write_repeat (glyph c ∷ []) (pos n) ≡ ok (copies n (glyph c ∷ []))
repeat_ok n c h = write_repeat_lem (glyph c ∷ []) n (omega arith)

-- A cell that is written, and how wide it is.
abbrev pub IsWide : Result Row → ℕ → Type 0
IsWide cell w = (row : Row) × (cell ≡ ok row) × (width row ≡ w)

loop_middle_wide : (is_top gone here right : Bool) → width (loop_middle is_top gone here right) ≡ 1
unfolding loop_middle
loop_middle_wide is_top gone here right = ground arith

-- The left and the right side of a loop: a corner and a line, or blank.
left_wide :
    (t : Bool) (corner side : Row) (half : ℕ)
    → 1 ≤ half
    → width corner ≡ 1
    → (t ≡ true → width side ≡ half - 1)
    → width (if t then corner ++ side else copies half space) ≡ half
left_wide false corner side half h c e = width-copies half b' '
left_wide true corner side half h c e = omega (arith, width-append corner side, e refl)

right_wide :
    (t : Bool) (corner side : Row) (half : ℕ)
    → 1 ≤ half
    → width corner ≡ 1
    → (t ≡ true → width side ≡ half - 1)
    → width (if t then side ++ corner else copies half space) ≡ half
right_wide false corner side half h c e = width-copies half b' '
right_wide true corner side half h c e = omega (arith, width-append side corner, e refl)

side_ok :
    (here : Bool) (half : ℕ)
    → 1 ≤ half
    → (side : Row) × ((if here then strings_repeat h_line (minus half 1) else ok []) ≡ ok side)
      × (here ≡ true → width side ≡ half - 1)
side_ok false half h = ([], refl, λ e. cc)
side_ok true half h =
    let less : minus half 1 ≡ pos (half - 1) = ground arith in
    (copies (half - 1) h_line, rw less refl, λ e. width-copies (half - 1) 9472)

and_left : (a b : Bool) → (a && b) ≡ true → a ≡ true
and_left a b h = ground arith

module _ (gaps : List ℕ) (i gap : ℕ) (name : Text) (g : get_elem? gaps i ≡ some gap)
    (small : gap < 2 ^ 61) where
  pub edge_cell-IsWide :
      (size : ℕ) (left middle right : String)
      → size < 2 ^ 61
      → width (glyphs left) ≡ 1
      → width (glyphs middle) ≡ 1
      → width (glyphs right) ≡ 1
      → IsWide (edge_cell gaps size left middle right i name) (gap + (2 * ((size - 2) / 2) + 3))
  unfolding edge_cell
  edge_cell-IsWide size left middle right h l m r = (
    copies gap space
        ++ glyphs left
        ++ copies ((size - 2) / 2) h_line
        ++ glyphs middle
        ++ copies ((size - 2) / 2) h_line
        ++ glyphs right,
    rw (g) (
        rw (repeat_ok gap b' ' (omega arith))
          (rw (repeat_ok ((size - 2) / 2) 9472 (omega arith)) refl)),
    omega (arith, width-append, width-copies, l, m, r),
  )

  pub content_cell-IsWide :
      (size : ℕ)
      → size < 2 ^ 61
      → 4 + length name ≤ size
      → IsWide (content_cell gaps size i name) (gap + size)
  unfolding content_cell
  content_cell-IsWide size h fits =
      let free : ℕ = size - (4 + length name) in
      let total : minus size (4 + length name) ≡ pos free = ground arith in
      (
        copies gap space
            ++ glyphs "│ "
            ++ copies (free / 2) space
            ++ ascii name
            ++ copies (free - free / 2) space
            ++ glyphs " │",
        rw (g, total)
            (rw (repeat_ok gap b' ' (omega arith)) (
              rw (repeat_ok (free / 2) b' ' (omega arith))
                (rw (repeat_ok (free - free / 2) b' ' (omega arith)) refl))),
        omega (arith, width-append, width-copies, width-ascii),
      )

  pub crash_cell-IsWide :
      (half : ℕ) (crashes dead : List Place) (part : String)
      → half < 2 ^ 61
      → 2 ≤ half
      → width (glyphs part) ≡ 5
      → IsWide (crash_cell gaps half crashes dead part i name) (gap + (2 * half + 1))
  unfolding crash_cell
  crash_cell-IsWide half crashes dead part h two p =
      let before : minus (half + gap) 2 ≡ pos (half + gap - 2) = ground arith in
      let after : minus half 2 ≡ pos (half - 2) = ground arith in
      let middle : Row =
        if contains crashes (some i)
        then tag (text "[red]") ∷ glyphs part ++ tag (text "[-]") ∷ []
        else if contains dead (some i)
        then glyphs "     "
        else glyphs "  │  " in
      let five : width middle ≡ 5 =
        ground (arith, width-append (glyphs part) (tag (text "[-]") ∷ [])) in
      (
        copies (half + gap - 2) space ++ middle ++ copies (half - 2) space,
        rw (g, before, after)
            (rw (repeat_ok (half + gap - 2) b' ' (omega arith))
              (rw (repeat_ok (half - 2) b' ' (omega arith)) refl)),
        omega (arith, width-append, width-copies, five),
      )

  pub loop_cell-IsWide :
      (arr : ArrowInternal) (half : ℕ) (dead : List Place) (is_top : Bool)
      → 1 ≤ half
      → IsWide (loop_cell arr gaps half dead is_top i name) (gap + (2 * half + 1))
  unfolding loop_cell
  loop_cell-IsWide arr half dead is_top h =
      let here : Bool = i == arr.from in
      let (side, s, w) = side_ok here half h in
      let left_corner : Row = if is_top then glyphs "╭" else glyphs "╰" in
      let right_corner : Row = if is_top then glyphs "╮" else glyphs "╯" in
      let left : Row =
        if here && not arr.going_right then left_corner ++ side else copies half space in
      let right : Row =
        if here && arr.going_right then side ++ right_corner else copies half space in
      let middle : Row = loop_middle is_top (contains dead (some i)) here arr.going_right in
      let l : width left ≡ half =
        left_wide (here && not arr.going_right) left_corner side half h (ground arith)
          (λ e. w (and_left here _ e)) in
      let r : width right ≡ half =
        right_wide (here && arr.going_right) right_corner side half h (ground arith)
          (λ e. w (and_left here _ e)) in
      let m : width middle ≡ 1 =
        loop_middle_wide is_top (contains dead (some i)) here arr.going_right in
      (
        copies gap space ++ left ++ middle ++ right,
        rw (g) (rw (repeat_ok gap b' ' (omega arith)) (rw (s) refl)),
        omega (arith, width-append, width-copies, l, r, m),
      )

  pub middle_wide : (arr : ArrowInternal) (gone : Bool) → width (middle_of arr gone i) ≡ 1
  unfolding middle_of
  middle_wide arr gone = ground arith

  line_copies : (n : ℕ) (dropped : Bool) → width (copies n (if dropped then d_line else h_line)) ≡ n
  line_copies n true = width-copies n 9548
  line_copies n false = width-copies n 9472

  -- The gap before a node, filled with the line or blank.
  filled :
      (over dropped : Bool)
      → IsWide
          (write_repeat (if over then (if dropped then d_line else h_line) else space) (pos gap))
          gap
  filled true true = (copies gap d_line, repeat_ok gap 9548 (omega arith), width-copies gap 9548)
  filled true false = (copies gap h_line, repeat_ok gap 9472 (omega arith), width-copies gap 9472)
  filled false dropped = (copies gap space, repeat_ok gap b' ' (omega arith), width-copies gap b' ')

  filling :
      (arr : ArrowInternal)
      → IsWide
          (write_repeat
            (if over_gap arr i then (if arr.dropped then d_line else h_line) else space)
            (pos gap))
          gap
  filling arr = filled (over_gap arr i) arr.dropped

  pub line_cell-IsWide :
      (arr : ArrowInternal) (half : ℕ) (dead : List Place)
      → IsWide (line_cell arr gaps half dead i name) (gap + (2 * half + 1))
  unfolding line_cell
  line_cell-IsWide arr half dead =
      let line : Row = if arr.dropped then d_line else h_line in
      let (before, e, w) = filling arr in
      let full : width (copies half line) ≡ half = line_copies half arr.dropped in
      let left : Row = if over_gap arr i then copies half line else copies half space in
      let right : Row = if over_right arr i then copies half line else copies half space in
      let middle : Row = middle_of arr (contains dead (some i)) i in
      let l : width left ≡ half = ground (arith, full, width-copies half b' ') in
      let r : width right ≡ half = ground (arith, full, width-copies half b' ') in
      let m : width middle ≡ 1 = middle_wide arr (contains dead (some i)) in
      (
        before ++ left ++ middle ++ right,
        rw (g) (rw (e) refl),
        omega (arith, width-append, w, l, r, m),
      )

  bar_wide : (gone : Bool) → width (if gone then space else glyphs "│") ≡ 1
  bar_wide true = refl
  bar_wide false = refl

  -- The cell that holds the message.
  message-IsWide :
      (arr : ArrowInternal) (half : ℕ) (dead : List Place)
      → half < 2 ^ 61
      → (i == arr.gap_index) ≡ true
      → length arr.message ≤ 2 * half + gap
      → width arr.annotation_left ≡ 0
      → width arr.annotation_right ≡ 0
      → IsWide (label_cell arr gaps half dead i name) (gap + (2 * half + 1))
  unfolding label_cell
  message-IsWide arr half dead h here fits l r =
      let free : ℕ = 2 * half + gap - length arr.message in
      let total : minus (2 * half + gap) (length arr.message) ≡ pos free = ground arith in
      let bar : Row = if contains dead (some i) then space else glyphs "│" in
      (
        (copies (free / 2) space
              ++ arr.annotation_left
              ++ ascii arr.message
              ++ arr.annotation_right
              ++ copies (free - free / 2) space)
            ++ bar,
        rw (g, here, total)
            (rw (repeat_ok (free / 2) b' ' (omega arith))
              (rw (repeat_ok (free - free / 2) b' ' (omega arith)) refl)),
        omega (
          arith,
          width-append,
          width-copies,
          width-ascii,
          l,
          r,
          bar_wide (contains dead (some i)),
        ),
      )

  -- A cell of the same row without the message: the first has no left half.
  blank-IsWide :
      (arr : ArrowInternal) (half : ℕ) (dead : List Place)
      → half < 2 ^ 61
      → (i == arr.gap_index) ≡ false
      → IsWide
          (label_cell arr gaps half dead i name)
          (gap + (if i == 0 then half + 1 else 2 * half + 1))
  unfolding label_cell
  blank-IsWide arr half dead h away =
      let n : ℕ = half + gap + (if i == 0 then 0 else half) in
      let bar : Row = if contains dead (some i) then space else glyphs "│" in
      let small_n : n < 2 ^ 63 = ground arith in
      let w : n + 1 ≡ gap + (if i == 0 then half + 1 else 2 * half + 1) = ground arith in
      (
        copies n space ++ bar,
        rw (g, away) (rw (repeat_ok n b' ' small_n) refl),
        omega (arith, width-append, width-copies, w, bar_wide (contains dead (some i))),
      )

  -- A cell of the row of a message that is not in the first gap.
  pub label_cell-IsWide :
      (arr : ArrowInternal) (half : ℕ) (dead : List Place)
      → half < 2 ^ 61
      → arr.gap_index ≢ 0
      → (arr.gap_index ≡ i → length arr.message ≤ 2 * half + gap)
      → width arr.annotation_left ≡ 0
      → width arr.annotation_right ≡ 0
      → IsWide
          (label_cell arr gaps half dead i name)
          (gap + (if i == 0 then half + 1 else 2 * half + 1))
  label_cell-IsWide arr half dead h later fits l r = elim (Bool-cases (i == arr.gap_index)) [
    | inr away ↦ blank-IsWide arr half dead h away
    | inl here ↦
        let same : arr.gap_index ≡ i = ground arith in
        let (row, e, w) = message-IsWide arr half dead h here (fits same) l r in
        (row, e, w ∙ ground arith)
  ]
