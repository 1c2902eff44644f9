-- ===== src/Debugger/Sequence/Boxes.antt =====
-- The size of the boxes, and their rows.
use detsys_testkit.Base.{
  ℕ, ◌+◌, ◌*◌, ◌/◌, ◌%◌, ◌^◌, ◌≤◌, ◌<◌, ◌≡◌, refl, Bool, true, false, String, List, [], ◌∷◌, arith,
  length, All, if◌then◌else◌, Result, ok, ◌>>=◌,
}
use detsys_testkit.Base.Text.{Text}
use detsys_testkit.Debugger.Sequence.{
  Row, larger, size_of, box_size_from, box_size, each, edge_cell, content_cell, append_boxes,
  glyphs,
}
use detsys_testkit.Debugger.Sequence.Widths.{width, IsWide, edge_cell-IsWide, content_cell-IsWide}
use detsys_testkit.Debugger.Sequence.Layout.{IsLaidOut, row-IsWide, full_width}

-- What the loop over the names keeps: an odd size that is below the bound and not below the names'.
record IsSize (size : ℕ) (names : List Text) (result : ℕ) : Type 0 where
  odd : result % 2 ≡ 1
  grown : size ≤ result
  holds : All (λ name. size_of name ≤ result) names
  bounded : result < 2 ^ 61

at_least :
    (a b : ℕ) (names : List Text)
    → a ≤ b
    → All (λ name. size_of name ≤ a) names
    → All (λ name. size_of name ≤ b) names
at_least a b [] h p = tt
at_least a b (name ∷ names) h (p, ps) = (omega arith, at_least a b names h ps)

box_size_from_lem :
    (size : ℕ) (names : List Text)
    → size % 2 ≡ 1
    → size < 2 ^ 61
    → All (λ name. length name < 2 ^ 60) names
    → IsSize size names (box_size_from size names)
unfolding box_size_from
box_size_from_lem size [] o b s = record { odd = o; grown = omega arith; holds = tt; bounded = b }
box_size_from_lem size (name ∷ names) o b (p, ps) =
    let odd : larger size (size_of name) % 2 ≡ 1 = ground arith in
    let small : larger size (size_of name) < 2 ^ 61 = ground arith in
    let first : size ≤ larger size (size_of name) = ground arith in
    let this : size_of name ≤ larger size (size_of name) = ground arith in
    let v = box_size_from_lem (larger size (size_of name)) names odd small ps in
    record {
      odd = v.odd;
      grown = omega (arith, v.grown);
      holds = (omega (arith, v.grown), v.holds);
      bounded = v.bounded;
    }

-- A box of some names is twice its half and the middle.
pub record IsBox (names : List Text) (half : ℕ) : Type 0 where
  pub size : box_size names ≡ 2 * half + 1
  pub two : 2 ≤ half
  pub small : half < 2 ^ 60
  pub named : All (λ name. 4 + length name ≤ 2 * half + 1) names

named_of_size :
    (size half : ℕ) (names : List Text)
    → size ≡ 2 * half + 1
    → All (λ name. size_of name ≤ size) names
    → All (λ name. 4 + length name ≤ 2 * half + 1) names
named_of_size size half [] e p = tt
named_of_size size half (name ∷ names) e (p, ps) = (omega arith, named_of_size size half names e ps)

pub box_size-IsBox :
    (names : List Text)
    → 1 ≤ length names
    → All (λ name. length name < 2 ^ 60) names
    → IsBox names (box_size names / 2)
unfolding box_size
box_size-IsBox [] one s = absurd (omega arith)
box_size-IsBox (name ∷ names) one s =
    let v = box_size_from_lem 3 (name ∷ names) refl (omega arith) s in
    let half : ℕ = box_size_from 3 (name ∷ names) / 2 in
    let e : box_size_from 3 (name ∷ names) ≡ 2 * half + 1 = omega (arith, v.odd) in
    let least : size_of name ≤ box_size_from 3 (name ∷ names) = v.holds.0 in
    let small : box_size_from 3 (name ∷ names) < 2 ^ 61 = v.bounded in
    record {
      size = e;
      two = omega arith;
      small = omega arith;
      named = named_of_size (box_size_from 3 (name ∷ names)) half (name ∷ names) e v.holds;
    }

one_glyph : (b : Bool) → width (glyphs (if b then "─" else "┴")) ≡ 1
one_glyph true = refl
one_glyph false = refl

one_glyph' : (b : Bool) → width (glyphs (if b then "┬" else "─")) ≡ 1
one_glyph' true = refl
one_glyph' false = refl

edge_row-IsWide :
    (names : List Text) (gaps : List ℕ) (half : ℕ)
    → IsLaidOut names gaps half
    → (left middle right : String) → width (glyphs left) ≡ 1
    → width (glyphs middle) ≡ 1
    → width (glyphs right) ≡ 1
    → IsWide
        (each (edge_cell gaps (2 * half + 1) left middle right) 0 names)
        (full_width gaps half (length names))
edge_row-IsWide names gaps half v left middle right l m r =
    row-IsWide names gaps half v (edge_cell gaps (2 * half + 1) left middle right)
      (λ j gap name g s p.
        let (row, e, w) =
          edge_cell-IsWide gaps j gap name g s (2 * half + 1) left middle right
            (omega (arith, v.small)) l m r in
        (row, e, omega (arith, w, v.two)))

content_row-IsWide :
    (names : List Text) (gaps : List ℕ) (half : ℕ)
    → IsLaidOut names gaps half
    → IsWide (each (content_cell gaps (2 * half + 1)) 0 names) (full_width gaps half (length names))
content_row-IsWide names gaps half v =
    row-IsWide names gaps half v (content_cell gaps (2 * half + 1)) (λ j gap name g s p.
      content_cell-IsWide gaps j gap name g s (2 * half + 1) (omega (arith, v.small)) p)

-- Three rows that are written, one after the other.
three_rows :
    (first second third : Result Row) (a b c : Row)
    → first ≡ ok a
    → second ≡ ok b
    → third ≡ ok c
    → (first >>= λ top. second >>= λ content. third >>= λ bottom. ok (top ∷ content ∷ bottom ∷ []))
      ≡ ok (a ∷ b ∷ c ∷ [])
three_rows first second third a b c e f g = rw (e) (rw (f) (rw (g) refl))

-- The rows of the boxes are as wide as the diagram.
pub append_boxes_wide :
    (is_top : Bool) (names : List Text) (gaps : List ℕ) (half : ℕ)
    → box_size names ≡ 2 * half + 1
    → (v : IsLaidOut names gaps half)
    → (rows : List Row) × (append_boxes is_top names gaps ≡ ok rows)
      × (length rows ≡ 3)
      × All (λ row. width row ≡ full_width gaps half (length names)) rows
unfolding append_boxes
append_boxes_wide is_top names gaps half size v =
    let (top, e, t) =
      edge_row-IsWide names gaps half v "╭" (if is_top then "─" else "┴") "╮" refl
        (one_glyph is_top) refl in
    let (content, f, c) = content_row-IsWide names gaps half v in
    let (bottom, g, b) =
      edge_row-IsWide names gaps half v "╰" (if is_top then "┬" else "─") "╯" refl
        (one_glyph' is_top) refl in
    (
      top ∷ content ∷ bottom ∷ [],
      rw size (three_rows _ _ _ top content bottom e f g),
      refl,
      (t, (c, (b, tt))),
    )
