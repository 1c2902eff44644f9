-- ===== src/Debugger/Application/Window.antt =====
-- The lines that `redraw` shows: within the slice's bounds, no more than fit, and the marked one among them.
use detsys_testkit.Base.{
  ℕ, zero, suc, ◌+◌, ◌-◌, ◌/◌, ◌≤◌, ◌<◌, ◌≡◌, refl, ap, ◌∙◌, true, false, ◌&&◌, inl, inr, List, [],
  ◌∷◌, ◌++◌, arith, ltb, leb, length, get_elem?, ok, Bool-cases,
}
use detsys_testkit.Debugger.Repeat.{pos, minus, take}
use detsys_testkit.Debugger.Sequence.{Row, Glyph, glyph}
use detsys_testkit.Debugger.Sequence.Diagram.{joined}
use detsys_testkit.Debugger.Application.{split_after, onto, drop, slice, window, min, is_newline}

length-take : {A : Type 0} → (n : ℕ) (xs : List A) → length (take n xs) ≤ n
length-take zero xs = omega arith
length-take (suc n) [] = omega arith
length-take (suc n) (x ∷ xs) = omega (arith, length-take n xs)

get_elem?-take :
    {A : Type 0} → (n i : ℕ) (xs : List A) → i < n → get_elem? (take n xs) i ≡ get_elem? xs i
get_elem?-take zero i xs h = absurd (omega arith)
get_elem?-take (suc n) i [] h = refl
get_elem?-take (suc n) zero (x ∷ xs) h = refl
get_elem?-take (suc n) (suc i) (x ∷ xs) h = get_elem?-take n i xs (omega arith)

get_elem?-drop :
    {A : Type 0} → (n i : ℕ) (xs : List A) → get_elem? (drop n xs) i ≡ get_elem? xs (n + i)
get_elem?-drop zero i xs = ap (get_elem? xs) (omega arith)
get_elem?-drop (suc n) i [] = refl
get_elem?-drop (suc n) i (x ∷ xs) =
    get_elem?-drop n i xs
    ∙ ap (get_elem? (x ∷ xs)) (let e : suc (n + i) ≡ suc n + i = omega arith in e)

slice_lem :
    {A : Type 0}
    → (xs : List A) (from to i j : ℕ) → from + i ≡ j
    → from + i < to
    → to ≤ length xs
    → (shown : List A) × (slice xs from to ≡ ok shown)
      × (length shown ≤ to - from)
      × (get_elem? shown i ≡ get_elem? xs j)
slice_lem xs from to i j e h t =
    let inside : (leb from to && leb to (length xs)) ≡ true = ground arith in
    (
      take (to - from) (drop from xs),
      rw inside refl,
      length-take (to - from) (drop from xs),
      get_elem?-take (to - from) i (drop from xs) (omega arith)
          ∙ get_elem?-drop from i xs
          ∙ ap (get_elem? xs) e,
    )

-- For a line that exists and a height of at least two, the lines that redraw cuts out are within the
-- bounds, no more than the height less one, and the given line is among them.
pub window_lem :
    {A : Type 0}
    → (lines : List A) (line height : ℕ) → line < length lines
    → 2 ≤ height
    → (shown : List A) × (i : ℕ) × (window lines line height ≡ ok shown)
      × (length shown ≤ height - 1)
      × (get_elem? shown i ≡ get_elem? lines line)
unfolding window
window_lem lines line height h two =
    let viewed = height - 1 in
    let half = viewed / 2 in
    let e : minus height 1 ≡ pos (height - 1) = ground arith in
    let fine : ltb (length lines) line ≡ false = ground arith in
    elim (Bool-cases (ltb line half)) [
      | inl near ↦
          let (shown, f, few, g) =
            slice_lem lines 0 (min viewed (length lines)) line line (omega arith) (ground arith)
              (ground arith) in
          (shown, line, rw (fine, e, near) f, ground (arith, few), g)
      | inr far ↦
          let to = min (line + (viewed - half)) (length lines) in
          let (shown, f, few, g) =
            slice_lem lines (line - half) to half line (ground arith) (ground arith)
              (ground arith) in
          (shown, half, rw (fine, e, far) f, ground (arith, few), g)
    ]

-- The text of rows has a line for each of them at least.
onto_same : (g : Glyph) (lines : List Row) → 1 ≤ length lines → length (onto g lines) ≡ length lines
onto_same g [] h = absurd (omega arith)
onto_same g (line ∷ lines) h = refl

split_after_some : (row : Row) → 1 ≤ length (split_after row)
unfolding split_after
split_after_some [] = omega arith
split_after_some (g ∷ row) = ground (arith, split_after_some row, onto_same g (split_after row))

split_after_more :
    (g : Glyph) (row : Row) → length (split_after row) ≤ length (split_after (g ∷ row))
unfolding split_after
split_after_more g row = ground (arith, split_after_some row, onto_same g (split_after row))

split_after-append : (a b : Row) → length (split_after b) ≤ length (split_after (a ++ b))
split_after-append [] b = omega arith
split_after-append (g ∷ a) b = omega (arith, split_after-append a b, split_after_more g (a ++ b))

split_after_newline :
    (row : Row) → length (split_after (glyph 10 ∷ row)) ≡ suc (length (split_after row))
unfolding split_after is_newline
split_after_newline row = refl

pub split_after-joined : (rows : List Row) → length rows ≤ length (split_after (joined rows))
unfolding joined
split_after-joined [] = omega arith
split_after-joined (row ∷ []) = split_after_some row
split_after-joined (row ∷ next ∷ rows) = omega (
  arith,
  split_after-append row (glyph 10 ∷ joined (next ∷ rows)),
  split_after_newline (joined (next ∷ rows)),
  split_after-joined (next ∷ rows),
)
