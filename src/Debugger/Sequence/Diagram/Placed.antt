-- ===== src/Debugger/Sequence/Diagram/Placed.antt =====
-- The arrows of a diagram with two names or more are placed, and the whole diagram is drawn and aligned.
use detsys_testkit.Base.{
  ℕ, zero, suc, ◌+◌, ◌-◌, ◌*◌, ◌/◌, ◌^◌, ◌≤◌, ◌<◌, ◌≡◌, refl, ap, sym, true, false, ◌⊎◌, inl, List,
  [], ◌∷◌, ◌++◌, arith, nat_eq, length, length-append, All, All-append, Result, ok,
}
use detsys_testkit.Base.Text.{Text}
use detsys_testkit.Debugger.Sequence.{Row, Arrow, ArrowInternal, box_size}
use detsys_testkit.Debugger.Sequence.Widths.{width}
use detsys_testkit.Debugger.Sequence.Layout.{
  gap_of, IsLaidOut, IsPlaced, full_width, append_arrows_wide,
}
use detsys_testkit.Debugger.Sequence.Boxes.{box_size-IsBox, append_boxes_wide}
use detsys_testkit.Debugger.Sequence.Diagram.{
  CrashInformation, DrawSettings, shrink, zeros, draw_rows, draw_diagram, names_from,
  crash_information,
}
use detsys_testkit.Debugger.Sequence.Diagram.Names.{names_from-HasEnds, names_from_all}
use detsys_testkit.Debugger.Sequence.Diagram.Gaps.{IsSmall, IsWanted, convert_all_lem}

length-shrink : (size : ℕ) (gaps : List ℕ) → length (shrink size gaps) ≡ length gaps
unfolding shrink
length-shrink size [] = refl
length-shrink size (g ∷ gaps) = ap suc (length-shrink size gaps)

shrink-IsSmall : (size : ℕ) (gaps : List ℕ) → IsSmall gaps → IsSmall (shrink size gaps)
unfolding shrink
shrink-IsSmall size [] p = tt
shrink-IsSmall size (g ∷ gaps) (p, ps) = (ground arith, shrink-IsSmall size gaps ps)

gap_shrink :
    (size : ℕ) (gaps : List ℕ) (i : ℕ) → gap_of gaps i ≤ (size - 1) + gap_of (shrink size gaps) i
unfolding shrink
gap_shrink size [] i = omega arith
gap_shrink size (g ∷ gaps) zero = ground arith
gap_shrink size (g ∷ gaps) (suc i) = gap_shrink size gaps i

all-IsPlaced :
    (size half : ℕ) (gaps : List ℕ) (arrows : List ArrowInternal)
    → size ≡ 2 * half + 1
    → All (IsWanted gaps) arrows
    → All (IsPlaced (shrink size gaps) half) arrows
all-IsPlaced size half gaps [] e ws = tt
all-IsPlaced size half gaps (arr ∷ arrows) e (w, ws) = (
  record {
    later = λ z. let one = w.later in absurd (omega arith);
    fits = omega (arith, w.fits, gap_shrink size gaps arr.gap_index);
    unseen_left = w.unseen_left;
    unseen_right = w.unseen_right;
  },
  all-IsPlaced size half gaps arrows e ws,
)

zeros_lem : (names : List Text) → (length (zeros names) ≡ length names) × IsSmall (zeros names)
zeros_lem [] = (refl, tt)
zeros_lem (name ∷ names) = let (e, s) = zeros_lem names in (ap suc e, (omega arith, s))

-- What a diagram looks like: it is drawn, the line is one of its rows, its header is a rectangle, and every other row is as wide, or
-- lacks the left half of the first box.
abbrev pub IsDrawn : Result (List Row × List Row × ℕ) → ℕ → Type 0
IsDrawn result half =
    (header : List Row) × (rows : List Row) × (line : ℕ) × (w : ℕ) × (result
      ≡ ok (header, rows, line))
    × (line < length rows)
    × All (λ row. width row ≡ w) header
    × All (λ row. (width row ≡ w) ⊎ (width row ≡ w - half)) rows

full_rows :
    (w half : ℕ) (rows : List Row)
    → All (λ row. width row ≡ w) rows
    → All (λ row. (width row ≡ w) ⊎ (width row ≡ w - half)) rows
full_rows w half [] h = tt
full_rows w half (row ∷ rows) (e, h) = (inl e, full_rows w half rows h)

draw_rows_lem :
    (names : List Text) (arrows : List ArrowInternal) (gaps : List ℕ) (crashes : CrashInformation)
    (half : ℕ)
    → 1 ≤ length names
    → half ≡ box_size names / 2
    → box_size names ≡ 2 * half + 1
    → IsLaidOut names gaps half
    → All (IsPlaced gaps half) arrows
    → IsDrawn (draw_rows names arrows gaps crashes) half
unfolding draw_rows
draw_rows_lem [] arrows gaps crashes half one h size v placed = absurd (omega arith)
draw_rows_lem (name ∷ names) arrows gaps crashes half one h size v placed =
    let w = full_width gaps half (length (name ∷ names)) in
    let (header, e, three, p) = append_boxes_wide true (name ∷ names) gaps half size v in
    let (rows, line, f, few, q) =
      append_arrows_wide (name ∷ names) gaps half v crashes [] false arrows one placed in
    let (bottom, g, more, r) = append_boxes_wide false (name ∷ names) gaps half size v in
    (
      header,
      rows ++ bottom,
      line,
      w,
      rw (e, sym h) (rw (f) (rw (g) refl)),
      omega (arith, few, more, length-append rows bottom),
      p,
      All-append _ rows bottom q (full_rows w half bottom r),
    )

-- For arrows with at least two names at their ends, all of whose names, and whose messages with
-- their markers, are shorter than 2^60 and 2^61, the diagram is drawn without a panic: its line is
-- the index of one of its rows, the rows of the header are equally wide, and every other row is as
-- wide or lacks exactly half a box.
pub draw_diagram_lem :
    (arrows : List Arrow) (settings : DrawSettings)
    → 2 ≤ length (names_from [] arrows)
    → All (λ (arr : Arrow). (length arr.from < 2 ^ 60) × (length arr.to < 2 ^ 60)) arrows
    → All (λ (arr : Arrow). length arr.message + 2 * settings.marker_size < 2 ^ 61) arrows
    → IsDrawn (draw_diagram arrows settings) (box_size (names_from [] arrows) / 2)
unfolding draw_diagram
draw_diagram_lem arrows settings two short_names short =
    let names = names_from [] arrows in
    let half = box_size names / 2 in
    let (length_zeros, small_zeros) = zeros_lem names in
    let named = names_from_all (λ name. length name < 2 ^ 60) [] arrows tt short_names in
    let box = box_size-IsBox names (omega arith) named in
    let (gaps, placed, e, same, small, grows, ws) =
      convert_all_lem names settings two 0 (zeros names) arrows (names_from-HasEnds arrows)
        length_zeros small_zeros short in
    let laid : IsLaidOut names (shrink (box_size names) gaps) half = record {
      two = box.two;
      small = box.small;
      named = box.named;
      paired = omega (arith, length-shrink (box_size names) gaps);
      small_gaps = shrink-IsSmall (box_size names) gaps small;
    } in
    rw (e) (
      draw_rows_lem names placed (shrink (box_size names) gaps)
        (crash_information names settings.crashes) half (omega arith) refl box.size laid
        (all-IsPlaced (box_size names) half gaps placed box.size ws))
