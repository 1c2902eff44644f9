-- ===== src/Debugger/Sequence/Diagram.antt =====
-- The rows of all arrows, and the whole diagram: `appendArrows`, `drawDiagram` and `DrawDiagram` of
-- src/debugger/internal/sequence.go.
pub mod Names
pub mod Gaps
pub mod Placed
pub mod Marked
use detsys_testkit.Base.{
  ℕ, zero, suc, ◌+◌, ◌-◌, ◌*◌, ◌/◌, Bool, true, false, not, ◌&&◌, ◌||◌, List, [], ◌∷◌, ◌++◌, map,
  Option, none, some, ltb, leb, ◌==◌, nat_eq, text_eq, length, get_elem?, if◌then◌else◌, Result, ok,
  panic, ◌>>=◌, some_or_panic,
}
use detsys_testkit.Base.Dict
use detsys_testkit.Base.Dict.{Dict}
use detsys_testkit.Base.Text.{Text, text}
use detsys_testkit.Debugger.Repeat.{copies, pos}
use detsys_testkit.Debugger.Sequence.{
  Glyph, glyph, tag, Row, Place, Arrow, ArrowInternal, box_size, each, append_boxes, crash_cell,
  label_cell, loop_cell, line_cell, larger,
}

-- The crashes by logical time, as indices.
abbrev pub CrashInformation : Type 0
CrashInformation = Dict ℕ (List Place)

-- The three rows that new crashes take.
unfoldable pub crash_rows :
    List Text → List ℕ → ℕ → Option (List Place) → List Place → Result (List Row)
unfolding each crash_cell
crash_rows names gaps half none dead = ok []
crash_rows names gaps half (some crashes) dead =
    each (crash_cell gaps half crashes dead "╭─┴─╮") 0 names >>= λ top.
    each (crash_cell gaps half crashes dead "│ ☠ │") 0 names >>= λ middle.
    each (crash_cell gaps half crashes dead "╰───╯") 0 names >>= λ bottom.
    ok (top ∷ middle ∷ bottom ∷ [])

-- The rows of an arrow: two from a node to itself, one between nodes.
unfoldable pub arrow_rows : List Text → List ℕ → ℕ → ArrowInternal → List Place → Result (List Row)
unfolding each loop_cell line_cell nat_eq
arrow_rows names gaps half arr dead =
    if arr.to == arr.from
    then (each (loop_cell arr gaps half dead true) 0 names >>= λ top.
        each (loop_cell arr gaps half dead false) 0 names >>= λ bottom. ok (top ∷ bottom ∷ []))
    else (each (line_cell arr gaps half dead) 0 names >>= λ row. ok (row ∷ []))

abbrev pub or_empty : Option (List Place) → List Place
or_empty none = []
or_empty (some crashes) = crashes

-- `appendArrows`: the rows, and the number of those that are counted before the line is found.
unfoldable pub append_arrows :
    List Text
    → List ℕ
    → ℕ
    → CrashInformation
    → List Place
    → Bool
    → List ArrowInternal
    → Result (List Row × ℕ)
unfolding crash_rows arrow_rows each label_cell nat_eq
append_arrows names gaps half crashes dead found [] = ok ([], 0)
append_arrows names gaps half crashes dead found (arr ∷ arrows) =
    let found' : Bool = found || arr.is_line in
    let new_crashes = Dict.lookup arr.at crashes in
    let dead' : List Place = dead ++ or_empty new_crashes in
    crash_rows names gaps half new_crashes dead' >>= λ crashed.
    each (label_cell arr gaps half dead') 0 names >>= λ label.
    arrow_rows names gaps half arr dead' >>= λ drawn.
    let rows : List Row = crashed ++ label ∷ drawn in
    append_arrows names gaps half crashes dead' found' arrows >>= λ (rest, line).
    ok (rows ++ rest, (if found' then 0 else length rows) + line)

-- `drawDiagram`: the header, the rows below it, and the line. The space that it reserves is left out.
unfoldable pub draw_rows :
    List Text → List ArrowInternal → List ℕ → CrashInformation → Result (List Row × List Row × ℕ)
unfolding append_boxes append_arrows box_size
draw_rows [] arrows gaps crashes = panic
draw_rows (name ∷ names) arrows gaps crashes = append_boxes true (name ∷ names) gaps >>= λ header.
    append_arrows (name ∷ names) gaps (box_size (name ∷ names) / 2) crashes [] false arrows
    >>= λ (rows, line).
        append_boxes false (name ∷ names) gaps >>= λ bottom. ok (header, rows ++ bottom, line)

-- `index`
unfoldable pub index : List Text → Text → Place
unfolding text_eq
index [] needle = none
index (v ∷ haystack) needle =
    let later = index haystack needle in
    if v == needle then some 0 else elim later [ none ↦ none | some i ↦ some (suc i) ]

-- The names of the arrows' ends, in the order of their first occurrences.
abbrev add_name : List Text → Text → List Text
add_name names name = elim (index names name) [ none ↦ names ++ name ∷ [] | some i ↦ names ]

unfoldable pub names_from : List Text → List Arrow → List Text
unfolding index
names_from names [] = names
names_from names (arr ∷ arrows) = names_from (add_name (add_name names arr.from) arr.to) arrows

-- `settings.Crashes`, with the indices of the nodes.
unfoldable pub crash_information : List Text → Dict ℕ (List Text) → CrashInformation
unfolding index
crash_information names [] = []
crash_information names ((at, crashed) ∷ crashes) =
    (at, map (index names) crashed) ∷ crash_information names crashes

pub record DrawSettings : Type 0 where
  pub marker_size : ℕ
  pub mark_at : Option ℕ
  pub crashes : Dict ℕ (List Text)

-- `gaps[i] = gap`
abbrev pub store : List ℕ → ℕ → ℕ → List ℕ
store [] i gap = []
store (g ∷ gaps) zero gap = gap ∷ gaps
store (g ∷ gaps) (suc i) gap = g ∷ store gaps i gap

abbrev pub goes_right : ℕ → ℕ → ℕ → Bool
goes_right len from to = not (ltb to from) && not (from == to && from == len - 1)

abbrev pub annotated : ℕ → ℕ → ℕ → ℕ
annotated len from to = if goes_right len from to then from + 1 else from

-- The arrow between two indices, marked or not.
abbrev pub internal : ℕ → DrawSettings → Bool → Arrow → ℕ → ℕ → ArrowInternal
internal len settings marked arr from to = record {
  from = from;
  to = to;
  at = arr.at;
  message =
      copies settings.marker_size (if marked then text ">" else text " ")
      ++ arr.message
      ++ copies settings.marker_size (if marked then text "<" else text " ");
  dropped = arr.dropped;
  going_right = goes_right len from to;
  gap_index = annotated len from to;
  annotation_left = if marked then tag (text "[\"focused\"]") ∷ tag (text "[yellow]") ∷ [] else [];
  annotation_right = if marked then tag (text "[-]") ∷ tag (text "[\"\"]") ∷ [] else [];
  is_line = marked;
}

-- One round of the loop over the arrows. An end that is not among the names is a panic: see Names.
unfoldable pub convert :
    List Text → DrawSettings → ℕ → List ℕ → Arrow → Result (List ℕ × ArrowInternal)
unfolding index nat_eq
convert names settings i gaps arr = some_or_panic (index names arr.from) >>= λ from.
    some_or_panic (index names arr.to) >>= λ to.
    let g : ℕ = annotated (length names) from to in
    let needed : ℕ = length arr.message + 2 * settings.marker_size in
    some_or_panic (get_elem? gaps g) >>= λ gap.
    let marked : Bool = elim settings.mark_at [ none ↦ false | some m ↦ i == m ] in
    ok (
      (if ltb gap needed then store gaps g needed else gaps),
      internal (length names) settings marked arr from to,
    )

unfoldable pub convert_all :
    List Text → DrawSettings → ℕ → List ℕ → List Arrow → Result (List ℕ × List ArrowInternal)
unfolding convert
convert_all names settings i gaps [] = ok (gaps, [])
convert_all names settings i gaps (arr ∷ arrows) =
    convert names settings i gaps arr >>= λ (gaps', a).
    convert_all names settings (suc i) gaps' arrows >>= λ (last, as'). ok (last, a ∷ as')

-- What a box leaves of a gap.
unfoldable pub shrink : ℕ → List ℕ → List ℕ
shrink size = map (λ gap. if ltb gap (size - 1) then 0 else gap - (size - 1))

abbrev pub zeros : List Text → List ℕ
zeros [] = []
zeros (name ∷ names) = 0 ∷ zeros names

-- `DrawDiagram`, before the rows are joined by newlines.
unfoldable pub draw_diagram : List Arrow → DrawSettings → Result (List Row × List Row × ℕ)
unfolding names_from crash_information convert_all shrink draw_rows box_size
draw_diagram arrows settings =
    let names = names_from [] arrows in
    convert_all names settings 0 (zeros names) arrows >>= λ (gaps, internal).
    draw_rows names internal (shrink (box_size names) gaps)
      (crash_information names settings.crashes)

-- The builder's text: the rows with newlines between them.
unfoldable pub joined : List Row → Row
joined [] = []
joined (row ∷ []) = row
joined (row ∷ next ∷ rows) = row ++ glyph 10 ∷ joined (next ∷ rows)
