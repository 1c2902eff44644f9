-- ===== src/Debugger/Sequence.antt =====
-- The drawing of sequence diagrams: src/debugger/internal/sequence.go. The builders hold glyphs, one for
-- each character, and the colour tags of the terminal library; names and messages are ASCII. Each
-- loop over the names writes one row: rows are kept in a list, and `DrawDiagram` ends them with newlines.
pub mod Diagram
pub mod Widths
pub mod Layout
pub mod Boxes
use Prim.Native.Char.{code}
use detsys_testkit.Base.{
  ℕ, zero, suc, ◌+◌, ◌-◌, ◌*◌, ◌/◌, ◌%◌, Bool, true, false, not, ◌&&◌, ◌||◌, String, List, [], ◌∷◌,
  ◌++◌, map, Option, none, some, ltb, leb, ◌==◌, nat_eq, ℕ_discrete, Eq, contains, length,
  get_elem?, if◌then◌else◌, Result, ok, panic, ◌>>=◌, some_or_panic,
}
use detsys_testkit.Base.Dict
use detsys_testkit.Base.Dict.{Dict}
use detsys_testkit.Base.Text.{Text, text}
use detsys_testkit.Debugger.Repeat.{ℤ, pos, negsuc, minus, write_repeat, copies}

pub data Glyph : Type 0 where
  glyph : ℕ → Glyph
  tag : Text → Glyph

abbrev pub Row : Type 0
Row = List Glyph

abbrev pub glyphs : String → Row
glyphs String.[] = []
glyphs (String.◌∷◌ c s) = glyph (code c) ∷ glyphs s

abbrev pub ascii : Text → Row
ascii = map glyph

-- An index, or none for -1.
abbrev pub Place : Type 0
Place = Option ℕ

Place-discrete : Discrete Place
Place-discrete = hlevel (ℕ_discrete)

instance unfoldable pub place_eq : Eq Place
unfolding Place-discrete
place_eq = record { dec = Place-discrete }

pub record Arrow : Type 0 where
  pub from : Text
  pub to : Text
  pub at : ℕ
  pub message : Text
  pub dropped : Bool

-- `arrowInternal`; the two annotations are present or not together with `is_line`.
pub record ArrowInternal : Type 0 where
  pub from : ℕ
  pub to : ℕ
  pub at : ℕ
  pub message : Text
  pub dropped : Bool
  pub going_right : Bool
  pub gap_index : ℕ
  pub annotation_left : Row
  pub annotation_right : Row
  pub is_line : Bool

abbrev pub larger : ℕ → ℕ → ℕ
larger a b = if ltb a b then b else a

-- `boxSize`
abbrev pub size_of : Text → ℕ
size_of name = 4 + length name + (length name + 1) % 2

unfoldable pub box_size_from : ℕ → List Text → ℕ
box_size_from size [] = size
box_size_from size (name ∷ names) = box_size_from (larger size (size_of name)) names

unfoldable pub box_size : List Text → ℕ
unfolding box_size_from
box_size names = box_size_from 3 names

-- `strings.Repeat`, which panics on a negative count.
abbrev pub strings_repeat : Row → ℤ → Result Row
strings_repeat s (pos n) = ok (copies n s)
strings_repeat s (negsuc n) = panic

abbrev pub space : Row
space = glyphs " "

abbrev pub h_line : Row
h_line = glyphs "─"

abbrev pub d_line : Row
d_line = glyphs "╌"

-- A loop over the names, from an index on: what each round writes, one after the other.
unfoldable pub each : (ℕ → Text → Result Row) → ℕ → List Text → Result Row
each cell i [] = ok []
each cell i (name ∷ names) =
    cell i name >>= λ written. each cell (suc i) names >>= λ rest. ok (written ++ rest)

-- `gaps[i]`
abbrev pub gap_at : List ℕ → ℕ → Result ℕ
gap_at gaps i = some_or_panic (get_elem? gaps i)

-- `totalSpace / 2`, towards zero, and what it leaves of `totalSpace`.
abbrev pub slack : ℤ → ℤ
slack (pos n) = pos (n / 2)
slack (negsuc n) = if n == 0 then pos 0 else negsuc ((n + 1) / 2 - 1)

abbrev pub remaining : ℤ → ℤ
remaining (pos n) = pos (n - n / 2)
remaining (negsuc n) = negsuc (n - (n + 1) / 2)

-- A cell of the top or the bottom of the boxes, and one of their contents.
unfoldable pub edge_cell : List ℕ → ℕ → String → String → String → ℕ → Text → Result Row
unfolding nat_eq
edge_cell gaps size left middle right i name = gap_at gaps i >>= λ gap.
    write_repeat space (pos gap) >>= λ before.
    write_repeat h_line (pos ((size - 2) / 2)) >>= λ half.
    ok (before ++ glyphs left ++ half ++ glyphs middle ++ half ++ glyphs right)

unfoldable pub content_cell : List ℕ → ℕ → ℕ → Text → Result Row
unfolding nat_eq
content_cell gaps size i name =
    let total : ℤ = minus size (4 + length name) in
    gap_at gaps i >>= λ gap. write_repeat space (pos gap) >>= λ before.
    write_repeat space (slack total) >>= λ left. write_repeat space (remaining total) >>= λ right.
    ok (before ++ glyphs "│ " ++ left ++ ascii name ++ right ++ glyphs " │")

-- `appendBoxes`
unfoldable pub append_boxes : Bool → List Text → List ℕ → Result (List Row)
unfolding each edge_cell content_cell box_size
append_boxes is_top names gaps =
    let size = box_size names in
    each (edge_cell gaps size "╭" (if is_top then "─" else "┴") "╮") 0 names >>= λ top.
    each (content_cell gaps size) 0 names >>= λ content.
    each (edge_cell gaps size "╰" (if is_top then "┬" else "─") "╯") 0 names >>= λ bottom.
    ok (top ∷ content ∷ bottom ∷ [])

abbrev red : Row → Row
red row = tag (text "[red]") ∷ row ++ tag (text "[-]") ∷ []

-- A cell of a row of crashes: the box of a node that crashes now, nothing below an earlier crash.
unfoldable pub crash_cell : List ℕ → ℕ → List Place → List Place → String → ℕ → Text → Result Row
unfolding nat_eq place_eq
crash_cell gaps half crashes dead part i name = gap_at gaps i >>= λ gap.
    write_repeat space (minus (half + gap) 2) >>= λ before.
    write_repeat space (minus half 2) >>= λ after. ok (
      before
      ++ (if contains crashes (some i)
          then red (glyphs part)
          else if contains dead (some i)
          then glyphs "     "
          else glyphs "  │  ")
      ++ after)

-- A cell of the row with the message.
unfoldable pub label_cell : ArrowInternal → List ℕ → ℕ → List Place → ℕ → Text → Result Row
unfolding nat_eq place_eq
label_cell arr gaps half dead i name = gap_at gaps i >>= λ gap.
    let total : ℤ = minus (2 * half + gap) (length arr.message) in
    let message : Result Row = write_repeat space (slack total) >>= λ left.
    write_repeat space (remaining total) >>= λ right.
    ok (left ++ arr.annotation_left ++ ascii arr.message ++ arr.annotation_right ++ right) in
    let blank : Result Row = write_repeat space (pos (half + gap + (if i == 0 then 0 else half))) in
    (if i == arr.gap_index then message else blank) >>= λ body.
    ok (body ++ (if contains dead (some i) then space else glyphs "│"))

-- The character at a node: whether in the top row, gone, at the arrow's node, and going right.
unfoldable pub loop_middle : Bool → Bool → Bool → Bool → Row
loop_middle true gone here going_right =
    if gone
    then space
    else if here
    then (if going_right then glyphs "├" else glyphs "┤")
    else glyphs "│"
loop_middle false gone here going_right =
    if here
    then (if going_right then glyphs "◀" else glyphs "▶")
    else if gone
    then space
    else glyphs "│"

-- A cell of the two rows of an arrow from a node to itself.
unfoldable pub loop_cell : ArrowInternal → List ℕ → ℕ → List Place → Bool → ℕ → Text → Result Row
unfolding nat_eq place_eq loop_middle
loop_cell arr gaps half dead is_top i name = gap_at gaps i >>= λ gap.
    write_repeat space (pos gap) >>= λ before. strings_repeat space (pos half) >>= λ empty.
    let here : Bool = i == arr.from in
    (if here then strings_repeat h_line (minus half 1) else ok []) >>= λ side.
    let left : Row =
      if here && not arr.going_right
      then (if is_top then glyphs "╭" else glyphs "╰") ++ side
      else empty in
    let right : Row =
      if here && arr.going_right
      then side ++ (if is_top then glyphs "╮" else glyphs "╯")
      else empty in
    ok (before ++ left ++ loop_middle is_top (contains dead (some i)) here arr.going_right ++ right)

-- Whether an arrow runs over the gap before a node.
abbrev pub over_gap : ArrowInternal → ℕ → Bool
over_gap arr i =
    (arr.going_right && ltb arr.from i && leb i arr.to)
    || (not arr.going_right && ltb arr.to i && leb i arr.from)

-- Whether an arrow leaves the box of a node on the right side.
abbrev pub over_right : ArrowInternal → ℕ → Bool
over_right arr i =
    (arr.going_right && leb arr.from i && ltb i arr.to)
    || (not arr.going_right && leb arr.to i && ltb i arr.from)

-- The character at a node: the assignments to `middle`, of which the last that applies counts.
unfoldable pub middle_of : ArrowInternal → Bool → ℕ → Row
unfolding nat_eq
middle_of arr gone i =
    if arr.going_right
    then (if ltb arr.from i && ltb i arr.to
        then glyphs "┼"
        else if i == arr.to
        then glyphs "▶"
        else if i == arr.from
        then glyphs "├"
        else if gone
        then space
        else glyphs "│")
    else if ltb arr.to i && ltb i arr.from
    then glyphs "┼"
    else if i == arr.to
    then glyphs "◀"
    else if i == arr.from
    then glyphs "┤"
    else if gone
    then space
    else glyphs "│"

-- A cell of the row of an arrow between two nodes.
unfoldable pub line_cell : ArrowInternal → List ℕ → ℕ → List Place → ℕ → Text → Result Row
unfolding middle_of nat_eq place_eq
line_cell arr gaps half dead i name = gap_at gaps i >>= λ gap.
    let line : Row = if arr.dropped then d_line else h_line in
    write_repeat (if over_gap arr i then line else space) (pos gap) >>= λ before.
    strings_repeat space (pos half) >>= λ half_empty.
    strings_repeat line (pos half) >>= λ half_full. ok (
      before
      ++ (if over_gap arr i then half_full else half_empty)
      ++ middle_of arr (contains dead (some i)) i
      ++ (if over_right arr i then half_full else half_empty))
