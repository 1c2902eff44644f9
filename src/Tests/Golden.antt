-- ===== src/Tests/Golden.antt =====
-- Rows of the second diagram of src/debugger/internal/sequence_test.go.
use detsys_testkit.Base.{false, true, ◌≡◌, refl, List, [], ◌∷◌, ◌++◌, some, ok, text_eq, nat_eq, ℕ}
use detsys_testkit.Base.Text.{Text, text}
use detsys_testkit.Debugger.Sequence.{
  ArrowInternal, glyphs, tag, each, line_cell, label_cell, crash_cell, middle_of, place_eq,
  edge_cell, content_cell,
}
use detsys_testkit.Debugger.Repeat.{write_repeat, overflows, double, copies}

abbrev names : List Text
names = text "A" ∷ text "B" ∷ text "C" ∷ []

abbrev gaps : List ℕ
gaps = 0 ∷ 7 ∷ 8 ∷ []

abbrev first : ArrowInternal
first = record {
  from = 0;
  to = 1;
  at = 0;
  message = text "   first   ";
  dropped = false;
  going_right = true;
  gap_index = 1;
  annotation_left = [];
  annotation_right = [];
  is_line = false;
}

first_row : each (line_cell first gaps 2 []) 0 names ≡ ok (glyphs "  ├───────────▶            │  ")
unfolding each line_cell middle_of place_eq nat_eq write_repeat overflows double copies
first_row = refl

first_label : each (label_cell first gaps 2 []) 0 names ≡ ok (glyphs "  │   first   │            │")
unfolding each label_cell place_eq nat_eq write_repeat overflows double copies
first_label = refl

abbrev second : ArrowInternal
second = record {
  from = 1;
  to = 2;
  at = 1;
  message = text ">>>second<<<";
  dropped = true;
  going_right = true;
  gap_index = 2;
  annotation_left = [];
  annotation_right = [];
  is_line = true;
}

-- A and C crash before the second arrow.
crashed_row :
    each (crash_cell gaps 2 (some 0 ∷ some 2 ∷ []) (some 0 ∷ some 2 ∷ []) "╭─┴─╮") 0 names
    ≡ ok (
        tag (text "[red]") ∷ glyphs "╭─┴─╮"
        ++ tag (text "[-]") ∷ glyphs "         │          "
        ++ tag (text "[red]") ∷ glyphs "╭─┴─╮"
        ++ tag (text "[-]") ∷ [])
unfolding each crash_cell place_eq nat_eq write_repeat overflows double copies
crashed_row = refl

second_label :
    each (label_cell second gaps 2 (some 0 ∷ some 2 ∷ [])) 0 names
    ≡ ok (glyphs "              │>>>second<<< ")
unfolding each label_cell place_eq nat_eq write_repeat overflows double copies
second_label = refl

second_row :
    each (line_cell second gaps 2 (some 0 ∷ some 2 ∷ [])) 0 names
    ≡ ok (glyphs "              ├╌╌╌╌╌╌╌╌╌╌╌╌▶  ")
unfolding each line_cell middle_of place_eq nat_eq write_repeat overflows double copies
second_row = refl

top : each (edge_cell gaps 5 "╭" "─" "╮") 0 names ≡ ok (glyphs "╭───╮       ╭───╮        ╭───╮")
unfolding each edge_cell nat_eq write_repeat overflows double copies
top = refl

content : each (content_cell gaps 5) 0 names ≡ ok (glyphs "│ A │       │ B │        │ C │")
unfolding each content_cell nat_eq write_repeat overflows double copies
content = refl
