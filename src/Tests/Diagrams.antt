-- ===== src/Tests/Diagrams.antt =====
-- Sequence diagrams of small runs: the rows as the tests of src/debugger/internal/sequence_test.go draw them.
use detsys_testkit.Base.{
  ◌-◌, ◌^◌, ◌≡◌, refl, arith, true, false, List, [], ◌∷◌, ◌++◌, some, text_eq, nat_eq, length, ok,
}
use detsys_testkit.Base.Text.{Text, text}
use detsys_testkit.Debugger.Repeat.{pos, write_repeat_to, copies}
use detsys_testkit.Debugger.Repeat.Laws.{write_repeat_to_lem}
use detsys_testkit.Debugger.Sequence.{Row, Arrow, ArrowInternal, box_size, box_size_from}
use detsys_testkit.Debugger.Sequence.Layout.{IsLaidOut, IsPlaced}
use detsys_testkit.Debugger.Sequence.Diagram.{
  DrawSettings, append_arrows, names_from, index, draw_diagram,
}
use detsys_testkit.Debugger.Sequence.Diagram.Placed.{IsDrawn, draw_diagram_lem}
use detsys_testkit.Debugger.Sequence.Diagram.Marked.{marked_line}

write_repeat_to_lem_example :
    write_repeat_to (text "row") (text "ab") (pos 3) ≡ ok (text "rowababab")
unfolding copies
write_repeat_to_lem_example = write_repeat_to_lem (text "row") (text "ab") 3 (omega arith)

-- Where the sum of the lengths wraps, one copy is written.
wrapped : write_repeat_to (text "row") (text "a") (pos (2 ^ 63 - 1)) ≡ ok (text "rowa")
unfolding write_repeat_to
wrapped = refl

abbrev ping : Arrow
ping = record { from = text "A"; to = text "B"; at = 1; message = text "ping"; dropped = false }

abbrev pong : Arrow
pong = record { from = text "B"; to = text "A"; at = 2; message = text "pong"; dropped = true }

-- B crashes when A gets its answer.
abbrev settings : DrawSettings
settings = record { marker_size = 1; mark_at = some 1; crashes = (2, text "B" ∷ []) ∷ [] }

draw_diagram_lem_example : IsDrawn (draw_diagram (ping ∷ pong ∷ []) settings) 2
unfolding names_from index text_eq box_size box_size_from
draw_diagram_lem_example =
    draw_diagram_lem (ping ∷ pong ∷ []) settings (omega arith)
      ((omega arith, omega arith), ((omega arith, omega arith), tt))
      (omega arith, (omega arith, tt))

abbrev there : ArrowInternal
there = record {
  from = 0;
  to = 1;
  at = 1;
  message = text " ping ";
  dropped = false;
  going_right = true;
  gap_index = 1;
  annotation_left = [];
  annotation_right = [];
  is_line = false;
}

abbrev back : ArrowInternal
back = record {
  from = 1;
  to = 0;
  at = 2;
  message = text ">pong<";
  dropped = false;
  going_right = false;
  gap_index = 1;
  annotation_left = [];
  annotation_right = [];
  is_line = true;
}

abbrev names : List Text
names = text "A" ∷ text "B" ∷ []

laid_out : IsLaidOut names (0 ∷ 2 ∷ []) 2
laid_out = record {
  two = omega arith;
  small = omega arith;
  named = (omega arith, (omega arith, tt));
  paired = refl;
  small_gaps = (omega arith, (omega arith, tt));
}

there-IsPlaced : IsPlaced (0 ∷ 2 ∷ []) 2 there
there-IsPlaced = record {
  later = λ e. absurd (omega arith);
  fits = omega arith;
  unseen_left = refl;
  unseen_right = refl;
}

back-IsPlaced : IsPlaced (0 ∷ 2 ∷ []) 2 back
back-IsPlaced = record {
  later = λ e. absurd (omega arith);
  fits = omega arith;
  unseen_left = refl;
  unseen_right = refl;
}

marked_line_example :
    (first : List Row) × (rest : List Row) × (append_arrows names
        (0 ∷ 2 ∷ [])
        2
        []
        []
        false
        (there ∷ [])
      ≡ ok (first, length first))
    × (append_arrows names (0 ∷ 2 ∷ []) 2 [] [] false (there ∷ back ∷ [])
        ≡ ok (first ++ rest, length first))
marked_line_example =
    marked_line names (0 ∷ 2 ∷ []) 2 laid_out (omega arith) [] [] (there ∷ []) [] back
      (there-IsPlaced, tt) back-IsPlaced tt (refl, tt) refl
