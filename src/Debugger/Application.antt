-- ===== src/Debugger/Application.antt =====
-- What the user of the debugger moves through: src/debugger/cmd/detsys-debug/main.go. The widgets of the
-- terminal library are left out: `View` is what `redraw` writes to them. The height of the diagram's
-- widget, the log messages of the data base and the order of a map are parameters, and `Compare` of two
-- states is their pair. Rows are not negative.
pub mod Window
pub mod Ready
pub mod Selection
pub mod Widgets
use detsys_testkit.Base.{
  ℕ, zero, suc, ◌+◌, ◌-◌, ◌/◌, Bool, true, false, ◌&&◌, List, [], ◌∷◌, ◌++◌, map, filter, Option,
  none, some, ltb, leb, ◌==◌, nat_eq, text_eq, length, get_elem?, if◌then◌else◌, Result, ok, panic,
  ◌>>=◌, some_or_panic,
}
use detsys_testkit.Base.Dict
use detsys_testkit.Base.Decimal.{decimal}
use detsys_testkit.Base.Sort.{sort}
use detsys_testkit.Base.Text.{Text}
use detsys_testkit.Debugger.Repeat.{ℤ, pos, negsuc, minus, take}
use detsys_testkit.Debugger.Sequence.{Row, Glyph, glyph, Place, slack}
use detsys_testkit.Debugger.Sequence.Diagram.{index}
use detsys_testkit.Debugger.Trace.{NetworkEvent, Heap, state_of, max}
use detsys_testkit.Debugger.Diagrams.{Drawing, SequenceDiagrams, at, header_of}

abbrev pub min : ℕ → ℕ → ℕ
min x y = if ltb y x then y else x

pub record DebugApplication : Type 0 where
  pub heaps : List Heap
  pub diagrams : SequenceDiagrams
  pub events : List NetworkEvent
  pub reactors : List Text
  pub active_row : ℕ
  pub active_reactor : ℕ

-- `setReactor`: the loop ends at the first reactor of that name.
unfoldable pub set_reactor : DebugApplication → Text → DebugApplication
unfolding index
set_reactor da reactor = elim (index da.reactors reactor) [
  | none ↦ da
  | some i ↦ record da { active_reactor = i }
]

-- `setRow`
unfoldable pub set_row : DebugApplication → ℕ → Result DebugApplication
unfolding set_reactor max
set_row da row =
    let nrow = max 1 row in
    let moved : DebugApplication = record da { active_row = nrow } in
    some_or_panic (get_elem? da.events (nrow - 1)) >>= λ event. ok (set_reactor moved event.to)

is_newline : Glyph → Bool
unfolding nat_eq
is_newline (glyph c) = c == 10
is_newline (Glyph.tag t) = false

-- A character before the first line.
abbrev pub onto : Glyph → List Row → List Row
onto g [] = (g ∷ []) ∷ []
onto g (line ∷ lines) = (g ∷ line) ∷ lines

-- `strings.SplitAfter(s, "\n")`
unfoldable pub split_after : Row → List Row
unfolding is_newline
split_after [] = [] ∷ []
split_after (g ∷ s) =
    let lines = split_after s in if is_newline g then (g ∷ []) ∷ lines else onto g lines

abbrev pub drop : {A : Type 0} → ℕ → List A → List A
drop zero xs = xs
drop (suc n) [] = []
drop (suc n) (x ∷ xs) = drop n xs

-- `lines[from:to]`, and `strings.Join(…, "")`
abbrev pub slice : {A : Type 0} → List A → ℕ → ℕ → Result (List A)
slice xs from to =
    if leb from to && leb to (length xs) then ok (take (to - from) (drop from xs)) else panic

abbrev pub join : List Row → Row
join [] = []
join (row ∷ rows) = row ++ join rows

-- The lines round the marked one that a widget of some height shows: the first block of `redraw`. Without
-- any height the slice ends before it starts.
unfoldable pub window : {A : Type 0} → List A → ℕ → ℕ → Result (List A)
window lines line height = if ltb (length lines) line then panic else elim (minus height 1) [
  | pos viewed ↦
      let before = viewed / 2 in
      if ltb line before
      then slice lines 0 (min viewed (length lines))
      else slice lines (line - before) (min (line + (viewed - before)) (length lines))
  | negsuc n ↦ panic
]

-- `sentEventsAtActive`
unfoldable pub sent_events_at_active : DebugApplication → Result (List NetworkEvent)
unfolding nat_eq
sent_events_at_active da = some_or_panic (get_elem? da.events (da.active_row - 1)) >>= λ event.
    ok (filter (λ ev. ev.sent_at == event.recv_at) da.events)

-- A row of the table of sent messages.
abbrev pub sent_cells : NetworkEvent → List Text
unfolding decimal
sent_cells event = event.message ∷ event.to ∷ decimal event.recv_at ∷ event.args ∷ []

-- `refreshSentMessages`: the rows below the header.
unfoldable pub refresh_sent_messages : DebugApplication → Result (List (List Text))
unfolding sent_events_at_active sent_cells
refresh_sent_messages da = sent_events_at_active da >>= λ events. ok (map sent_cells events)

pub record View : Type 0 where
  pub diagram : Row
  pub header : Row
  pub old : Text
  pub new : Text
  pub message : Text
  pub logs : List Text
  pub sent : List (List Text)

-- The state of a reactor in the copy of an index.
abbrev pub heap_state : List Heap → ℕ → Text → Result Text
heap_state heaps i reactor =
    some_or_panic (get_elem? heaps i) >>= λ heap. ok (state_of (Dict.lookup reactor heap))

module _ (log_messages : Text → ℕ → Result (List Text)) (height : ℕ) where
  -- `redraw`, which also keeps the diagram that it asks for: from the row before the active one, and whole.
  unfoldable pub redraw_from : DebugApplication → ℕ → Result (View × DebugApplication)
  unfolding at window split_after refresh_sent_messages
  redraw_from da before = at da.diagrams before >>= λ (drawing, diagrams).
      window (split_after drawing.dia) drawing.line height >>= λ to_draw.
      some_or_panic (get_elem? da.reactors da.active_reactor) >>= λ reactor.
      heap_state da.heaps before reactor >>= λ old.
      heap_state da.heaps (min (suc before) (length da.heaps)) reactor >>= λ new.
      some_or_panic (get_elem? da.events before) >>= λ event.
      log_messages reactor event.recv_at >>= λ logs. refresh_sent_messages da >>= λ sent. ok (
        record {
          diagram = join to_draw;
          header = header_of diagrams;
          old = old;
          new = new;
          message = event.args;
          logs = logs;
          sent = sent;
        },
        record da { diagrams = diagrams },
      )

  unfoldable pub redraw : DebugApplication → Result (View × DebugApplication)
  unfolding redraw_from
  redraw da = elim da.active_row [ zero ↦ panic | suc before ↦ redraw_from da before ]

  -- The functions that `main` gives the table of events and the list of reactors.
  unfoldable pub select_event : DebugApplication → ℕ → Result (View × DebugApplication)
  unfolding set_row redraw
  select_event da row = set_row da row >>= λ moved. redraw moved

  unfoldable pub choose_reactor : DebugApplication → ℕ → Result (View × DebugApplication)
  unfolding redraw
  choose_reactor da i = redraw (record da { active_reactor = i })

-- The function of the table of sent messages: the row of the table of events that it selects.
unfoldable pub select_sent : DebugApplication → ℕ → Result ℕ
unfolding sent_events_at_active max
select_sent da row = sent_events_at_active da >>= λ events.
    some_or_panic (get_elem? events (min (max 0 (row - 1)) (length events))) >>= λ event.
    ok event.recv_at

-- `goToFrom`
unfoldable pub go_to_from : DebugApplication → Result ℕ
go_to_from da =
    some_or_panic (get_elem? da.events (da.active_row - 1)) >>= λ event. ok event.sent_at

-- The loop of `MakeDebugApplication` that looks for the first receiver, over the reactors in the order of
-- the map, that is before they are sorted.
abbrev or_zero : Place → ℕ
or_zero none = 0
or_zero (some i) = i

-- `MakeDebugApplication`, of what the queries gave.
unfoldable pub make_debug_application :
    List Heap → List NetworkEvent → SequenceDiagrams → Result DebugApplication
unfolding index sort
make_debug_application heaps events diagrams = some_or_panic (get_elem? heaps 0) >>= λ first.
    some_or_panic (get_elem? events 0) >>= λ event.
    let reactors : List Text = Dict.keys first in
    ok (record {
      heaps = heaps;
      diagrams = diagrams;
      events = events;
      reactors = sort reactors;
      active_row = 1;
      active_reactor = or_zero (index reactors event.to);
    })
