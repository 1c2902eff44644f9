-- ===== src/Debugger/Application/Ready.antt =====
-- The invariant of the application: every event and every reactor can be selected, and is then shown.
use detsys_testkit.Base.{
  ℕ, zero, suc, ◌-◌, ◌≤◌, ◌<◌, ◌≡◌, refl, ap, ◌∙◌, inl, inr, List, [], ◌∷◌, map, filter, nat_eq,
  some, arith, ◌==◌, text_eq, length, get_elem?, Result, ok, panic, Bool-cases, Option-cases,
}
use detsys_testkit.Base.Dict
use detsys_testkit.Base.Dict.{Dict}
use detsys_testkit.Base.Text.{Text}
use detsys_testkit.Debugger.Sequence.{Row}
use detsys_testkit.Debugger.Sequence.Diagram.{index, joined}
use detsys_testkit.Debugger.Trace.{NetworkEvent, Heap, state_of}
use detsys_testkit.Debugger.Diagrams.{SequenceDiagrams, Drawing, at, header_of}
use detsys_testkit.Debugger.Diagrams.Cached.{IsTrace, IsCache, at-IsCache}
use detsys_testkit.Debugger.Application.{
  DebugApplication, View, split_after, window, join, min, sent_events_at_active, sent_cells,
  refresh_sent_messages, redraw_from, redraw,
}
use detsys_testkit.Debugger.Application.Window.{window_lem, split_after-joined}

pub get_inside :
    {A : Type 0} → (xs : List A) (i : ℕ) → i < length xs → (x : A) × (get_elem? xs i ≡ some x)
get_inside [] i h = absurd (omega arith)
get_inside (x ∷ xs) zero h = (x, refl)
get_inside (x ∷ xs) (suc i) h = get_inside xs i (omega arith)

pub index_inside :
    (names : List Text) (name : Text) (i : ℕ) → index names name ≡ some i → i < length names
unfolding index
index_inside [] name i e = absurd (ground arith)
index_inside (v ∷ names) name i e = elim (Bool-cases (v == name)) [
  | inl here ↦ ground arith
  | inr away ↦ elim (Option-cases (index names name)) [
    | inl f ↦ absurd (ground arith)
    | inr (j, f) ↦ ground (arith, index_inside names name j f)
  ]
]

pub record IsReady (crashes : Dict ℕ (List Text)) (da : DebugApplication) : Type 0 where
  pub trace : IsTrace da.events
  pub cache : IsCache da.events crashes da.diagrams
  pub copies : length da.heaps ≡ suc (length da.events)
  pub first : 1 ≤ da.active_row
  pub last : da.active_row ≤ length da.events
  pub chosen : da.active_reactor < length da.reactors

-- What a redrawn application shows of the chosen reactor: its states before and after the active event.
pub record IsShown (da : DebugApplication) (view : View) : Type 0 where
  pub reactor : Text
  pub before : Heap
  pub after : Heap
  pub is_chosen : get_elem? da.reactors da.active_reactor ≡ some reactor
  pub is_before : get_elem? da.heaps (da.active_row - 1) ≡ some before
  pub is_after : get_elem? da.heaps da.active_row ≡ some after
  pub old : view.old ≡ state_of (Dict.lookup reactor before)
  pub new : view.new ≡ state_of (Dict.lookup reactor after)

-- `redraw`, when every access succeeds.
redraw_found :
    (log_messages : Text → ℕ → Result (List Text)) (height row : ℕ) (da : DebugApplication)
    → (drawing : Drawing) (diagrams : SequenceDiagrams) (shown : List Row) (reactor : Text)
      (before after : Heap) (event : NetworkEvent) (logs : List Text)
    → da.active_row ≡ suc row
    → at da.diagrams row ≡ ok (drawing, diagrams)
    → window (split_after drawing.dia) drawing.line height ≡ ok shown
    → get_elem? da.reactors da.active_reactor ≡ some reactor
    → get_elem? da.heaps row ≡ some before
    → get_elem? da.heaps (min (suc row) (length da.heaps)) ≡ some after
    → get_elem? da.events row ≡ some event
    → get_elem? da.events (da.active_row - 1) ≡ some event
    → log_messages reactor event.recv_at ≡ ok logs
    → redraw log_messages height da
      ≡ ok (
        record {
          diagram = join shown;
          header = header_of diagrams;
          old = state_of (Dict.lookup reactor before);
          new = state_of (Dict.lookup reactor after);
          message = event.args;
          logs = logs;
          sent = map sent_cells (filter (λ ev. ev.sent_at == event.recv_at) da.events);
        },
        record da { diagrams = diagrams },
      )
unfolding redraw redraw_from refresh_sent_messages sent_events_at_active
redraw_found log_messages height row da drawing diagrams shown reactor before after event logs same
      e f g h k l l' m =
    ap
      (λ n. elim n as (λ x. Result (View × DebugApplication)) [
        | zero ↦ panic
        | suc b ↦ redraw_from log_messages height da b
      ])
      same
    ∙ rw (e) (rw (f) (rw (g) (rw (h) (rw (k) (rw (l) (rw (m) (rw (l') refl)))))))

module _ (crashes : Dict ℕ (List Text)) (log_messages : Text → ℕ → Result (List Text)) (height : ℕ)
    (logged : (reactor : Text) (at : ℕ) → (logs : List Text) × (log_messages reactor at ≡ ok logs))
    (two : 2 ≤ height) where
  pub redraw_row :
      (da : DebugApplication) (row : ℕ)
      → da.active_row ≡ suc row
      → IsReady crashes da
      → (view : View) × (da' : DebugApplication) × (redraw log_messages height da ≡ ok (view, da'))
        × IsReady crashes da'
        × IsShown da view
        × (da' ≡ record da { diagrams = da'.diagrams })
  redraw_row da row same v =
      let (rows, line, diagrams, e, fresh, few, cache) =
        at-IsCache da.events crashes da.diagrams row v.trace v.cache in
      let (shown, i, f, fits, marked) =
        window_lem (split_after (joined rows)) line height (omega (arith, split_after-joined rows))
          two in
      let (reactor, g) = get_inside da.reactors da.active_reactor v.chosen in
      let (before, h) = get_inside da.heaps row (omega (arith, v.copies, v.last)) in
      let (after, k) = get_inside da.heaps (suc row) (omega (arith, v.copies, v.last)) in
      let (event, l) = get_inside da.events row (omega (arith, v.last)) in
      let (logs, m) = logged reactor event.recv_at in
      let within : min (suc row) (length da.heaps) ≡ suc row = ground (arith, v.copies, v.last) in
      let here : da.active_row - 1 ≡ row = omega (arith, same) in
      (
        _,
        _,
        redraw_found log_messages height row da _ diagrams shown reactor before after event logs
            same e f g h (ap (get_elem? da.heaps) within ∙ k) l (ap (get_elem? da.events) here ∙ l)
            m,
        record {
          trace = v.trace;
          cache = cache;
          copies = v.copies;
          first = v.first;
          last = v.last;
          chosen = v.chosen;
        },
        record {
          reactor = reactor;
          before = before;
          after = after;
          is_chosen = g;
          is_before = ap (get_elem? da.heaps) here ∙ h;
          is_after = ap (get_elem? da.heaps) same ∙ k;
          old = refl;
          new = refl;
        },
        refl,
      )
