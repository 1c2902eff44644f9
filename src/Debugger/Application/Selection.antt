-- ===== src/Debugger/Application/Selection.antt =====
-- What the user selects: the events and the reactors, from the first application on.
use detsys_testkit.Base.{
  ℕ, zero, suc, ◌-◌, ◌≤◌, ◌<◌, ◌≡◌, ◌≢◌, refl, ap, sym, ◌∙◌, none, ◌==◌, text_eq, Bool-cases, inl,
  inr, List, [], ◌∷◌, some, arith, length, get_elem?, Result, ok, Option-cases,
}
use mathlib.Core.Path.{subst}
use detsys_testkit.Base.Dict
use detsys_testkit.Base.Dict.{Dict}
use detsys_testkit.Base.Sort.{length-sort}
use detsys_testkit.Base.Text.{Text}
use detsys_testkit.Debugger.Sequence.Diagram.{index, names_from}
use detsys_testkit.Debugger.Trace.{NetworkEvent, Heap, max}
use detsys_testkit.Debugger.Diagrams.{new_sequence_diagrams}
use detsys_testkit.Debugger.Diagrams.Cached.{IsTrace, new-IsCache}
use detsys_testkit.Debugger.Application.{
  DebugApplication, View, set_reactor, set_row, redraw, select_event, choose_reactor,
  make_debug_application, or_zero,
}
use detsys_testkit.Debugger.Application.Ready.{
  get_inside, index_inside, IsReady, IsShown, redraw_row,
}

length-keys : {A : Type 0} → (d : Dict Text A) → length (Dict.keys d) ≡ length d
unfolding Dict.keys
length-keys [] = refl
length-keys (entry ∷ d) = ap suc (length-keys d)

or_zero_inside :
    (names : List Text) (name : Text) → 1 ≤ length names → or_zero (index names name) < length names
or_zero_inside names name one = elim (Option-cases (index names name)) [
  | inl e ↦ rw (e) one
  | inr (i, e) ↦ rw (e) (index_inside names name i e)
]

module _ (crashes : Dict ℕ (List Text)) where
  pub make-IsReady :
      (first : Heap) (rest : List Heap) (events : List NetworkEvent)
      → IsTrace events
      → 1 ≤ length first
      → length rest ≡ length events
      → (da : DebugApplication) × (make_debug_application
            (first ∷ rest)
            events
            (new_sequence_diagrams events crashes)
          ≡ ok da)
        × IsReady crashes da
        × (da.active_row ≡ 1)
  unfolding make_debug_application names_from
  make-IsReady first rest [] trace one same = let two = trace.two in absurd (omega arith)
  make-IsReady first rest (event ∷ events) trace one same = (
    _,
    refl,
    record {
      trace = trace;
      cache = new-IsCache (event ∷ events) crashes;
      copies = ap suc same;
      first = omega arith;
      last = omega arith;
      chosen = omega (
        arith,
        length-sort (Dict.keys first),
        or_zero_inside (Dict.keys first) event.to (omega (arith, length-keys first)),
      );
    },
    refl,
  )

  index_found :
      (names : List Text) (name : Text) (i : ℕ)
      → index names name ≡ some i
      → get_elem? names i ≡ some name
  unfolding index
  index_found [] name i e = cc
  index_found (v ∷ names) name i e = elim (Bool-cases (v == name)) [
    | inl here ↦ ground arith
    | inr away ↦ elim (Option-cases (index names name)) [
      | inl f ↦ absurd (ground arith)
      | inr (j, f) ↦ ground (arith, index_found names name j f)
    ]
  ]

  index-ne-none :
      (names : List Text) (name : Text) (i : ℕ)
      → get_elem? names i ≡ some name
      → index names name ≢ none
  unfolding index text_eq
  index-ne-none [] name i e f = cc
  index-ne-none (v ∷ names) name zero e f = ground arith
  index-ne-none (v ∷ names) name (suc i) e f = ground (arith, index-ne-none names name i e)

  -- An index chosen for a name: it is the name's, if the list has the name, and the one before otherwise.
  abbrev pub Chooses : List Text → ℕ → Text → ℕ → Type 0
  Chooses names old name i =
      ((j : ℕ) → get_elem? names j ≡ some name → get_elem? names i ≡ some name)
      × (((j : ℕ) → get_elem? names j ≢ some name) → i ≡ old)

  set_reactor_lem :
      (da : DebugApplication) (reactor : Text)
      → da.active_reactor < length da.reactors
      → (i : ℕ) × (set_reactor da reactor ≡ record da { active_reactor = i })
        × (i < length da.reactors)
        × Chooses da.reactors da.active_reactor reactor i
  unfolding set_reactor
  set_reactor_lem da reactor h = elim (Option-cases (index da.reactors reactor)) [
    | inl e ↦ (
      da.active_reactor,
      rw (e, set_reactor) refl,
      h,
      ((λ j f. absurd (index-ne-none da.reactors reactor j f e)), λ away. refl),
    )
    | inr (i, e) ↦ (
      i,
      rw (e, set_reactor) refl,
      index_inside da.reactors reactor i e,
      (
        (λ j f. index_found da.reactors reactor i e),
        λ away. absurd (away i (index_found da.reactors reactor i e)),
      ),
    )
  ]

  -- The application that `setRow` makes of one.
  abbrev moved_to : DebugApplication → ℕ → ℕ → DebugApplication
  moved_to da row i = record da { active_row = max 1 row; active_reactor = i }

  set_row_lem :
      (da : DebugApplication) (row : ℕ)
      → IsReady crashes da
      → row ≤ length da.events
      → (i : ℕ) × (event : NetworkEvent) × (set_row da row ≡ ok (moved_to da row i))
        × (get_elem? da.events (max 1 row - 1) ≡ some event)
        × IsReady crashes (moved_to da row i)
        × Chooses da.reactors da.active_reactor event.to i
  unfolding set_row max
  set_row_lem da row v h =
      let inside : max 1 row - 1 < length da.events = ground (arith, v.first, v.last) in
      let (event, e) = get_inside da.events (max 1 row - 1) inside in
      let moved : DebugApplication = record da { active_row = max 1 row } in
      let (i, f, within, chooses) = set_reactor_lem moved event.to v.chosen in
      (
        i,
        event,
        rw (e) (ap ok f),
        e,
        record {
          trace = v.trace;
          cache = v.cache;
          copies = v.copies;
          first = ground arith;
          last = ground (arith, v.first, v.last);
          chosen = within;
        },
        chooses,
      )

  module _ (log_messages : Text → ℕ → Result (List Text)) (height : ℕ)
      (logged : (reactor : Text) (at : ℕ)
        → (logs : List Text) × (log_messages reactor at ≡ ok logs))
      (two : 2 ≤ height) where
    pub redraw_lem :
        (da : DebugApplication)
        → IsReady crashes da
        → (view : View) × (da' : DebugApplication) × (redraw log_messages height da
            ≡ ok (view, da'))
          × IsReady crashes da'
          × IsShown da view
          × (da' ≡ record da { diagrams = da'.diagrams })
    redraw_lem da v =
        redraw_row crashes log_messages height logged two da (da.active_row - 1)
          (omega (arith, v.first)) v

    -- While the application is well-formed, the diagram has a height of at least two lines and the
    -- log messages can be read, selecting any row of the table of events succeeds and keeps it well-
    -- formed: of the application only the diagrams that were drawn, the active row, which is that
    -- row or the first, and the chosen reactor change; the receiver of the event of this row is
    -- chosen if it is a reactor, and the same reactor as before otherwise; and the view has the
    -- states of the chosen reactor before and after the event.
    pub select_event_lem :
        (da : DebugApplication) (row : ℕ)
        → IsReady crashes da
        → row ≤ length da.events
        → (event : NetworkEvent) × (view : View) × (da' : DebugApplication) × (select_event
              log_messages height da row
            ≡ ok (view, da'))
          × IsReady crashes da'
          × (da' ≡ record da {
            diagrams = da'.diagrams;
            active_row = max 1 row;
            active_reactor = da'.active_reactor;
          })
          × (get_elem? da.events (max 1 row - 1) ≡ some event)
          × Chooses da.reactors da.active_reactor event.to da'.active_reactor
          × IsShown da' view
    unfolding select_event
    select_event_lem da row v h =
        let (i, event, e, f, w, chooses) = set_row_lem da row v h in
        let (view, da', g, u, shown, same) = redraw_lem (moved_to da row i) w in
        let kept : da'.active_reactor ≡ i = ap (λ (d : DebugApplication). d.active_reactor) same in
        (
          event,
          view,
          da',
          rw (e) g,
          u,
          same ∙ ap (λ j. record (moved_to da row j) { diagrams = da'.diagrams }) (sym kept),
          f,
          subst (Chooses da.reactors da.active_reactor event.to) (sym kept) chooses,
          subst (λ d. IsShown d view) (sym same)
              (record {
                reactor = shown.reactor;
                before = shown.before;
                after = shown.after;
                is_chosen = shown.is_chosen;
                is_before = shown.is_before;
                is_after = shown.is_after;
                old = shown.old;
                new = shown.new;
              }),
        )

    pub choose_reactor_lem :
        (da : DebugApplication) (i : ℕ)
        → IsReady crashes da
        → i < length da.reactors
        → (view : View) × (da' : DebugApplication) × (choose_reactor log_messages height da i
            ≡ ok (view, da'))
          × IsReady crashes da'
          × IsShown (record da { active_reactor = i }) view
          × (da' ≡ record da { active_reactor = i; diagrams = da'.diagrams })
    unfolding choose_reactor
    choose_reactor_lem da i v h =
        redraw_lem (record da { active_reactor = i })
          (record {
            trace = v.trace;
            cache = v.cache;
            copies = v.copies;
            first = v.first;
            last = v.last;
            chosen = h;
          })
