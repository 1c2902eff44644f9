-- ===== src/Debugger/Diagrams/Cached.antt =====
-- What is kept does not change what is answered: each diagram is the one that drawing anew gives.
use detsys_testkit.Base.{
  ℕ, ◌+◌, ◌*◌, ◌^◌, ◌≤◌, ◌<◌, ◌≡◌, refl, sym, ap, ◌∙◌, inl, inr, List, [], ◌∷◌, map, Option, none,
  some, ◌==◌, nat_eq, arith, length, All, Result, ok, ◌>>=◌, Bool-cases, Option-cases,
}
use detsys_testkit.Base.Dict
use detsys_testkit.Base.Dict.{Dict}
use detsys_testkit.Base.Text.{Text}
use detsys_testkit.Debugger.Sequence.{Row, Arrow}
use detsys_testkit.Debugger.Sequence.Diagram.{draw_diagram, joined, names_from}
use detsys_testkit.Debugger.Sequence.Diagram.Placed.{draw_diagram_lem}
use detsys_testkit.Debugger.Trace.{NetworkEvent}
use detsys_testkit.Debugger.Diagrams.{
  Drawing, SequenceDiagrams, new_sequence_diagrams, arrow_of, settings_at, keep_header, at, at_all,
}

-- A trace that can be drawn: two nodes at least, and no text that is longer than a memory.
pub record IsTrace (net : List NetworkEvent) : Type 0 where
  pub two : 2 ≤ length (names_from [] (map arrow_of net))
  pub names :
      All (λ (event : NetworkEvent). (length event.from < 2 ^ 60) × (length event.to < 2 ^ 60)) net
  pub messages : All (λ (event : NetworkEvent). length event.message < 2 ^ 60) net

names_of :
    (events : List NetworkEvent)
    → All
        (λ (event : NetworkEvent). (length event.from < 2 ^ 60) × (length event.to < 2 ^ 60))
        events
    → All
        (λ (arr : Arrow). (length arr.from < 2 ^ 60) × (length arr.to < 2 ^ 60))
        (map arrow_of events)
names_of [] p = tt
names_of (event ∷ events) (p, ps) = (p, names_of events ps)

messages_of :
    (crashes : Dict ℕ (List Text)) (i : ℕ) (events : List NetworkEvent)
    → All (λ (event : NetworkEvent). length event.message < 2 ^ 60) events
    → All
        (λ (arr : Arrow). length arr.message + 2 * (settings_at crashes i).marker_size < 2 ^ 61)
        (map arrow_of events)
messages_of crashes i [] p = tt
messages_of crashes i (event ∷ events) (p, ps) = (omega (arith, p), messages_of crashes i events ps)

-- The rows of the diagram of an index, and the line of its mark.
draws :
    (net : List NetworkEvent) (crashes : Dict ℕ (List Text)) (i : ℕ)
    → IsTrace net
    → (h : List Row) × (rows : List Row) × (line : ℕ) × (draw_diagram
          (map arrow_of net)
          (settings_at crashes i)
        ≡ ok (h, rows, line))
      × (line < length rows)
draws net crashes i trace =
    let (h, rows, line, w, e, few, p, q) =
      draw_diagram_lem (map arrow_of net) (settings_at crashes i) trace.two
        (names_of net trace.names) (messages_of crashes i net trace.messages) in
    (h, rows, line, e, few)

module _ (net : List NetworkEvent) (crashes : Dict ℕ (List Text)) where
  -- The diagrams of the given indices, each drawn anew.
  abbrev pub drawn : ℕ → Result Drawing
  drawn i = draw_diagram (map arrow_of net) (settings_at crashes i) >>= λ (header, rows, line).
      ok (record { dia = joined rows; line = line })

  abbrev pub drawn_all : List ℕ → Result (List Drawing)
  drawn_all [] = ok []
  drawn_all (i ∷ is) = drawn i >>= λ d. drawn_all is >>= λ ds. ok (d ∷ ds)

  abbrev keeping : Dict ℕ Drawing → Option Row → SequenceDiagrams
  keeping inner header = record { inner = inner; header = header; net = net; crashes = crashes }

  abbrev IsKept : Dict ℕ Drawing → Type 0
  IsKept inner = (i : ℕ) (d : Drawing) → Dict.lookup i inner ≡ some d → drawn i ≡ ok d

  IsKept-insert :
      (inner : Dict ℕ Drawing) (i : ℕ) (d : Drawing)
      → IsKept inner
      → drawn i ≡ ok d
      → IsKept (Dict.insert i d inner)
  unfolding nat_eq
  IsKept-insert inner i d kept e j d' f = elim (Bool-cases (j == i)) [
    | inl same ↦
        let g : some d ≡ some d' = sym (Dict.lookup-insert j i d inner ∙ rw same refl) ∙ f in
        let q : ok d ≡ ok d' = cc in let here : j ≡ i = ground arith in ap drawn here ∙ e ∙ q
    | inr away ↦ kept j d' (sym (Dict.lookup-insert j i d inner ∙ rw away refl) ∙ f)
  ]

  at_lem :
      (inner : Dict ℕ Drawing) (header : Option Row) (i : ℕ) (h rows : List Row) (line : ℕ)
      → IsKept inner
      → draw_diagram (map arrow_of net) (settings_at crashes i) ≡ ok (h, rows, line)
      → (inner' : Dict ℕ Drawing) × (header' : Option Row) × (at (keeping inner header) i
          ≡ ok (record { dia = joined rows; line = line }, keeping inner' header'))
        × IsKept inner'
  unfolding at
  at_lem inner header i h rows line kept e =
      let d : Drawing = record { dia = joined rows; line = line } in
      let here : drawn i ≡ ok d = rw e refl in
      elim (Option-cases (Dict.lookup i inner)) [
        | inl new ↦ (
          Dict.insert i d inner,
          keep_header header (joined h),
          rw (new, at) (rw (e) refl),
          IsKept-insert inner i d kept here,
        )
        | inr (d', f) ↦
            let both : ok d' ≡ ok d = sym (kept i d' f) ∙ here in
            let same : d' ≡ d = cc in
            (inner, header, rw (f, at) (ap (λ p. ok (p, keeping inner header)) same), kept)
      ]

  -- The states that asking for diagrams comes to.
  abbrev pub IsCache : SequenceDiagrams → Type 0
  IsCache s =
      (inner : Dict ℕ Drawing) × (header : Option Row) × (s ≡ keeping inner header) × IsKept inner

  pub new-IsCache : IsCache (new_sequence_diagrams net crashes)
  new-IsCache = (
    [],
    none,
    refl,
    λ i d e. absurd (let none_some : none ≡ some d = sym (Dict.lookup-nil i) ∙ e in cc),
  )

  pub at-IsCache :
      (s : SequenceDiagrams) (i : ℕ)
      → IsTrace net
      → IsCache s
      → (rows : List Row) × (line : ℕ) × (s' : SequenceDiagrams) × (at s i
          ≡ ok (record { dia = joined rows; line = line }, s'))
        × (drawn i ≡ ok (record { dia = joined rows; line = line }))
        × (line < length rows)
        × IsCache s'
  at-IsCache s i trace (inner, header, same, kept) =
      let (h, rows, line, e, few) = draws net crashes i trace in
      let (inner', header', f, kept') = at_lem inner header i h rows line kept e in
      (
        rows,
        line,
        keeping inner' header',
        ap (λ t. at t i) same ∙ f,
        rw e refl,
        few,
        (inner', header', refl, kept'),
      )

  at_all_kept :
      (s : SequenceDiagrams) (is : List ℕ)
      → IsTrace net
      → IsCache s
      → (ds : List Drawing) × (s' : SequenceDiagrams) × (at_all s is ≡ ok (ds, s'))
        × (drawn_all is ≡ ok ds)
  unfolding at_all
  at_all_kept s [] trace cache = ([], s, refl, refl)
  at_all_kept s (i ∷ is) trace cache =
      let (rows, line, s', f, e, few, cache') = at-IsCache s i trace cache in
      let (ds, last, g, k) = at_all_kept s' is trace cache' in
      (
        record { dia = joined rows; line = line } ∷ ds,
        last,
        rw (f) (rw (g) refl),
        rw (e) (rw (k) refl),
      )

  -- For a trace with at least two names, all of whose texts are shorter than 2^60, any indices asked
  -- for in turn are answered by the diagrams that drawing each of them anew gives.
  pub at_all_lem :
      (is : List ℕ)
      → IsTrace net
      → (ds : List Drawing) × (s : SequenceDiagrams) × (at_all
            (new_sequence_diagrams net crashes)
            is
          ≡ ok (ds, s))
        × (drawn_all is ≡ ok ds)
  at_all_lem is trace = at_all_kept (new_sequence_diagrams net crashes) is trace new-IsCache
