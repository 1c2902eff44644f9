-- ===== src/Debugger/Trace/Heaps.antt =====
-- The states that `Heaps` keeps of each reactor, one before the run and one after each event.
use mathlib.Core.Path.{subst, fun_ext}
use detsys_testkit.Base.{
  ℕ, zero, suc, ◌≤◌, ◌≡◌, ◌≢◌, refl, ap, sym, ◌∙◌, inl, inr, List, [], ◌∷◌, Option, none, some,
  arith, ◌==◌, nat_eq, text_eq, length, get_elem?, All, if◌then◌else◌, ok, Bool-cases, Option-cases,
}
use detsys_testkit.Base.Dict
use detsys_testkit.Base.Dict.{Dict}
use detsys_testkit.Base.Text.{Text}
use detsys_testkit.Debugger.Repeat.{take}
use detsys_testkit.Debugger.Trace.{
  HeapDiff, NetworkEvent, Heap, state_of, first_heap, change_map, apply_diff, change, heaps_from,
  heaps,
}
use detsys_testkit.Debugger.Trace.Recorded.{
  last_change, initial, change_map_all, change_found, first_found,
}

-- The state of one reactor through a run: only the changes of events that it received count.
module _ (merge_patch : Text → Text → Option Text) (change_at : ℕ → Option HeapDiff)
    (reactor : Text) where
  abbrev pub state_step : Option Text → NetworkEvent → Option Text
  state_step state event = elim (change_at event.recv_at) [
    | none ↦ state
    | some hd ↦ if reactor == hd.reactor then merge_patch (state_of state) hd.diff else state
  ]

  abbrev pub state_after : Option Text → List NetworkEvent → Option Text
  state_after state [] = state
  state_after state (event ∷ events) = state_after (state_step state event) events

All-map :
    {A : Type 0} {P Q : A → Type 0} → ((x : A) → P x → Q x) → (xs : List A) → All P xs → All Q xs
All-map f [] h = h
All-map f (x ∷ xs) (p, ps) = (f x p, All-map f xs ps)

abbrev changed : Dict ℕ HeapDiff → ℕ → Option HeapDiff
changed changes at = Dict.lookup at changes

module _ (merge_patch : Text → Text → Option Text) (Valid : Text → Type 0)
    (merges : (a b : Text)
      → Valid a
      → Valid b
      → (c : Text) × (merge_patch a b ≡ some c) × Valid c) where
  -- Every reactor of a heap has a valid state, and the reactors of all changes are in it.
  abbrev IsLive : Dict ℕ HeapDiff → Heap → Type 0
  IsLive changes current =
      (at : ℕ) (hd : HeapDiff)
      → Dict.lookup at changes ≡ some hd
      → Valid hd.diff
        × ((state : Text) × (Dict.lookup hd.reactor current ≡ some state) × Valid state)

  change_lem :
      (changes : Dict ℕ HeapDiff) (current : Heap) (event : NetworkEvent)
      → IsLive changes current
      → (next : Heap) × (change merge_patch changes current event ≡ ok next)
        × IsLive changes next
        × ((reactor : Text)
            → Dict.lookup reactor next
              ≡ state_step merge_patch
                  (changed changes)
                  reactor
                  (Dict.lookup reactor current)
                  event)
  unfolding change apply_diff
  change_lem changes current event live = elim (Option-cases (Dict.lookup event.recv_at changes)) [
    | inl e ↦ (current, rw (e, change) refl, live, λ reactor. rw (e, state_step) refl)
    | inr (hd, e) ↦
        let (v, (state, f, u)) = live event.recv_at hd e in
        let (new, g, w) = merges state hd.diff u v in
        (
          Dict.insert hd.reactor new current,
          rw (e, change) (rw (f) (rw (g) refl)),
          (λ at' other l.
              let (v', (s, f', u')) = live at' other l in
              let looked = Dict.lookup-insert other.reactor hd.reactor new current in
              (
                v',
                elim (Bool-cases (other.reactor == hd.reactor)) [
                  | inl same ↦ (new, looked ∙ rw same refl, w)
                  | inr away ↦ (s, looked ∙ rw (away, f') refl, u')
                ],
              )),
          λ reactor.
              Dict.lookup-insert reactor hd.reactor new current
              ∙ elim (Bool-cases (reactor == hd.reactor)) [
                | inl same ↦
                    let r : reactor ≡ hd.reactor = ground arith in
                    rw (e, state_step) (rw (same) (rw (r) (rw (f) (sym g))))
                | inr away ↦ rw (e, state_step) (rw (away) refl)
              ],
        )
  ]

  heaps_from_lem :
      (changes : Dict ℕ HeapDiff) (current : Heap) (network : List NetworkEvent)
      → IsLive changes current
      → (rest : List Heap) × (heaps_from merge_patch changes current network ≡ ok rest)
        × (length rest ≡ length network)
        × ((n : ℕ)
            → n ≤ length network
            → (heap : Heap) × (get_elem? (current ∷ rest) n ≡ some heap)
              × ((reactor : Text)
                  → Dict.lookup reactor heap
                    ≡ state_after merge_patch
                        (changed changes)
                        reactor
                        (Dict.lookup reactor current)
                        (take n network)))
  unfolding heaps_from
  heaps_from_lem changes current [] live = (
    [],
    refl,
    refl,
    λ n h. let zero_n : n ≡ 0 = omega arith in rw zero_n (current, refl, λ reactor. refl),
  )
  heaps_from_lem changes current (event ∷ network) live =
      let (next, e, live', step) = change_lem changes current event live in
      let (rest, f, same, at_n) = heaps_from_lem changes next network live' in
      (next ∷ rest, rw (e) (rw (f) refl), ap suc same, go next rest step at_n)
    where
      go :
          (next : Heap) (rest : List Heap)
          → ((reactor : Text)
              → Dict.lookup reactor next
                ≡ state_step merge_patch
                    (changed changes)
                    reactor
                    (Dict.lookup reactor current)
                    event)
          → ((n : ℕ)
              → n ≤ length network
              → (heap : Heap) × (get_elem? (next ∷ rest) n ≡ some heap)
                × ((reactor : Text)
                    → Dict.lookup reactor heap
                      ≡ state_after merge_patch
                          (changed changes)
                          reactor
                          (Dict.lookup reactor next)
                          (take n network)))
          → (n : ℕ) → n ≤ length (event ∷ network)
          → (heap : Heap) × (get_elem? (current ∷ next ∷ rest) n ≡ some heap)
            × ((reactor : Text)
                → Dict.lookup reactor heap
                  ≡ state_after merge_patch
                      (changed changes)
                      reactor
                      (Dict.lookup reactor current)
                      (take n (event ∷ network)))
      go next rest step at_n zero h = (current, refl, λ reactor. refl)
      go next rest step at_n (suc n) h =
          let (heap, e, same) = at_n n (omega arith) in
          (
            heap,
            e,
            λ reactor.
                same reactor
                ∙ ap (λ s. state_after merge_patch (changed changes) reactor s (take n network))
                    (step reactor),
          )

  first_heap_all :
      (first : Heap) (inits : List HeapDiff)
      → ((k : Text) (v : Text) → Dict.lookup k first ≡ some v → Valid v)
      → All (λ (init : HeapDiff). Valid init.diff) inits
      → (k : Text) (v : Text) → Dict.lookup k (first_heap first inits) ≡ some v
      → Valid v
  unfolding first_heap
  first_heap_all first [] h ps k v e = h k v e
  first_heap_all first (init ∷ inits) h (p, ps) k v e =
      first_heap_all (Dict.insert init.reactor init.diff first) inits
        (λ j w f. elim (Bool-cases (j == init.reactor)) [
          | inl same ↦
              let g : some init.diff ≡ some w =
                sym (Dict.lookup-insert j init.reactor init.diff first ∙ rw same refl) ∙ f in
              let q : init.diff ≡ w = cc in subst Valid q p
          | inr other ↦
              h j w (sym (Dict.lookup-insert j init.reactor init.diff first ∙ rw other refl) ∙ f)
        ])
        ps k v e

  heaps_found :
      (inits diffs : List HeapDiff) (network : List NetworkEvent)
      → All (λ (init : HeapDiff). Valid init.diff) inits
      → All
          (λ (hd : HeapDiff). Valid hd.diff × (Dict.lookup hd.reactor (first_heap [] inits) ≢ none))
          diffs
      → (all : List Heap) × (heaps merge_patch inits diffs network ≡ ok all)
        × (length all ≡ suc (length network))
        × ((n : ℕ)
            → n ≤ length network
            → (heap : Heap) × (get_elem? all n ≡ some heap)
              × ((reactor : Text)
                  → Dict.lookup reactor heap
                    ≡ state_after merge_patch
                        (changed (change_map [] diffs))
                        reactor
                        (Dict.lookup reactor (first_heap [] inits))
                        (take n network)))
  unfolding heaps
  heaps_found inits diffs network valid deployed =
      let first = first_heap [] inits in
      let live : IsLive (change_map [] diffs) first = λ at hd e.
        let (v, known) =
          change_map_all (λ hd. Valid hd.diff × (Dict.lookup hd.reactor first ≢ none)) [] diffs
            (λ k w f. absurd (let none_some : none ≡ some w = sym (Dict.lookup-nil k) ∙ f in cc))
            deployed at hd e in
        (
          v,
          elim (Option-cases (Dict.lookup hd.reactor first)) [
            | inl missing ↦ absurd (known missing)
            | inr (state, f) ↦ (
              state,
              f,
              first_heap_all [] inits
                  (λ k w g.
                    absurd (let none_some : none ≡ some w = sym (Dict.lookup-nil k) ∙ g in cc))
                  valid hd.reactor state f,
            )
          ],
        ) in
      let (rest, e, same, at_n) = heaps_from_lem (change_map [] diffs) first network live in
      (first ∷ rest, rw (e) refl, ap suc same, at_n)

  -- If the initial states and the changes are valid, every change is of a reactor that was deployed,
  -- and patching valid texts gives valid texts, then Heaps returns one copy more than there are
  -- events, and in the copy after n events the state of each reactor is what these events make, one
  -- after the other, of the state with which it was deployed last: an event patches it with the
  -- change that was recorded last for its time, if that change is of this reactor, and leaves it as
  -- it is otherwise.
  pub heaps_lem :
      (inits diffs : List HeapDiff) (network : List NetworkEvent)
      → All (λ (init : HeapDiff). Valid init.diff) inits
      → All (λ (hd : HeapDiff). Valid hd.diff × (initial hd.reactor inits ≢ none)) diffs
      → (all : List Heap) × (heaps merge_patch inits diffs network ≡ ok all)
        × (length all ≡ suc (length network))
        × ((n : ℕ)
            → n ≤ length network
            → (heap : Heap) × (get_elem? all n ≡ some heap)
              × ((reactor : Text)
                  → Dict.lookup reactor heap
                    ≡ state_after merge_patch
                        (λ at. last_change at diffs)
                        reactor
                        (initial reactor inits)
                        (take n network)))
  heaps_lem inits diffs network valid deployed =
      let (all, e, size, at_n) = heaps_found inits diffs network valid (
        All-map (λ hd p. (p.0, λ missing. p.1 (sym (first_found inits hd.reactor) ∙ missing))) diffs
          deployed) in
      (
        all,
        e,
        size,
        λ n h.
            let (heap, f, same) = at_n n h in
            (
              heap,
              f,
              λ reactor.
                  same reactor
                  ∙ ap
                      (λ s.
                        state_after merge_patch (changed (change_map [] diffs)) reactor s
                          (take n network))
                      (first_found inits reactor)
                  ∙ ap
                      (λ find.
                        state_after merge_patch find reactor (initial reactor inits)
                          (take n network))
                      (fun_ext (change_found diffs)),
            ),
      )
