-- ===== src/Debugger/Trace/Recorded.antt =====
-- What the maps of `Heaps` of src/debugger/internal/debugger.go hold: the changes and the initial states
-- that were recorded last.
use detsys_testkit.Base.{
  ℕ, ◌≡◌, refl, sym, ◌∙◌, inl, inr, List, [], ◌∷◌, Option, none, some, ◌==◌, nat_eq, text_eq, All,
  if◌then◌else◌, Bool-cases, Option-cases,
}
use mathlib.Core.Path.{subst}
use detsys_testkit.Base.Dict
use detsys_testkit.Base.Dict.{Dict}
use detsys_testkit.Base.Text.{Text}
use detsys_testkit.Debugger.Trace.{HeapDiff, Heap, first_heap, change_map}

-- The change that was recorded last for a time.
abbrev pub last_change : ℕ → List HeapDiff → Option HeapDiff
last_change at [] = none
last_change at (hd ∷ diffs) = elim (last_change at diffs) [
  | some later ↦ some later
  | none ↦ if at == hd.at then some hd else none
]

-- The state with which a reactor was deployed last.
abbrev pub initial : Text → List HeapDiff → Option Text
initial reactor [] = none
initial reactor (init ∷ inits) = elim (initial reactor inits) [
  | some later ↦ some later
  | none ↦ if reactor == init.reactor then some init.diff else none
]

lookup-change_map :
    (m : Dict ℕ HeapDiff) (diffs : List HeapDiff) (at : ℕ)
    → Dict.lookup at (change_map m diffs) ≡ elim (last_change at diffs) as (λ _. Option HeapDiff) [
      | some hd ↦ some hd
      | none ↦ Dict.lookup at m
    ]
unfolding change_map
lookup-change_map m [] at = refl
lookup-change_map m (hd ∷ diffs) at =
    lookup-change_map (Dict.insert hd.at hd m) diffs at
    ∙ elim (Option-cases (last_change at diffs)) [
      | inr (later, e) ↦ rw (e, last_change) refl
      | inl e ↦
          rw (e, last_change)
            (elim (Bool-cases (at == hd.at)) [
              | inl same ↦ rw (same) (Dict.lookup-insert at hd.at hd m ∙ rw same refl)
              | inr other ↦ rw (other) (Dict.lookup-insert at hd.at hd m ∙ rw other refl)
            ])
    ]

lookup-first_heap :
    (first : Heap) (inits : List HeapDiff) (reactor : Text)
    → Dict.lookup reactor (first_heap first inits)
      ≡ elim (initial reactor inits) as (λ _. Option Text) [
        | some state ↦ some state
        | none ↦ Dict.lookup reactor first
      ]
unfolding first_heap
lookup-first_heap first [] reactor = refl
lookup-first_heap first (init ∷ inits) reactor =
    lookup-first_heap (Dict.insert init.reactor init.diff first) inits reactor
    ∙ elim (Option-cases (initial reactor inits)) [
      | inr (later, e) ↦ rw (e, initial) refl
      | inl e ↦
          rw (e, initial)
            (elim (Bool-cases (reactor == init.reactor)) [
              | inl same ↦
                  rw (same) (Dict.lookup-insert reactor init.reactor init.diff first ∙ rw same refl)
              | inr other ↦
                  rw (other)
                    (Dict.lookup-insert reactor init.reactor init.diff first ∙ rw other refl)
            ])
    ]

-- What holds of the values of a map and of the changes holds of the values once these are stored.
pub change_map_all :
    (P : HeapDiff → Type 0) (m : Dict ℕ HeapDiff) (diffs : List HeapDiff)
    → ((k : ℕ) (v : HeapDiff) → Dict.lookup k m ≡ some v → P v)
    → All P diffs
    → (k : ℕ) (v : HeapDiff) → Dict.lookup k (change_map m diffs) ≡ some v
    → P v
unfolding change_map
change_map_all P m [] h ps k v e = h k v e
change_map_all P m (hd ∷ diffs) h (p, ps) k v e =
    change_map_all P (Dict.insert hd.at hd m) diffs
      (λ j w f. elim (Bool-cases (j == hd.at)) [
        | inl same ↦
            let g : some hd ≡ some w = sym (Dict.lookup-insert j hd.at hd m ∙ rw same refl) ∙ f in
            let q : hd ≡ w = cc in subst P q p
        | inr other ↦ h j w (sym (Dict.lookup-insert j hd.at hd m ∙ rw other refl) ∙ f)
      ])
      ps k v e

pub change_found :
    (diffs : List HeapDiff) (at : ℕ) → Dict.lookup at (change_map [] diffs) ≡ last_change at diffs
change_found diffs at = lookup-change_map [] diffs at ∙ elim (Option-cases (last_change at diffs)) [
  | inl e ↦ rw (e) (Dict.lookup-nil at)
  | inr (hd, e) ↦ rw (e) refl
]

pub first_found :
    (inits : List HeapDiff) (reactor : Text)
    → Dict.lookup reactor (first_heap [] inits) ≡ initial reactor inits
first_found inits reactor =
    lookup-first_heap [] inits reactor ∙ elim (Option-cases (initial reactor inits)) [
      | inl e ↦ rw (e) (Dict.lookup-nil reactor)
      | inr (state, e) ↦ rw (e) refl
    ]
