-- ===== src/Debugger/Trace/Crashes.antt =====
-- The crashes by logical time, against the list of faults.
use detsys_testkit.Base.{
  ℕ, ◌≡◌, refl, sym, ap, ◌∙◌, inl, inr, List, [], ◌∷◌, ◌++◌, some, ◌==◌, nat_eq, arith,
  if◌then◌else◌, ok, Bool-cases, append-nil, append_assoc,
}
use detsys_testkit.Base.Dict
use detsys_testkit.Base.Dict.{Dict}
use detsys_testkit.Base.Text.{Text}
use detsys_testkit.Debugger.Trace.{
  FaultArgs, crash, other, names_at, scan_faults, crashes_from, get_crashes,
}

-- The nodes that crash at a time, in the order of the faults.
abbrev pub crashed_at : ℕ → List FaultArgs → List Text
crashed_at k [] = []
crashed_at k (crash from at ∷ faults) =
    if k == at then from ∷ crashed_at k faults else crashed_at k faults
crashed_at k (other ∷ faults) = crashed_at k faults

crashes_from_lem :
    (k : ℕ) (crashes : Dict ℕ (List Text)) (faults : List FaultArgs)
    → names_at (Dict.lookup k (crashes_from crashes faults))
      ≡ names_at (Dict.lookup k crashes) ++ crashed_at k faults
unfolding crashes_from nat_eq
crashes_from_lem k crashes [] = sym (append-nil (names_at (Dict.lookup k crashes)))
crashes_from_lem k crashes (crash from at ∷ faults) =
    let names = names_at (Dict.lookup at crashes) ++ from ∷ [] in
    crashes_from_lem k (Dict.insert at names crashes) faults
    ∙ ap (λ t. names_at t ++ crashed_at k faults) (Dict.lookup-insert k at names crashes)
    ∙ elim (Bool-cases (k == at)) [
      | inl same ↦
          let e : k ≡ at = ground arith in
          rw (same) (
            append_assoc (names_at (Dict.lookup at crashes)) (from ∷ []) (crashed_at k faults)
            ∙ ap (λ t. names_at (Dict.lookup t crashes) ++ from ∷ crashed_at k faults) (sym e))
      | inr away ↦ rw (away) refl
    ]
crashes_from_lem k crashes (other ∷ faults) = crashes_from_lem k crashes faults

pub get_crashes_lem :
    (faults : List FaultArgs)
    → (crashes : Dict ℕ (List Text)) × (get_crashes (some faults ∷ []) ≡ ok crashes)
      × ((k : ℕ) → names_at (Dict.lookup k crashes) ≡ crashed_at k faults)
unfolding get_crashes scan_faults
get_crashes_lem faults = (
  crashes_from [] faults,
  refl,
  λ k. crashes_from_lem k [] faults ∙ rw (Dict.lookup-nil {K = ℕ} {V = List Text} k) refl,
)
