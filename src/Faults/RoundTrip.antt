-- ===== src/Faults/RoundTrip.antt =====
-- A fault that was given to the scheduler is read back from the JSON that was sent.
use detsys_testkit.Base.{
  ℕ, ◌<◌, ◌^◌, ap, arith, All, map, ◌≡◌, refl, List, [], ◌∷◌, Result, ok, ◌>>=◌, text_eq,
}
use detsys_testkit.Base.Dict.{Dict}
use detsys_testkit.Base.Text.{Text, text}
use detsys_testkit.Faults.{
  Fault, FaultArgs, omission, crash, SchedulerFault, to_scheduler_fault, to_scheduler_faults, Value,
  text_value, number_value, unmarshal_fault, int_of_float,
}

-- The JSON object of a scheduler fault, by its tags.
abbrev pub fields : SchedulerFault → Dict Text Value
fields f =
    (text "kind", text_value f.kind)
    ∷ (text "from", text_value f.from)
    ∷ (text "to", text_value f.to)
    ∷ (text "at", number_value f.at)
    ∷ []

-- The step at which a fault happens is one that a `float64` holds.
abbrev pub IsExact : Fault → Type 0
IsExact f = elim f.args [ omission from to at ↦ at < 2 ^ 53 | crash from at ↦ at < 2 ^ 53 ]

int_of_float-small : (n : ℕ) → n < 2 ^ 53 → int_of_float n ≡ n
unfolding int_of_float
int_of_float-small n h = ground arith

-- The kind says what the arguments are.
abbrev pub IsWellKinded : Fault → Type 0
IsWellKinded f = elim f.args [
  | omission from to at ↦ f.kind ≡ text "omission"
  | crash from at ↦ f.kind ≡ text "crash"
]

read_omission :
    (from to : Text) (at : ℕ)
    → at < 2 ^ 53
    → unmarshal_fault (fields (record { kind = text "omission"; from = from; to = to; at = at }))
      ≡ ok (record { kind = text "omission"; args = omission from to at })
unfolding unmarshal_fault
read_omission from to at h =
    ap (λ n. ok (record { kind = text "omission"; args = omission from to n }))
      (int_of_float-small at h)

read_crash :
    (from : Text) (at : ℕ)
    → at < 2 ^ 53
    → unmarshal_fault (fields (record { kind = text "crash"; from = from; to = []; at = at }))
      ≡ ok (record { kind = text "crash"; args = crash from at })
unfolding unmarshal_fault
read_crash from at h =
    ap (λ n. ok (record { kind = text "crash"; args = crash from n })) (int_of_float-small at h)

read_back :
    (kind : Text) (args : FaultArgs)
    → IsWellKinded (record { kind = kind; args = args })
    → IsExact (record { kind = kind; args = args })
    → unmarshal_fault (fields (to_scheduler_fault (record { kind = kind; args = args })))
      ≡ ok (record { kind = kind; args = args })
unfolding to_scheduler_fault
read_back kind (omission from to at) h k = rw h (read_omission from to at k)
read_back kind (crash from at) h k = rw h (read_crash from at k)

-- The loop over the faults of a run, as they are read from the data base.
pub unmarshal_faults : List (Dict Text Value) → Result (List Fault)
unmarshal_faults [] = ok []
unmarshal_faults (s ∷ rest) =
    unmarshal_fault s >>= λ fault. unmarshal_faults rest >>= λ faults. ok (fault ∷ faults)

-- Faults whose kind fits their arguments, and whose step is below 2^53, are turned into scheduler
-- faults, written as JSON objects and read back unchanged.
pub unmarshal_faults-to_scheduler_faults :
    (faults : List Fault)
    → All IsWellKinded faults
    → All IsExact faults
    → unmarshal_faults (map fields (to_scheduler_faults faults)) ≡ ok faults
unfolding unmarshal_faults to_scheduler_faults
unmarshal_faults-to_scheduler_faults [] h k = refl
unmarshal_faults-to_scheduler_faults (f ∷ faults) (here, h) (exact, k) =
    rw (read_back f.kind f.args here exact)
      (rw (unmarshal_faults-to_scheduler_faults faults h k) refl)
