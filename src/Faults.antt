-- ===== src/Faults.antt =====
-- Faults between the fault injector and the scheduler: src/lib/ldfi.go, and `toSchedulerFaults` of
-- src/lib/scheduler.go.
pub mod RoundTrip
use detsys_testkit.Base.{
  ℕ, List, [], ◌∷◌, ◌++◌, Option, none, some, ◌==◌, text_eq, if◌then◌else◌, Result, ok, panic,
  ◌>>=◌, map, ltb, leb, ◌+◌, ◌*◌, ◌/◌, ◌%◌, ◌^◌, ◌&&◌, ◌||◌, zero, suc, nat_eq,
}
use detsys_testkit.Base.Dict
use detsys_testkit.Base.Dict.{Dict}
use detsys_testkit.Base.Text.{Text, text}
use detsys_testkit.Base.Decimal.{decimal}

pub data FaultArgs : Type 0 where
  omission : Text → Text → ℕ → FaultArgs
  crash : Text → ℕ → FaultArgs

pub record Fault : Type 0 where
  pub kind : Text
  pub args : FaultArgs

pub record SchedulerFault : Type 0 where
  pub kind : Text
  pub from : Text
  pub to : Text
  pub at : ℕ

-- One round of `toSchedulerFaults`.
unfoldable pub to_scheduler_fault : Fault → SchedulerFault
to_scheduler_fault fault = elim fault.args [
  | omission from to at ↦ record { kind = fault.kind; from = from; to = to; at = at }
  | crash from at ↦ record { kind = fault.kind; from = from; to = []; at = at }
]

unfoldable pub to_scheduler_faults : List Fault → List SchedulerFault
unfolding to_scheduler_fault
to_scheduler_faults [] = []
to_scheduler_faults (fault ∷ faults) = to_scheduler_fault fault ∷ to_scheduler_faults faults

-- The values of a JSON object: texts, whole numbers from zero on, and the rest. Negative numbers and
-- fractions are left out.
pub data Value : Type 0 where
  text_value : Text → Value
  number_value : ℕ → Value
  other_value : Value

-- `strings.ToLower` on ASCII.
lower : ℕ → ℕ
lower b = if leb b'A' b && leb b b'Z' then b + 32 else b

unfoldable pub to_lower : Text → Text
unfolding lower
to_lower = map lower

-- `s[key].(string)` panics on a missing key and on another type; `s[key].(float64)` likewise.
unfoldable pub get_text : Text → Dict Text Value → Result Text
get_text key s = elim (Dict.lookup key s) [ some (text_value t) ↦ ok t | _ ↦ panic ]

unfoldable pub get_number : Text → Dict Text Value → Result ℕ
get_number key s = elim (Dict.lookup key s) [ some (number_value n) ↦ ok n | _ ↦ panic ]

-- The bits that a number has beyond the 53 of a `float64`. The rounds bound them.
shift : ℕ → ℕ → ℕ
shift zero n = 0
shift (suc rounds) n = let more = shift rounds (n / 2) in if ltb n (2 ^ 53) then 0 else suc more

-- Half of the last place is rounded to even.
round_to : ℕ → ℕ → ℕ
unfolding nat_eq
round_to zero n = n
round_to (suc k) n =
    let m = n / 2 ^ suc k in
    let r = n % 2 ^ suc k in
    if ltb (2 ^ k) r || (r == 2 ^ k && m % 2 == 1) then (m + 1) * 2 ^ suc k else m * 2 ^ suc k

-- `int(x)` for the `float64` nearest to a number: from 2^63 on it is, on amd64, the smallest `int`, whose
-- bits are 2^63. A number with more than 64 bits is one of these, whatever the rounds.
unfoldable pub int_of_float : ℕ → ℕ
unfolding shift round_to
int_of_float n = let x = round_to (shift 11 n) n in if leb (2 ^ 63) x then 2 ^ 63 else x

-- `Fault.UnmarshalJSON`, from the decoded object on.
unfoldable pub unmarshal_fault : Dict Text Value → Result Fault
unfolding get_text get_number int_of_float to_lower Dict.lookup text_eq
unmarshal_fault s = get_text (text "kind") s >>= λ kind.
    if to_lower kind == text "omission"
    then (get_text (text "from") s >>= λ from. get_text (text "to") s >>= λ to.
        get_number (text "at") s >>= λ at.
        ok (record { kind = text "omission"; args = omission from to (int_of_float at) }))
    else if to_lower kind == text "crash"
    then (get_text (text "from") s >>= λ from. get_number (text "at") s >>= λ at.
        ok (record { kind = text "crash"; args = crash from (int_of_float at) }))
    else panic

pub record FailSpec : Type 0 where
  pub eff : ℕ
  pub crashes : ℕ
  pub eot : ℕ
  pub limit_faults : ℕ

failed_runs : List ℕ → List Text
failed_runs [] = []
failed_runs (r ∷ rs) = text "--failedRunId" ∷ decimal r ∷ failed_runs rs

-- The arguments with which `Ldfi` calls the fault injector.
unfoldable pub ldfi_args : ℕ → List ℕ → FailSpec → List Text
unfolding failed_runs decimal
ldfi_args test_id failed fail =
    (text "--endOfFiniteFailures"
      ∷ decimal fail.eff
      ∷ text "--maxCrashes"
      ∷ decimal fail.crashes
      ∷ text "--testId"
      ∷ decimal test_id
      ∷ text "--endOfTime"
      ∷ decimal 0
      ∷ [])
    ++ (if ltb 0 fail.limit_faults
        then text "--limitNumberOfFaults" ∷ decimal fail.limit_faults ∷ []
        else [])
    ++ failed_runs failed
