-- ===== src/Base/Results.antt =====
-- How a Go call ends: with a value, with a returned `error`, by a panic, or by `log.Fatal`.
-- The texts of errors and of log lines are left out.
use mathlib.Core.Path.{◌≡◌, refl}
use mathlib.Core.Logic.{◌⊎◌, inl, inr}
use mathlib.Core.Option.{Option, none, some}

pub data Result {ℓ} (A : Type ℓ) : Type ℓ where
  ok : A → Result A
  err : Result A
  panic : Result A
  exit : Result A

-- The rest of the caller, which only a value reaches.
infixl 5 ◌>>=◌
abbrev pub ◌>>=◌ {ℓ κ} :
    {A : Type ℓ} {B : Type κ} (call : Result A) (rest : A → Result B) → Result B
ok value >>= rest = rest value
exit >>= rest = exit
panic >>= rest = panic
err >>= rest = err

-- `if err != nil { panic(err) }`
abbrev pub or_panic {ℓ} : {A : Type ℓ} → Result A → Result A
or_panic (ok a) = ok a
or_panic err = panic
or_panic panic = panic
or_panic exit = exit

-- A failed lookup that panics.
abbrev pub some_or_panic {ℓ} : {A : Type ℓ} → Option A → Result A
some_or_panic none = panic
some_or_panic (some a) = ok a

pub ok-inj {ℓ} : {A : Type ℓ} {a b : A} → ok a ≡ ok b → a ≡ b
ok-inj h = cc

-- A caller that ends with a value: its call did, and so did the rest on that value.
pub >>=-eq-ok {ℓ κ} :
    {A : Type ℓ} {B : Type κ} (call : Result A) (rest : A → Result B) {last : B}
    → (call >>= rest) ≡ ok last
    → (value : A) × (call ≡ ok value) × (rest value ≡ ok last)
>>=-eq-ok (ok value) rest ends = (value, refl, ends)
>>=-eq-ok exit rest ends = cc
>>=-eq-ok panic rest ends = cc
>>=-eq-ok err rest ends = cc

pub Result-cases {ℓ} :
    {A : Type ℓ}
    → (c : Result A) → ((a : A) × (c ≡ ok a)) ⊎ ((c ≡ err) ⊎ ((c ≡ panic) ⊎ (c ≡ exit)))
Result-cases (ok a) = inl (a, refl)
Result-cases err = inr (inl refl)
Result-cases panic = inr (inr (inl refl))
Result-cases exit = inr (inr (inr refl))
