-- ===== src/Base/Decimal.antt =====
-- Unsigned numbers in decimal: the verb `%d` and `strconv.ParseUint(s, 10, 64)`.
use mathlib.Core.List.{concat-ne-nil}
use detsys_testkit.Base.{
  ℕ, zero, suc, ◌+◌, ◌-◌, ◌*◌, ◌/◌, ◌%◌, ◌^◌, ◌<◌, ◌≡◌, refl, ◌≢◌, inl, inr, ◌||◌, [], ◌∷◌, ◌++◌,
  Option, none, some, arith, ltb, if◌then◌else◌, Bool-cases, Option-cases, ap, ◌∙◌, All-append, All,
  All-imp, ◌≤◌,
}
use detsys_testkit.Base.Text.{Text, Lacks}

-- One more than the largest `uint64`.
abbrev pub uint64_mod : ℕ
uint64_mod = 2 ^ 64

digits : ℕ → ℕ → Text
digits zero n = []
digits (suc fuel) n =
    let front = digits fuel (n / 10) in
    if ltb n 10 then (b'0' + n) ∷ [] else front ++ (b'0' + n % 10) ∷ []

-- `fmt.Sprintf("%d", n)`
unfoldable pub decimal : ℕ → Text
unfolding digits
decimal n = digits (suc n) n

-- One round of the loop of `ParseUint`: no digit, or a value above the largest `uint64`, is an error.
next_digit : ℕ → ℕ → Option ℕ
next_digit n b =
    if ltb b b'0' || ltb b'9' b
    then none
    else if ltb (n * 10 + (b - b'0')) uint64_mod
    then some (n * 10 + (b - b'0'))
    else none

scan : Text → ℕ → Option ℕ
scan [] n = some n
scan (b ∷ s) n = elim (next_digit n b) [ none ↦ none | some m ↦ scan s m ]

unfoldable pub parse_uint : Text → Option ℕ
unfolding scan next_digit
parse_uint [] = none
parse_uint (b ∷ s) = scan (b ∷ s) 0

next_digit_of_digit :
    (n d : ℕ) → d < 10 → n * 10 + d < uint64_mod → next_digit n (b'0' + d) ≡ some (n * 10 + d)
unfolding next_digit
next_digit_of_digit n d h k = ground arith

scan-append :
    (s t : Text) (n : ℕ) → scan (s ++ t) n ≡ elim (scan s n) [ none ↦ none | some m ↦ scan t m ]
unfolding scan
scan-append [] t n = refl
scan-append (b ∷ s) t n = elim (Option-cases (next_digit n b)) [
  | inl e ↦ rw (e, scan)
  | inr (m, e) ↦ rw (e, scan) (scan-append s t m)
]

scan_one :
    (n d : ℕ) → d < 10 → n * 10 + d < uint64_mod → scan ((b'0' + d) ∷ []) n ≡ some (n * 10 + d)
unfolding scan
scan_one n d h k = rw (next_digit_of_digit n d h k, scan)

scan-digits : (fuel n : ℕ) → n < fuel → n < uint64_mod → scan (digits fuel n) 0 ≡ some n
unfolding digits
scan-digits zero n h k = elim h [ ]
scan-digits (suc fuel) n h k = elim (Bool-cases (ltb n 10)) [
  | inl one ↦ rw one (scan_one 0 n (ground arith) (ground arith) ∙ ap some (omega arith))
  | inr more ↦ rw more (
      scan-append (digits fuel (n / 10)) _ 0
      ∙ rw (scan-digits fuel (n / 10) (ground arith) (omega arith))
          (scan_one (n / 10) (n % 10) (omega arith) (omega arith) ∙ ap some (omega arith)))
]

digits-ne-nil : (fuel n : ℕ) → n < fuel → digits fuel n ≢ []
unfolding digits
digits-ne-nil zero n h = elim h [ ]
digits-ne-nil (suc fuel) n h = elim (Bool-cases (ltb n 10)) [
  | inl one ↦ rw one (λ e. cc)
  | inr more ↦ rw more (concat-ne-nil _ _)
]

parse_uint_of_scan : (s : Text) (n : ℕ) → s ≢ [] → scan s 0 ≡ some n → parse_uint s ≡ some n
unfolding parse_uint
parse_uint_of_scan [] n h e = absurd (h refl)
parse_uint_of_scan (b ∷ s) n h e = e

-- A `uint64` that is printed is read back.
pub parse_uint-decimal : (n : ℕ) → n < uint64_mod → parse_uint (decimal n) ≡ some n
unfolding decimal
parse_uint-decimal n h =
    parse_uint_of_scan (digits (suc n) n) n (digits-ne-nil (suc n) n (omega arith))
      (scan-digits (suc n) n (omega arith) h)

abbrev pub IsDigit : ℕ → Type 0
IsDigit b = (b'0' ≤ b) × (b ≤ b'9')

digits-IsDigit : (fuel n : ℕ) → All IsDigit (digits fuel n)
unfolding digits
digits-IsDigit zero n = tt
digits-IsDigit (suc fuel) n = elim (Bool-cases (ltb n 10)) [
  | inl one ↦ rw one (ground arith, tt)
  | inr more ↦
      rw more
        (All-append _ (digits fuel (n / 10)) _ (digits-IsDigit fuel (n / 10)) (omega arith, tt))
]

pub decimal-IsDigit : (n : ℕ) → All IsDigit (decimal n)
unfolding decimal
decimal-IsDigit n = digits-IsDigit (suc n) n

-- The decimal digits hold no byte above `9`, such as a colon.
pub decimal-Lacks : (b n : ℕ) → b'9' < b → Lacks b (decimal n)
decimal-Lacks b n h = All-imp (λ a d. omega arith) (decimal n) (decimal-IsDigit n)
