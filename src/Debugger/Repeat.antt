-- ===== src/Debugger/Repeat.antt =====
-- `WriteRepeat` of src/debugger/internal/sequence.go, which writes copies of a text by doubling what it
-- has written. Counts are Go `int`s: a difference may be negative, and the sum of two lengths may wrap.
pub mod Laws
use detsys_testkit.Base.{
  ℕ, zero, suc, ◌+◌, ◌-◌, ◌*◌, ◌/◌, ◌%◌, ◌^◌, Bool, List, [], ◌∷◌, ◌++◌, not, ◌||◌, ltb, leb, ◌==◌,
  nat_eq, length, if◌then◌else◌, Result, ok, panic,
}

pub data ℤ : Type 0 where
  pos : ℕ → ℤ
  negsuc : ℕ → ℤ

-- `a - b` on two `int`s that are not negative.
abbrev pub minus : ℕ → ℕ → ℤ
minus a b = if leb b a then pos (a - b) else negsuc (b - a - 1)

-- `len(s)*count/count != len(s)` for a positive count: a product above the largest `int` is negative.
unfoldable pub overflows : ℕ → ℕ → Bool
unfolding nat_eq
overflows len count =
    let product = (len * count) % 2 ^ 64 in leb (2 ^ 63) product || not (product / count == len)

module _ {A : Type 0} where
  abbrev pub take : ℕ → List A → List A
  take zero xs = []
  take (suc n) [] = []
  take (suc n) (x ∷ xs) = x ∷ take n xs

  -- The loop, from what is written so far up to `n` elements, when `n + origLen` is an `int`: both sides
  -- of its test are less by `origLen` here. A round writes at least one, so that `n` rounds are enough.
  unfoldable pub double : ℕ → ℕ → List A → List A
  double zero n written = written
  double (suc rounds) n written =
      let doubled = double rounds n (written ++ written) in
      if ltb (length written) n
      then (if leb (length written) (n / 2)
          then doubled
          else written ++ take (n - length written) written)
      else written

  -- `WriteRepeat(b, s, count)`: the builder after it. Where `on` has wrapped it is negative, and the loop
  -- ends at once.
  unfoldable pub write_repeat_to : List A → List A → ℤ → Result (List A)
  unfolding overflows
  write_repeat_to b s (pos zero) = ok b
  write_repeat_to b s (pos (suc n)) =
      let on = (length s * suc n + length b) % 2 ^ 64 in
      if overflows (length s) (suc n)
      then panic
      else if leb (2 ^ 63) on
      then ok (b ++ s)
      else ok (b ++ double (length s * suc n) (length s * suc n) s)
  write_repeat_to b s (negsuc n) = panic

  -- `WriteRepeat` into a builder of its own, for one piece of a row.
  unfoldable pub write_repeat : List A → ℤ → Result (List A)
  unfolding write_repeat_to
  write_repeat s count = write_repeat_to [] s count

  -- `strings.Repeat(s, count)`, one copy after another.
  unfoldable pub copies : ℕ → List A → List A
  copies zero s = []
  copies (suc n) s = s ++ copies n s
