-- ===== src/Debugger/Repeat/Laws.antt =====
-- The doubling loop writes as many copies as it is asked for.
use native.Mathlib.Nat.{mul_comm, add-mul, suc-mul, mul-le-mul_right, mul-pos, mul-div_cancel}
use detsys_testkit.Base.{
  ℕ, zero, suc, ◌+◌, ◌-◌, ◌*◌, ◌/◌, ◌%◌, ◌^◌, ◌≤◌, ◌<◌, ◌≡◌, refl, ap, sym, ◌∙◌, true, false, List,
  [], ◌∷◌, ◌++◌, append_assoc, append-nil, arith, ltb, leb, nat_eq, length, length-append, ok,
  ◌>>=◌, inl, inr, Bool-cases,
}
use detsys_testkit.Debugger.Repeat.{
  pos, overflows, take, double, write_repeat_to, write_repeat, copies,
}

module _ {A : Type 0} where
  length-copies : (n : ℕ) (s : List A) → length (copies n s) ≡ n * length s
  unfolding copies
  length-copies zero s = omega arith
  length-copies (suc n) s =
      omega (arith, length-append s (copies n s), length-copies n s, suc-mul n (length s))

  copies_suc : (n : ℕ) (s : List A) → copies (suc n) s ≡ s ++ copies n s
  unfolding copies
  copies_suc n s = refl

  copies_zero : (s : List A) → copies zero s ≡ []
  unfolding copies
  copies_zero s = refl

  copies_nil : (n : ℕ) → copies {A = A} n [] ≡ []
  unfolding copies
  copies_nil zero = refl
  copies_nil (suc n) = copies_nil n

  copies-add : (m n : ℕ) (s : List A) → copies (m + n) s ≡ copies m s ++ copies n s
  copies-add zero n s = let e : zero + n ≡ n = omega arith in rw (e, copies_zero s) refl
  copies-add (suc m) n s =
      let e : suc m + n ≡ suc (m + n) = omega arith in
      rw (e, copies_suc (m + n) s, copies_suc m s, copies-add m n s)
        (sym (append_assoc s (copies m s) (copies n s)))

  take-append : (xs ys : List A) → take (length xs) (xs ++ ys) ≡ xs
  take-append [] ys = refl
  take-append (x ∷ xs) ys = ap (λ zs. x ∷ zs) (take-append xs ys)

  -- A prefix of copies is fewer copies.
  take-copies : (m n : ℕ) (s : List A) → take (m * length s) (copies (m + n) s) ≡ copies m s
  take-copies m n s =
      rw (copies-add m n s, sym (length-copies m s)) (take-append (copies m s) (copies n s))

  -- What is left to write is a shorter prefix of what is written.
  double_last :
      (rounds k d : ℕ) (s : List A)
      → 1 ≤ length s
      → d < k
      → double (suc rounds) ((k + d) * length s) (copies k s) ≡ copies (k + d) s
  unfolding double
  double_last rounds k zero s h lt =
      let same : k + zero ≡ k = omega arith in
      let full : ltb (length (copies k s)) (k * length s) ≡ false =
        ground (arith, length-copies k s) in
      rw (same, full) refl
  double_last rounds k (suc d) s h lt =
      let n : (k + suc d) * length s ≡ k * length s + suc d * length s =
        add-mul k (suc d) (length s) in
      let w : length (copies k s) ≡ k * length s = length-copies k s in
      let fewer : (suc d + 1) * length s ≤ k * length s =
        mul-le-mul_right (length s) (omega arith) in
      let one_more : (suc d + 1) * length s ≡ suc d * length s + 1 * length s =
        add-mul (suc d) 1 (length s) in
      let positive : 0 < suc d * length s = mul-pos (omega arith) (omega arith) in
      let more : ltb (length (copies k s)) ((k + suc d) * length s) ≡ true = ground (arith, n, w) in
      let half : leb (length (copies k s)) ((k + suc d) * length s / 2) ≡ false =
        ground (arith, n, w) in
      let rest : (k + suc d) * length s - length (copies k s) ≡ suc d * length s =
        omega (arith, n, w) in
      let split : k ≡ suc d + (k - suc d) = omega arith in
      let prefix : take (suc d * length s) (copies k s) ≡ copies (suc d) s =
        ap (λ j. take (suc d * length s) (copies j s)) split ∙ take-copies (suc d) (k - suc d) s in
      rw (more, half, rest) (ap (λ t. copies k s ++ t) prefix ∙ sym (copies-add k (suc d) s))

  double_again :
      (rounds k d : ℕ) (s : List A)
      → 1 ≤ length s
      → 1 ≤ k
      → k ≤ d
      → double (suc rounds) ((k + d) * length s) (copies k s)
        ≡ double rounds ((k + d) * length s) (copies (k + k) s)
  unfolding double
  double_again rounds k d s h one le =
      let n : (k + d) * length s ≡ k * length s + d * length s = add-mul k d (length s) in
      let w : length (copies k s) ≡ k * length s = length-copies k s in
      let some_left : k * length s ≤ d * length s = mul-le-mul_right (length s) le in
      let positive : 0 < k * length s = mul-pos (omega arith) (omega arith) in
      let more : ltb (length (copies k s)) ((k + d) * length s) ≡ true = ground (arith, n, w) in
      let half : leb (length (copies k s)) ((k + d) * length s / 2) ≡ true = ground (arith, n, w) in
      rw (more, half, copies-add k k s) refl

  double_lem :
      (rounds k d : ℕ) (s : List A)
      → 1 ≤ length s
      → 1 ≤ k
      → d < rounds
      → double rounds ((k + d) * length s) (copies k s) ≡ copies (k + d) s
  double_lem zero k d s h one r = absurd (omega arith)
  double_lem (suc rounds) k d s h one r = elim (Bool-cases (leb k d)) [
    | inr lt ↦ double_last rounds k d s h (ground arith)
    | inl le ↦
        let same : k + d ≡ (k + k) + (d - k) = ground arith in
        double_again rounds k d s h one (ground arith)
        ∙ rw same (double_lem rounds (k + k) (d - k) s h (omega arith) (ground arith))
  ]

  double_from_one :
      (n : ℕ) (s : List A)
      → 1 ≤ length s
      → double (length s * suc n) (length s * suc n) s ≡ copies (suc n) s
  double_from_one n s h =
      let enough : 1 * suc n ≤ length s * suc n = mul-le-mul_right (suc n) h in
      let total : length s * suc n ≡ (1 + n) * length s =
        mul_comm (length s) (suc n) ∙ ap (λ m. m * length s) (omega arith) in
      let first : copies 1 s ≡ s =
        copies_suc zero s ∙ ap (λ t. s ++ t) (copies_zero s) ∙ append-nil s in
      ap (λ w. double (length s * suc n) (length s * suc n) w) (sym first)
      ∙ ap (λ m. double (length s * suc n) m (copies 1 s)) total
      ∙ double_lem (length s * suc n) 1 n s h (omega arith) (omega arith)
      ∙ ap (λ m. copies m s) (omega arith)

-- A product below the largest `int` does not overflow.
overflows_of_lt : (len n : ℕ) → len * suc n < 2 ^ 63 → overflows len (suc n) ≡ false
unfolding overflows
overflows_of_lt len n h =
    let small : (len * suc n) % 2 ^ 64 ≡ len * suc n = omega arith in
    let exact : len * suc n / suc n ≡ len = mul-div_cancel len (omega arith) in
    rw (small, exact) (ground arith)

-- The sum of the lengths does not wrap either.
on_of_lt :
    (len n orig : ℕ)
    → len * suc n + orig < 2 ^ 63
    → leb (2 ^ 63) ((len * suc n + orig) % 2 ^ 64) ≡ false
on_of_lt len n orig h =
    let small : (len * suc n + orig) % 2 ^ 64 ≡ len * suc n + orig = omega arith in
    rw small (ground arith)

-- While the length of the builder and of all copies together is below 2^63, the doubling loop of
-- WriteRepeat appends exactly the copies asked for to the builder.
pub write_repeat_to_lem :
    {A : Type 0} (b s : List A) (n : ℕ)
    → length s * n + length b < 2 ^ 63
    → write_repeat_to b s (pos n) ≡ ok (b ++ copies n s)
unfolding write_repeat_to double
write_repeat_to_lem b s zero h = ap ok (sym (ap (λ t. b ++ t) (copies_zero s) ∙ append-nil b))
write_repeat_to_lem b [] (suc n) h =
    let fits : overflows 0 (suc n) ≡ false = overflows_of_lt 0 n (omega arith) in
    let on : leb (2 ^ 63) ((0 * suc n + length b) % 2 ^ 64) ≡ false = on_of_lt 0 n (length b) h in
    let nothing : 0 * suc n ≡ 0 = omega arith in
    rw (fits, on, nothing) (ap (λ t. ok (b ++ t)) (sym (copies_nil (suc n))))
write_repeat_to_lem b (x ∷ s) (suc n) h =
    let fits : overflows (length (x ∷ s)) (suc n) ≡ false =
      overflows_of_lt (length (x ∷ s)) n (omega arith) in
    let on : leb (2 ^ 63) ((length (x ∷ s) * suc n + length b) % 2 ^ 64) ≡ false =
      on_of_lt (length (x ∷ s)) n (length b) h in
    rw (fits, on) (ap (λ t. ok (b ++ t)) (double_from_one n (x ∷ s) (omega arith)))

pub write_repeat_lem :
    {A : Type 0} (s : List A) (n : ℕ)
    → length s * n < 2 ^ 63
    → write_repeat s (pos n) ≡ ok (copies n s)
unfolding write_repeat
write_repeat_lem s n h = write_repeat_to_lem [] s n (omega arith)

-- Where all lengths fit, writing to a builder of its own and appending that to a builder is writing
-- to the builder itself.
pub write_repeat_to-eq-write_repeat :
    {A : Type 0} (b s : List A) (n : ℕ)
    → length s * n + length b < 2 ^ 63
    → write_repeat_to b s (pos n) ≡ (write_repeat s (pos n) >>= λ t. ok (b ++ t))
write_repeat_to-eq-write_repeat b s n h =
    write_repeat_to_lem b s n h
    ∙ sym (ap (λ r. r >>= λ t. ok (b ++ t)) (write_repeat_lem s n (omega arith)))
