-- ===== src/Base/Sort.antt =====
-- `sort.Strings`: ascending byte order. The result depends on no order of the input.
use mathlib.Core.List.{Perm, Permᴰ}
use mathlib.Core.Path.{ap₂}
use mathlib.Core.Logic.{∥∥₁_elim}
use detsys_testkit.Base.{◌≡◌, refl, ◌∙◌, Bool, true, false, [], ◌∷◌, arith, ltb, if◌then◌else◌}
use detsys_testkit.Base.{List, text_eq, contains, length, suc, ◌==◌, ◌||◌}
use detsys_testkit.Base.Text.{Text}

-- Byte order, which is the order of Go's `<` on strings.
unfoldable pub text_le : Text → Text → Bool
text_le [] t = true
text_le (x ∷ s) [] = false
text_le (x ∷ s) (y ∷ t) =
    let rest = text_le s t in if ltb x y then true else if ltb y x then false else rest

pub text_le_refl : (s : Text) → text_le s s ≡ true
unfolding text_le
text_le_refl [] = refl
text_le_refl (x ∷ s) = ground (arith, text_le_refl s)

pub text_le_antisymm : (s t : Text) → text_le s t ≡ true → text_le t s ≡ true → s ≡ t
unfolding text_le
text_le_antisymm [] [] h k = refl
text_le_antisymm [] (y ∷ t) h k = ground arith
text_le_antisymm (x ∷ s) [] h k = ground arith
text_le_antisymm (x ∷ s) (y ∷ t) h k = ground (arith, text_le_antisymm s t)

pub text_le_total : (s t : Text) → text_le s t ≡ false → text_le t s ≡ true
unfolding text_le
text_le_total [] t h = ground arith
text_le_total (x ∷ s) [] h = refl
text_le_total (x ∷ s) (y ∷ t) h = ground (arith, text_le_total s t)

pub text_le_trans : (s t u : Text) → text_le s t ≡ true → text_le t u ≡ true → text_le s u ≡ true
unfolding text_le
text_le_trans [] t u h k = refl
text_le_trans (x ∷ s) [] u h k = ground arith
text_le_trans (x ∷ s) (y ∷ t) [] h k = ground arith
text_le_trans (x ∷ s) (y ∷ t) (z ∷ u) h k = ground (arith, text_le_trans s t u)

texts_set : IsSet (List Text)
texts_set = hlevel

insert_sorted : Text → List Text → List Text
insert_sorted s [] = s ∷ []
insert_sorted s (t ∷ ts) = if text_le s t then s ∷ t ∷ ts else t ∷ insert_sorted s ts

-- `sort.Strings`, by insertion.
unfoldable pub sort : List Text → List Text
unfolding insert_sorted text_le
sort [] = []
sort (s ∷ ts) = insert_sorted s (sort ts)

-- Each entry is at most the next one.
abbrev pub IsSorted : List Text → Type 0
IsSorted [] = Unit
IsSorted (s ∷ []) = Unit
IsSorted (s ∷ t ∷ ts) = (text_le s t ≡ true) × IsSorted (t ∷ ts)

insert_sorted-IsSorted : (s : Text) (ts : List Text) → IsSorted ts → IsSorted (insert_sorted s ts)
unfolding insert_sorted
insert_sorted-IsSorted s [] h = tt
insert_sorted-IsSorted s (t ∷ []) h = ground (arith, text_le_total s t)
insert_sorted-IsSorted s (t ∷ u ∷ ts) (le, h) =
    ground (arith, text_le_total s t, insert_sorted-IsSorted s (u ∷ ts) h)

pub sort-IsSorted : (ts : List Text) → IsSorted (sort ts)
unfolding sort
sort-IsSorted [] = tt
sort-IsSorted (s ∷ ts) = insert_sorted-IsSorted s (sort ts) (sort-IsSorted ts)

insert_sorted_comm :
    (s t : Text) (ts : List Text)
    → insert_sorted s (insert_sorted t ts) ≡ insert_sorted t (insert_sorted s ts)
unfolding insert_sorted
insert_sorted_comm s t [] = ground (arith, text_le_total s t, text_le_antisymm s t)
insert_sorted_comm s t (u ∷ ts) = ground (
  arith,
  insert_sorted_comm s t ts,
  text_le_total s t,
  text_le_total s u,
  text_le_total t u,
  text_le_antisymm s t,
  text_le_trans s t u,
  text_le_trans t s u,
)

sort_of_Permᴰ : {xs ys : List Text} → Permᴰ xs ys → sort xs ≡ sort ys
unfolding sort
sort_of_Permᴰ Permᴰ.nil = refl
sort_of_Permᴰ (Permᴰ.cons {a = a} {l₁ = xs} e d) = ap₂ insert_sorted e (sort_of_Permᴰ d)
sort_of_Permᴰ (Permᴰ.swap {a = a} {b = b} {l = l} e₁ e₂) =
    insert_sorted_comm a b (sort l) ∙ ap₂ (λ s t. insert_sorted s (insert_sorted t (sort l))) e₂ e₁
sort_of_Permᴰ (Permᴰ.trans d₁ d₂) = sort_of_Permᴰ d₁ ∙ sort_of_Permᴰ d₂

-- The order of the input does not show.
pub sort_of_Perm : {xs ys : List Text} → Perm xs ys → sort xs ≡ sort ys
sort_of_Perm p = ∥∥₁_elim p (texts_set _ _) sort_of_Permᴰ

contains-insert_sorted :
    (s x : Text) (ts : List Text) → contains (insert_sorted s ts) x ≡ (s == x || contains ts x)
unfolding insert_sorted
contains-insert_sorted s x [] = refl
contains-insert_sorted s x (t ∷ ts) = ground (arith, contains-insert_sorted s x ts)

-- Sorting neither adds nor loses an entry.
pub contains-sort : (ts : List Text) (x : Text) → contains (sort ts) x ≡ contains ts x
unfolding sort
contains-sort [] x = refl
contains-sort (s ∷ ts) x = ground (arith, contains-insert_sorted s x (sort ts), contains-sort ts x)

length-insert_sorted : (s : Text) (ts : List Text) → length (insert_sorted s ts) ≡ suc (length ts)
unfolding insert_sorted
length-insert_sorted s [] = refl
length-insert_sorted s (t ∷ ts) = ground (arith, length-insert_sorted s ts)

pub length-sort : (ts : List Text) → length (sort ts) ≡ length ts
unfolding sort
length-sort [] = refl
length-sort (s ∷ ts) = omega (arith, length-insert_sorted s (sort ts), length-sort ts)
