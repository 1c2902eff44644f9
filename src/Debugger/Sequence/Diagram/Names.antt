-- ===== src/Debugger/Sequence/Diagram/Names.antt =====
-- The names of a diagram: both ends of each arrow are found among them.
use detsys_testkit.Base.{
  ℕ, suc, ◌<◌, ◌≡◌, refl, inl, inr, ◌⊎◌, List, [], ◌∷◌, ◌++◌, some, arith, ◌==◌, text_eq, length,
  All, All-append, Bool-cases, Option-cases,
}
use detsys_testkit.Base.Text.{Text}
use detsys_testkit.Debugger.Sequence.{Arrow}
use detsys_testkit.Debugger.Sequence.Diagram.{index, add_name, names_from}

abbrev pub Has : Text → List Text → Type 0
Has name [] = ⊥
Has name (v ∷ names) = (v ≡ name) ⊎ Has name names

-- A name that is found, and where.
abbrev pub IsFound : List Text → Text → Type 0
IsFound names name = (i : ℕ) × (index names name ≡ some i) × (i < length names)

pub index-IsFound : (names : List Text) (name : Text) → Has name names → IsFound names name
unfolding index text_eq
index-IsFound [] name h = absurd h
index-IsFound (v ∷ names) name h = elim (Bool-cases (v == name)) [
  | inl here ↦ (0, rw (here) refl, omega arith)
  | inr away ↦ elim h [
    | inl e ↦ absurd (ground arith)
    | inr later ↦
        let (i, f, l) = index-IsFound names name later in (suc i, rw (away, f) refl, omega arith)
  ]
]

index-Has : (names : List Text) (name : Text) (i : ℕ) → index names name ≡ some i → Has name names
unfolding index text_eq
index-Has [] name i e = absurd (ground arith)
index-Has (v ∷ names) name i e = elim (Bool-cases (v == name)) [
  | inl here ↦ inl (ground arith)
  | inr away ↦ elim (Option-cases (index names name)) [
    | inl f ↦ absurd (ground arith)
    | inr (j, f) ↦ inr (index-Has names name j f)
  ]
]

Has-append : (names more : List Text) (name : Text) → Has name names → Has name (names ++ more)
Has-append [] more name h = absurd h
Has-append (v ∷ names) more name (inl e) = inl e
Has-append (v ∷ names) more name (inr h) = inr (Has-append names more name h)

last-Has : (names : List Text) (name : Text) → Has name (names ++ name ∷ [])
last-Has [] name = inl refl
last-Has (v ∷ names) name = inr (last-Has names name)

add_name_cases :
    (names : List Text) (name : Text)
    → ((add_name names name ≡ names) × Has name names) ⊎ (add_name names name ≡ names ++ name ∷ [])
add_name_cases names name = elim (Option-cases (index names name)) [
  | inl e ↦ inr (rw (e, add_name) refl)
  | inr (i, e) ↦ inl (rw (e, add_name) refl, index-Has names name i e)
]

add_name-Has : (names : List Text) (name : Text) → Has name (add_name names name)
add_name-Has names name = elim (add_name_cases names name) [
  | inl (e, h) ↦ rw e h
  | inr e ↦ rw e (last-Has names name)
]

add_name_keeps :
    (names : List Text) (other name : Text) → Has name names → Has name (add_name names other)
add_name_keeps names other name h = elim (add_name_cases names other) [
  | inl (e, here) ↦ rw e h
  | inr e ↦ rw e (Has-append names (other ∷ []) name h)
]

names_from_keeps :
    (names : List Text) (arrows : List Arrow) (name : Text)
    → Has name names
    → Has name (names_from names arrows)
unfolding names_from
names_from_keeps names [] name h = h
names_from_keeps names (arr ∷ arrows) name h =
    names_from_keeps (add_name (add_name names arr.from) arr.to) arrows name
      (add_name_keeps (add_name names arr.from) arr.to name (add_name_keeps names arr.from name h))

-- Both ends of every arrow are among the names.
abbrev pub HasEnds : List Text → Arrow → Type 0
HasEnds names arr = IsFound names arr.from × IsFound names arr.to

ends_found :
    (names : List Text) (arrows : List Arrow)
    → (all : List Text) → ((name : Text) → Has name (names_from names arrows) → Has name all)
    → All (HasEnds all) arrows
unfolding names_from
ends_found names [] all h = tt
ends_found names (arr ∷ arrows) all h =
    let one = add_name names arr.from in
    let two = add_name one arr.to in
    let keeps = λ (name : Text) (p : Has name two).
      index-IsFound all name (h name (names_from_keeps two arrows name p)) in
    (
      (
        keeps arr.from (add_name_keeps one arr.to arr.from (add_name-Has names arr.from)),
        keeps arr.to (add_name-Has one arr.to),
      ),
      ends_found two arrows all h,
    )

pub names_from-HasEnds : (arrows : List Arrow) → All (HasEnds (names_from [] arrows)) arrows
names_from-HasEnds arrows = ends_found [] arrows (names_from [] arrows) (λ name h. h)

-- What holds of the ends of all arrows holds of all names.
module _ (P : Text → Type 0) where
  add_name_all :
      (names : List Text) (name : Text) → All P names → P name → All P (add_name names name)
  add_name_all names name ps p = elim (add_name_cases names name) [
    | inl (e, h) ↦ rw e ps
    | inr e ↦ rw e (All-append P names (name ∷ []) ps (p, tt))
  ]

  pub names_from_all :
      (names : List Text) (arrows : List Arrow)
      → All P names
      → All (λ (arr : Arrow). P arr.from × P arr.to) arrows
      → All P (names_from names arrows)
  unfolding names_from
  names_from_all names [] ps qs = ps
  names_from_all names (arr ∷ arrows) ps ((f, t), qs) =
      names_from_all (add_name (add_name names arr.from) arr.to) arrows
        (add_name_all (add_name names arr.from) arr.to (add_name_all names arr.from ps f) t) qs
