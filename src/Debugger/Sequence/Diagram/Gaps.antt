-- ===== src/Debugger/Sequence/Diagram/Gaps.antt =====
-- The gaps that the messages of all arrows need: the loop over the arrows of `DrawDiagram`.
use detsys_testkit.Base.{
  ℕ, zero, suc, ◌+◌, ◌*◌, ◌^◌, ◌≤◌, ◌<◌, ◌≡◌, refl, ap, Bool, true, false, inl, inr, List, [], ◌∷◌,
  ◌++◌, none, some, arith, ltb, ◌==◌, nat_eq, length, length-append, All, if◌then◌else◌, ok,
  Bool-cases,
}
use detsys_testkit.Base.Text.{Text, text}
use detsys_testkit.Debugger.Repeat.{copies}
use detsys_testkit.Debugger.Sequence.{tag, Arrow, ArrowInternal}
use detsys_testkit.Debugger.Sequence.Widths.{width}
use detsys_testkit.Debugger.Sequence.Layout.{gap_of, get_gap}
use detsys_testkit.Debugger.Sequence.Diagram.{
  DrawSettings, internal, store, annotated, convert, convert_all,
}
use detsys_testkit.Debugger.Sequence.Diagram.Names.{HasEnds}

length-copies : (n b : ℕ) → length (copies n (b ∷ [])) ≡ n
unfolding copies
length-copies zero b = refl
length-copies (suc n) b = omega (arith, length-copies n b)

length-store : (gaps : List ℕ) (i gap : ℕ) → length (store gaps i gap) ≡ length gaps
length-store [] i gap = refl
length-store (g ∷ gaps) zero gap = refl
length-store (g ∷ gaps) (suc i) gap = ap suc (length-store gaps i gap)

store_here : (gaps : List ℕ) (i gap : ℕ) → i < length gaps → gap_of (store gaps i gap) i ≡ gap
store_here [] i gap h = absurd (omega arith)
store_here (g ∷ gaps) zero gap h = refl
store_here (g ∷ gaps) (suc i) gap h = store_here gaps i gap (omega arith)

-- No gap shrinks when one is stored that is not smaller.
abbrev pub Grows : List ℕ → List ℕ → Type 0
Grows gaps gaps' = (j : ℕ) → gap_of gaps j ≤ gap_of gaps' j

store_grows :
    (gaps : List ℕ) (i gap : ℕ)
    → gap_of gaps i ≤ gap
    → (j : ℕ) → gap_of gaps j ≤ gap_of (store gaps i gap) j
store_grows [] i gap h j = omega arith
store_grows (g ∷ gaps) zero gap h zero = h
store_grows (g ∷ gaps) zero gap h (suc j) = omega arith
store_grows (g ∷ gaps) (suc i) gap h zero = omega arith
store_grows (g ∷ gaps) (suc i) gap h (suc j) = store_grows gaps i gap h j

abbrev pub IsSmall : List ℕ → Type 0
IsSmall = All (λ gap. gap < 2 ^ 61)

store-IsSmall :
    (gaps : List ℕ) (i gap : ℕ)
    → gap < 2 ^ 61
    → All (λ g. g < 2 ^ 61) gaps
    → All (λ g. g < 2 ^ 61) (store gaps i gap)
store-IsSmall [] i gap h p = tt
store-IsSmall (g ∷ gaps) zero gap h (p, ps) = (h, ps)
store-IsSmall (g ∷ gaps) (suc i) gap h (p, ps) = (p, store-IsSmall gaps i gap h ps)

-- The gap of an arrow's message, which is never that before the first of several nodes.
annotated_lem :
    (len from to : ℕ)
    → 2 ≤ len
    → from < len
    → to < len
    → (1 ≤ annotated len from to) × (annotated len from to < len)
unfolding nat_eq
annotated_lem len from to two f t = (ground arith, ground arith)

-- An arrow whose message fits the gap that was made for it, before the boxes take their part of it.
pub record IsWanted (gaps : List ℕ) (arr : ArrowInternal) : Type 0 where
  pub later : 1 ≤ arr.gap_index
  pub inside : arr.gap_index < length gaps
  pub fits : length arr.message ≤ gap_of gaps arr.gap_index
  pub unseen_left : width arr.annotation_left ≡ 0
  pub unseen_right : width arr.annotation_right ≡ 0

abbrev pub IsShort : DrawSettings → Arrow → Type 0
IsShort settings arr = length arr.message + 2 * settings.marker_size < 2 ^ 61

marker_length : (n b c : ℕ) (t : Bool) → length (copies n (if t then b ∷ [] else c ∷ [])) ≡ n
marker_length n b c true = length-copies n b
marker_length n b c false = length-copies n c

-- A gap that is raised, when it is too small for a message.
raised : List ℕ → ℕ → ℕ → List ℕ
raised gaps g needed = if ltb (gap_of gaps g) needed then store gaps g needed else gaps

record IsRaised (gaps gaps' : List ℕ) (g needed : ℕ) : Type 0 where
  same : length gaps' ≡ length gaps
  small : IsSmall gaps'
  grows : Grows gaps gaps'
  enough : needed ≤ gap_of gaps' g

raised_lem :
    (gaps : List ℕ) (g needed : ℕ)
    → g < length gaps
    → needed < 2 ^ 61
    → IsSmall gaps
    → IsRaised gaps (raised gaps g needed) g needed
unfolding raised
raised_lem gaps g needed inside short small = elim (Bool-cases (ltb (gap_of gaps g) needed)) [
  | inl less ↦
      let lower : gap_of gaps g ≤ needed = ground arith in
      rw less (record {
        same = length-store gaps g needed;
        small = store-IsSmall gaps g needed short small;
        grows = store_grows gaps g needed lower;
        enough = omega (arith, store_here gaps g needed inside);
      })
  | inr more ↦
      rw more
        (record { same = refl; small = small; grows = λ j. omega arith; enough = ground arith })
]

unseen : (marked : Bool) (a b : Text) → width (if marked then tag a ∷ tag b ∷ [] else []) ≡ 0
unseen true a b = refl
unseen false a b = refl

internal-IsWanted :
    (len : ℕ) (settings : DrawSettings) (marked : Bool) (arr : Arrow) (from to : ℕ) (gaps : List ℕ)
    → 1 ≤ annotated len from to
    → annotated len from to < length gaps
    → length arr.message + 2 * settings.marker_size ≤ gap_of gaps (annotated len from to)
    → IsWanted gaps (internal len settings marked arr from to)
internal-IsWanted len settings marked arr from to gaps later inside fits =
    let left : Text = copies settings.marker_size (if marked then text ">" else text " ") in
    let right : Text = copies settings.marker_size (if marked then text "<" else text " ") in
    let l : length left ≡ settings.marker_size =
      marker_length settings.marker_size b'>' b' ' marked in
    let r : length right ≡ settings.marker_size =
      marker_length settings.marker_size b'<' b' ' marked in
    let whole : length (left ++ arr.message ++ right)
        ≡ length arr.message + 2 * settings.marker_size =
      omega
        (arith, length-append (left ++ arr.message) right, length-append left arr.message, l, r) in
    record {
      later = later;
      inside = inside;
      fits = rw whole fits;
      unseen_left = unseen marked (text "[\"focused\"]") (text "[yellow]");
      unseen_right = unseen marked (text "[-]") (text "[\"\"]");
    }

Grows-IsWanted :
    (gaps gaps' : List ℕ) (arr : ArrowInternal)
    → length gaps' ≡ length gaps
    → Grows gaps gaps'
    → IsWanted gaps arr
    → IsWanted gaps' arr
Grows-IsWanted gaps gaps' arr same grows v = record {
  later = v.later;
  inside = omega (arith, v.inside);
  fits = omega (arith, v.fits, grows arr.gap_index);
  unseen_left = v.unseen_left;
  unseen_right = v.unseen_right;
}

module _ (names : List Text) (settings : DrawSettings) (two : 2 ≤ length names) where
  convert_lem :
      (i : ℕ) (gaps : List ℕ) (arr : Arrow)
      → HasEnds names arr
      → length gaps ≡ length names
      → IsSmall gaps
      → IsShort settings arr
      → (g : ℕ) × (needed : ℕ) × (gaps' : List ℕ) × (a : ArrowInternal) × (convert names settings i
            gaps arr
          ≡ ok (gaps', a))
        × IsRaised gaps gaps' g needed
        × IsWanted gaps' a
  unfolding convert raised
  convert_lem i gaps arr ((from, e, f), (to, e', t)) paired small short =
      let g = annotated (length names) from to in
      let (later, inside) = annotated_lem (length names) from to two f t in
      let needed = length arr.message + 2 * settings.marker_size in
      let gap = get_gap gaps g (omega arith) in
      let v = raised_lem gaps g needed (omega arith) short small in
      let marked : Bool = elim settings.mark_at [ none ↦ false | some m ↦ i == m ] in
      (
        g,
        needed,
        raised gaps g needed,
        internal (length names) settings marked arr from to,
        rw (e, e', gap) refl,
        v,
        internal-IsWanted (length names) settings marked arr from to (raised gaps g needed) later
            (omega (arith, v.same)) v.enough,
      )

  pub convert_all_lem :
      (i : ℕ) (gaps : List ℕ) (arrows : List Arrow)
      → All (HasEnds names) arrows
      → length gaps ≡ length names
      → IsSmall gaps
      → All (IsShort settings) arrows
      → (gaps' : List ℕ) × (placed : List ArrowInternal) × (convert_all names settings i gaps arrows
          ≡ ok (gaps', placed))
        × (length gaps' ≡ length gaps)
        × IsSmall gaps'
        × Grows gaps gaps'
        × All (IsWanted gaps') placed
  unfolding convert_all
  convert_all_lem i gaps [] ends paired small short =
      (gaps, [], refl, refl, small, (λ j. omega arith), tt)
  convert_all_lem i gaps (arr ∷ arrows) (here, ends) paired small (p, short) =
      let (g, needed, gaps', a, e, r, w) = convert_lem i gaps arr here paired small p in
      let (last, placed, f, same, small', grows, ws) =
        convert_all_lem (suc i) gaps' arrows ends (omega (arith, r.same)) r.small short in
      (
        last,
        a ∷ placed,
        rw (e) (rw (f) refl),
        omega (arith, r.same),
        small',
        (λ j. omega (arith, r.grows j, grows j)),
        (Grows-IsWanted gaps' last a same grows w, ws),
      )
