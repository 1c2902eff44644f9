-- ===== src/Base/Text.antt =====
-- Go strings as sequences of bytes: ASCII literals and `strings.Split` at a one-byte separator.
use Prim.Native.Char.{code}
use detsys_testkit.Base.{ℕ, String, ◌≡◌, refl, ◌≢◌, List, [], ◌∷◌, ◌++◌, arith, All}
use detsys_testkit.Base.{◌==◌, nat_eq, if◌then◌else◌}

abbrev pub Text : Type 0
Text = List ℕ

-- The bytes of an ASCII literal.
abbrev pub text : String → Text
text String.[] = []
text (String.◌∷◌ c s) = code c ∷ text s

abbrev grow_first : ℕ → List Text → List Text
grow_first b [] = (b ∷ []) ∷ []
grow_first b (part ∷ parts) = (b ∷ part) ∷ parts

-- `strings.Split(s, sep)`
unfoldable pub split : ℕ → Text → List Text
split sep [] = [] ∷ []
split sep (b ∷ s) = let rest = split sep s in if b == sep then [] ∷ rest else grow_first b rest

abbrev pub Lacks : ℕ → Text → Type 0
Lacks sep = All (λ b. b ≢ sep)

pub split_of_Lacks : (sep : ℕ) (s : Text) → Lacks sep s → split sep s ≡ s ∷ []
unfolding split
split_of_Lacks sep [] h = refl
split_of_Lacks sep (b ∷ s) (hb, hs) = ground (arith, split_of_Lacks sep s hs)

pub split-append : (sep : ℕ) (s t : Text) → Lacks sep s → split sep (s ++ sep ∷ t) ≡ s ∷ split sep t
unfolding split
split-append sep [] t h = ground arith
split-append sep (b ∷ s) t (hb, hs) = ground (arith, split-append sep s t hs)
