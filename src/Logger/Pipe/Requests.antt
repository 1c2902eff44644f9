-- ===== src/Logger/Pipe/Requests.antt =====
-- What a client asks of the logger of src/logger, and the lines in which it writes that.
use detsys_testkit.Base.{
  ℕ, suc, ◌+◌, ◌%◌, ◌^◌, ◌<◌, ◌≡◌, ◌≢◌, refl, ap, ◌∙◌, List, [], ◌∷◌, ◌++◌, map, some, arith,
  nat_eq, ok, All, append_assoc, All-append, ◌==◌, Bool-cases, inl, inr,
}
use detsys_testkit.Base.Text.{Text, text, split, Lacks, split_of_Lacks, split-append}
use detsys_testkit.Logger.{Row, parse, parse_all, three_parts}
use detsys_testkit.Logger.Pipe.{cut, split_n, parse_line, read_lines}

-- An entry that is written by a sender, or the question for the index to be answered to a component.
pub data Request : Type 0 where
  write : Text → Row → Request
  ask : Text → Request

-- The columns of an entry, and what follows them on the line.
unfoldable pub entry : Row → Text → Text
entry (event, meta, rest) after = event ++ 9 ∷ (meta ++ 9 ∷ (rest ++ after))

body : Request → Text
unfolding entry
body (write from row) = text "log" ++ 9 ∷ (from ++ 9 ∷ entry row [])
body (ask component) = text "index" ++ 9 ∷ (component ++ 9 ∷ component)

-- A line of the client.
unfoldable pub encode : Request → Text
unfolding body
encode r = body r ++ 10 ∷ []

unfoldable pub stream : List Request → Text
unfolding encode
stream [] = []
stream (r ∷ rs) = encode r ++ stream rs

-- The texts of a request fit between the tabs and before the newline.
abbrev pub IsColumn : Text → Type 0
IsColumn s = Lacks 9 s × Lacks 10 s

abbrev pub IsPrintable : Text → Type 0
IsPrintable = All (λ b. (32 < b) × (b < 127))

abbrev pub IsTidy : Request → Type 0
IsTidy (write from (event, meta, rest)) =
    IsColumn from × IsColumn event × IsColumn meta × IsColumn rest
IsTidy (ask component) = IsColumn component × IsPrintable component

-- The rows of the entries, the newline of each line still at its end.
unfoldable pub rows : List Request → List Row
rows [] = []
rows (write from (event, meta, rest) ∷ rs) = (event, meta, rest ++ 10 ∷ []) ∷ rows rs
rows (ask component ∷ rs) = rows rs

-- What comes into the queue.
unfoldable pub entries : List Request → List Text
unfolding entry
entries [] = []
entries (write from row ∷ rs) = entry row (10 ∷ []) ∷ entries rs
entries (ask component ∷ rs) = entries rs

-- The index after the requests, each entry being counted.
unfoldable pub last_index : List Request → ℕ → ℕ
last_index [] i = i
last_index (write from row ∷ rs) i = last_index rs ((i + 1) % 2 ^ 64)
last_index (ask component ∷ rs) i = last_index rs i

-- What is answered: the highest index that was there, with the entries before the question.
unfoldable pub asked : List Request → ℕ → List (Text × ℕ)
asked [] i = []
asked (write from row ∷ rs) i = asked rs ((i + 1) % 2 ^ 64)
asked (ask component ∷ rs) i = (component, i) ∷ asked rs i

cut_of_Lacks : (sep : ℕ) (s t : Text) → Lacks sep s → cut sep (s ++ sep ∷ t) ≡ (s, some t)
unfolding cut
cut_of_Lacks sep [] t h = ground arith
cut_of_Lacks sep (b ∷ s) t (hb, hs) = ground (arith, cut_of_Lacks sep s t hs)

split_n-append :
    (sep n : ℕ) (s t : Text)
    → Lacks sep s
    → split_n sep (suc (suc n)) (s ++ sep ∷ t) ≡ s ∷ split_n sep (suc n) t
unfolding split_n
split_n-append sep n s t h =
    rw (cut_of_Lacks sep s t h, split_n)
      (ap (λ c. c.0 ∷ split_n sep (suc n) t) (cut_of_Lacks sep s t h))

pub parse_line_lem :
    (event meta rest : Text)
    → Lacks 9 event
    → Lacks 9 meta
    → parse_line (event ++ 9 ∷ (meta ++ 9 ∷ rest)) ≡ ok (event, meta, rest)
unfolding parse_line
parse_line_lem event meta rest he hm = ap three_parts (
    split_n-append 9 1 event (meta ++ 9 ∷ rest) he
    ∙ ap (λ ps. event ∷ ps) (split_n-append 9 0 meta rest hm))

pub parse_lem :
    (event meta rest : Text)
    → Lacks 9 event
    → Lacks 9 meta
    → Lacks 9 rest
    → parse (event ++ 9 ∷ (meta ++ 9 ∷ rest)) ≡ ok (event, meta, rest)
unfolding parse
parse_lem event meta rest he hm hr = ap three_parts (
    split-append 9 event (meta ++ 9 ∷ rest) he
    ∙ ap (λ ps. event ∷ ps)
        (split-append 9 meta rest hm ∙ ap (λ ps. meta ∷ ps) (split_of_Lacks 9 rest hr)))

split_parts : (sep : ℕ) (s : Text) → (p : Text) × (ps : List Text) × (split sep s ≡ p ∷ ps)
unfolding split
split_parts sep [] = ([], [], refl)
split_parts sep (b ∷ s) = elim (Bool-cases (b == sep)) [
  | inl e ↦ ([], split sep s, rw e refl)
  | inr e ↦ (let (p, ps, same) = split_parts sep s in (b ∷ p, ps, rw (e) (rw (same) refl)))
]

pub read_lines-append :
    (p t : Text) → Lacks 10 p → read_lines (p ++ 10 ∷ t) ≡ (p ++ 10 ∷ []) ∷ read_lines t
unfolding read_lines
read_lines-append p t h = let (q, qs, e) = split_parts 10 t in rw (split-append 10 p t h, e) refl

-- Columns that are joined by tabs.
pub joined-Lacks : (s t : Text) → Lacks 10 s → Lacks 10 t → Lacks 10 (s ++ 9 ∷ t)
joined-Lacks s t hs ht = All-append (λ b. b ≢ 10) s (9 ∷ t) hs (omega arith, ht)

body-Lacks : (r : Request) → IsTidy r → Lacks 10 (body r)
unfolding body entry
body-Lacks (write from (event, meta, rest)) ((_, hf), (_, he), (_, hm), (_, hr)) =
    joined-Lacks (text "log") _ (omega arith) (
      joined-Lacks from _ hf
        (joined-Lacks event _ he (joined-Lacks meta _ hm (All-append _ rest [] hr tt))))
body-Lacks (ask component) ((_, h), _) =
    joined-Lacks (text "index") _ (omega arith) (joined-Lacks component component h h)

-- What is written comes out line by line, without what follows the last newline.
pub read_lines-stream :
    (rs : List Request) (tail : Text)
    → All IsTidy rs
    → Lacks 10 tail
    → read_lines (stream rs ++ tail) ≡ map encode rs
unfolding stream encode
read_lines-stream [] tail h ht = unfold read_lines in rw (split_of_Lacks 10 tail ht) refl
read_lines-stream (r ∷ rs) tail (hr, h) ht =
    ap read_lines (
      append_assoc (body r ++ 10 ∷ []) (stream rs) tail
      ∙ append_assoc (body r) (10 ∷ []) (stream rs ++ tail))
    ∙ read_lines-append (body r) (stream rs ++ tail) (body-Lacks r hr)
    ∙ ap (λ ls. (body r ++ 10 ∷ []) ∷ ls) (read_lines-stream rs tail h ht)

pub encode-write :
    (from : Text) (row : Row)
    → encode (write from row) ≡ text "log" ++ 9 ∷ (from ++ 9 ∷ entry row (10 ∷ []))
unfolding encode entry
encode-write from row = simp append_assoc

pub encode-ask :
    (component : Text)
    → encode (ask component) ≡ text "index" ++ 9 ∷ (component ++ 9 ∷ (component ++ 10 ∷ []))
unfolding encode
encode-ask component = simp append_assoc

-- The entries of tidy requests can be parsed, to their rows.
pub parse_all-entries : (rs : List Request) → All IsTidy rs → parse_all (entries rs) ≡ ok (rows rs)
unfolding entries rows entry parse_all
parse_all-entries [] h = refl
parse_all-entries (write from (event, meta, rest) ∷ rs) ((_, (he, _), (hm, _), (hr, _)), h) =
    rw
      (
        parse_lem event meta (rest ++ 10 ∷ []) he hm
            (All-append _ rest (10 ∷ []) hr (omega arith, tt)),
        parse_all,
      )
      (rw (parse_all-entries rs h) refl)
parse_all-entries (ask component ∷ rs) (_, h) = parse_all-entries rs h
