-- ===== src/Logger/TestClient/Replies.antt =====
-- What the test client of src/logger/cmd/test_client writes, and what the logger of src/logger/lib.go answers.
use detsys_testkit.Base.{
  ℕ, ◌+◌, ◌*◌, ◌%◌, ◌^◌, ◌≤◌, ◌<◌, ◌≡◌, refl, sym, ap, ◌∙◌, Bool, List, [], ◌∷◌, ◌++◌, append-nil,
  append_assoc, arith, length, All, All-append, All-imp, Result, ok, nat_eq, some_or_panic,
}
use detsys_testkit.Base.Text.{Text, text}
use detsys_testkit.Base.Decimal.{decimal, parse_uint-decimal, decimal-IsDigit, uint64_mod}
use detsys_testkit.Events.{Time}
use detsys_testkit.Logger.{Row}
use detsys_testkit.Logger.Pipe.{System, run, opened, read_lines, index_line}
use detsys_testkit.Logger.Pipe.Requests.{
  Request, write, ask, entry, encode, stream, IsPrintable, IsTidy, IsColumn, rows, last_index,
  asked, encode-write, encode-ask, read_lines-append,
}
use detsys_testkit.Logger.Pipe.Steps.{system}
use detsys_testkit.Logger.Pipe.Progress.{rounds}
use detsys_testkit.Logger.Pipe.Served.{served_lem}
use detsys_testkit.Logger.TestClient.{log_event, index_event, event_args, read_index}

-- The line of the last answer: the earlier ones have been read.
pub last_line : List (Text × ℕ) → Text
last_line [] = []
last_line ((_, n) ∷ []) = index_line n
last_line (_ ∷ a ∷ answers) = last_line (a ∷ answers)

abbrev last_reply : Result System → Text
unfolding last_line
last_reply (ok served) = last_line served.written
last_reply _ = []

-- What the logger answers when it has read all that was written, its reader and its worker having
-- taken some turns.
unfoldable pub logger_reply :
    (Text → Text) → (Text → Text) → (Text → List (Time × Bool)) → ℕ → List Row → Text → Text
unfolding last_line
logger_reply to_lower trim_space lates highest before s =
    last_reply (run to_lower trim_space (rounds (lates s)) (opened highest before s))

pub stream-append : (rs ss : List Request) → stream (rs ++ ss) ≡ stream rs ++ stream ss
unfolding stream
stream-append [] ss = refl
stream-append (r ∷ rs) ss =
    ap (λ s. encode r ++ s) (stream-append rs ss)
    ∙ sym (append_assoc (encode r) (stream rs) (stream ss))

pub last_index-append :
    (rs ss : List Request) (i : ℕ) → last_index (rs ++ ss) i ≡ last_index ss (last_index rs i)
unfolding last_index
last_index-append [] ss i = refl
last_index-append (write from row ∷ rs) ss i = last_index-append rs ss ((i + 1) % 2 ^ 64)
last_index-append (ask component ∷ rs) ss i = last_index-append rs ss i

pub length-rows-append :
    (rs ss : List Request) → length (rows (rs ++ ss)) ≡ length (rows rs) + length (rows ss)
unfolding rows
length-rows-append [] ss = omega arith
length-rows-append (write from row ∷ rs) ss = omega (arith, length-rows-append rs ss)
length-rows-append (ask component ∷ rs) ss = length-rows-append rs ss

asked-append :
    (rs ss : List Request) (i : ℕ) → asked (rs ++ ss) i ≡ asked rs i ++ asked ss (last_index rs i)
unfolding asked last_index
asked-append [] ss i = refl
asked-append (write from row ∷ rs) ss i = asked-append rs ss ((i + 1) % 2 ^ 64)
asked-append (ask component ∷ rs) ss i = ap (λ a. (component, i) ∷ a) (asked-append rs ss i)

last_line-append :
    (answers : List (Text × ℕ)) (component : Text) (n : ℕ)
    → last_line (answers ++ (component, n) ∷ []) ≡ index_line n
unfolding last_line
last_line-append [] component n = refl
last_line-append (x ∷ []) component n = refl
last_line-append (x ∷ y ∷ answers) component n = last_line-append (y ∷ answers) component n

-- The last answer is to the last question.
pub last_line-asked :
    (rs : List Request) (component : Text) (i : ℕ)
    → last_line (asked (rs ++ ask component ∷ []) i) ≡ index_line (last_index rs i)
last_line-asked rs component i =
    ap last_line (asked-append rs (ask component ∷ []) i)
    ∙ unfold asked in last_line-append (asked rs i) component (last_index rs i)

pub log_event_lem :
    (event meta rest : Text)
    → log_event event meta rest ≡ encode (write (text "test_client") (event, meta, rest))
unfolding log_event entry
log_event_lem event meta rest =
    (simp append_assoc) ∙ sym (encode-write (text "test_client") (event, meta, rest))

pub index_event_lem : index_event ≡ encode (ask (text "test_client"))
unfolding index_event
index_event_lem = sym (encode-ask (text "test_client"))

pub me-IsTidy : IsTidy (ask (text "test_client"))
me-IsTidy = omega arith

pub event_args-IsColumn : (i : ℕ) → IsColumn (event_args i)
unfolding event_args
event_args-IsColumn i = (
  All-append _ (text "{\"args\":{\"index\": ") _ (omega arith) (
      All-append _ (decimal i) _ (All-imp (λ b d. omega arith) (decimal i) (decimal-IsDigit i))
        (omega arith)),
  All-append _ (text "{\"args\":{\"index\": ") _ (omega arith) (
      All-append _ (decimal i) _ (All-imp (λ b d. omega arith) (decimal i) (decimal-IsDigit i))
        (omega arith)),
)

decimal-IsPrintable : (n : ℕ) → IsPrintable (decimal n)
decimal-IsPrintable n = All-imp (λ b d. (omega arith, omega arith)) (decimal n) (decimal-IsDigit n)

read_lines-index_line : (n : ℕ) → read_lines (index_line n) ≡ (decimal n ++ 10 ∷ []) ∷ []
unfolding index_line
read_lines-index_line n =
    read_lines-append (decimal n) [] (All-imp (λ b d. omega arith) (decimal n) (decimal-IsDigit n))
    ∙ ap (λ ls. (decimal n ++ 10 ∷ []) ∷ ls) (unfold read_lines in refl)

-- A line of the pipe is read back.
pub read_index-index_line :
    (trim_space reply : Text → Text) (n : ℕ)
    → ((s : Text) → IsPrintable s → trim_space (s ++ 10 ∷ []) ≡ s)
    → n < uint64_mod
    → read_index trim_space reply (index_line n) ≡ ok n
unfolding read_index
read_index-index_line trim_space reply n trims h =
    rw (read_lines-index_line n, read_index)
      (rw (trims (decimal n) (decimal-IsPrintable n)) (ap some_or_panic (parse_uint-decimal n h)))

module _ (to_lower trim_space : Text → Text) (log_lower : to_lower (text "log") ≡ text "log")
    (index_lower : to_lower (text "index") ≡ text "index")
    (trims : (s : Text) → IsPrintable s → trim_space (s ++ 10 ∷ []) ≡ s)
    (lates : Text → List (Time × Bool))
    (enough : (rs : List Request) → 3 * length rs ≤ length (lates (stream rs))) where
  -- The logger answers a question with the index that the entries before it lead to.
  pub logger_reply_lem :
      (rs : List Request) (highest : ℕ) (before : List Row)
      → All IsTidy rs
      → logger_reply to_lower trim_space lates highest before
          (stream (rs ++ ask (text "test_client") ∷ []))
        ≡ index_line (last_index rs highest)
  unfolding logger_reply
  logger_reply_lem rs highest before tidy =
      let qs : List Request = rs ++ ask (text "test_client") ∷ [] in
      let served : run to_lower trim_space (rounds (lates (stream qs)))
            (opened highest before (stream qs))
          ≡ ok (system [] [] (last_index qs highest) [] (before ++ rows qs) (asked qs highest)) =
        ap (λ t. run to_lower trim_space (rounds (lates (stream qs))) (opened highest before t))
          (sym (append-nil (stream qs)))
        ∙ served_lem to_lower trim_space log_lower index_lower trims [] (lates (stream qs)) qs []
            highest before (All-append IsTidy rs _ tidy (me-IsTidy, tt)) tt (enough qs) in
      ap last_reply served ∙ (last_line-asked rs (text "test_client") highest)
