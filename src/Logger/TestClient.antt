-- ===== src/Logger/TestClient.antt =====
-- The client of src/logger/cmd/test_client: it writes 5000 entries into the pipe of the logger, and after
-- every 500 it asks for the index and compares it with the last one. What is answered on its pipe is a
-- function of all that it has written. A panic ends it.
pub mod Replies
pub mod Asserts
use detsys_testkit.Base.{
  ℕ, zero, suc, ◌+◌, ◌%◌, ◌^◌, not, ◌&&◌, Bool, List, [], ◌∷◌, ◌++◌, Option, none, some, ◌==◌,
  nat_eq, if◌then◌else◌, Result, ok, panic, ◌>>=◌, some_or_panic,
}
use detsys_testkit.Base.Text.{Text, text}
use detsys_testkit.Base.Decimal.{decimal, parse_uint}
use detsys_testkit.Logger.Pipe.{read_lines}

-- `bytes.Join(parts, []byte("\t"))`
unfoldable pub join : List Text → Text
join [] = []
join (part ∷ []) = part
join (part ∷ next ∷ parts) = part ++ 9 ∷ join (next ∷ parts)

-- What `log` writes.
unfoldable pub log_event : Text → Text → Text → Text
unfolding join
log_event event meta rest =
    join (text "log" ∷ text "test_client" ∷ join (event ∷ meta ∷ rest ∷ []) ∷ []) ++ 10 ∷ []

-- What `index` writes.
unfoldable pub index_event : Text
unfolding join
index_event = join (text "index" ∷ text "test_client" ∷ text "test_client" ∷ []) ++ 10 ∷ []

-- The arguments of the calls of `log` in `main`.
abbrev pub event_name : Text
event_name = text "TestEvent"

abbrev pub event_meta : Text
event_meta = text "{\"component\":\"test_client\", \"test_id\":0, \"run_id\":0}"

unfoldable pub event_args : ℕ → Text
unfolding decimal
event_args i = text "{\"args\":{\"index\": " ++ (decimal i ++ text "}}")

-- `assert`
unfoldable pub assert : ℕ → ℕ → Result (Unit {0})
unfolding nat_eq
assert i j = if i == j then ok tt else panic

pub record Client : Type 0 where
  pub last_read_index : ℕ
  pub written : Text

module _ (trim_space : Text → Text) (reply : Text → Text) where
  -- How `index` reads the answer: its first line, or 0 at the end of the file.
  unfoldable pub read_index : Text → Result ℕ
  read_index answer = elim (read_lines answer) [
    | [] ↦ ok 0
    | line ∷ _ ↦ some_or_panic (parse_uint (trim_space line))
  ]

  -- The comparison with the last index, unless there was none.
  unfoldable pub compare_index : ℕ → Client → Result Client
  unfolding assert nat_eq
  compare_index j c =
      if c.last_read_index == 0
      then ok (record c { last_read_index = j })
      else (assert j ((c.last_read_index + 500) % 2 ^ 64) >>= λ _.
          ok (record c { last_read_index = j }))

  -- The question for the index, in the loop of `main`.
  unfoldable pub ask_index : Client → Result Client
  unfolding read_index compare_index index_event
  ask_index c = read_index (reply (c.written ++ index_event)) >>= λ j.
      compare_index j (record c { written = c.written ++ index_event })

  unfoldable pub send : ℕ → Client → Client
  unfolding log_event event_args
  send i c = record c { written = c.written ++ log_event event_name event_meta (event_args i) }

  -- The body of the loop of `main`.
  unfoldable pub round : ℕ → Client → Result Client
  unfolding ask_index send nat_eq
  round i c = (if i % 500 == 0 && not (i == 0) then ask_index c else ok c) >>= λ c'. ok (send i c')

  unfoldable pub loop : ℕ → ℕ → Client → Result Client
  unfolding round
  loop zero i c = ok c
  loop (suc n) i c = round i c >>= λ c'. loop n (i + 1) c'

  -- `main`
  unfoldable pub main : Result Client
  unfolding loop
  main = loop 5000 0 (record { last_read_index = 0; written = [] })
