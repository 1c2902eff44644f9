-- ===== src/Tests/Pipes.antt =====
-- The loggers on their pipes, and the test client, at concrete inputs.
use detsys_testkit.Base.{
  ◌+◌, ◌*◌, ◌≤◌, ◌≡◌, refl, arith, Bool, true, false, List, [], ◌∷◌, ◌++◌, map, length,
  length-append, ltb, filter, panic, ok, ◌>>=◌, All, ◌^◌, ◌%◌,
}
use detsys_testkit.Base.Text.{Text, text}
use detsys_testkit.Events.{Time}
use detsys_testkit.Logger.{Row}
use detsys_testkit.Logger.Pipe.{Turn, reader, worker, main, run, opened}
use detsys_testkit.Logger.Pipe.Requests.{
  Request, write, ask, encode, encode-write, encode-ask, stream, IsPrintable, IsTidy, rows,
  last_index, asked,
}
use detsys_testkit.Logger.Pipe.Steps.{system}
use detsys_testkit.Logger.Pipe.Progress.{rounds}
use detsys_testkit.Logger.Pipe.Served.{serving_main_lem}
use detsys_testkit.Logger.TestClient
use detsys_testkit.Logger.TestClient.{Client}
use detsys_testkit.Logger.TestClient.Replies.{logger_reply}
use detsys_testkit.Logger.TestClient.Asserts.{client_main_lem}
use detsys_testkit.Logger.OldLogger.Agreement.{
  old_logger_agrees, kept, old_kept, old_run, old_opened, old_stream, written_by,
}

-- The two functions on texts, for texts in small letters without spaces inside.
abbrev same : Text → Text
same s = s

abbrev drop_blanks : Text → Text
drop_blanks = filter (λ b. ltb 32 b)

drop_blanks_lem : (s : Text) → IsPrintable s → drop_blanks (s ++ 10 ∷ []) ≡ s
drop_blanks_lem [] h = refl
drop_blanks_lem (b ∷ s) (hb, hs) = ground (arith, drop_blanks_lem s hs)

abbrev sender : Text
sender = text "client"

abbrev first_row : Row
first_row = (text "event", text "meta", text "{}")

abbrev later_row : Row
later_row = (text "event", text "", text "{1}")

abbrev requests : List Request
requests = write sender first_row ∷ ask sender ∷ write sender later_row ∷ []

abbrev alternating : List (Time × Bool)
alternating =
    (1, false)
    ∷ (2, true)
    ∷ (3, false)
    ∷ (4, false)
    ∷ (5, true)
    ∷ (6, true)
    ∷ (7, false)
    ∷ (8, false)
    ∷ (9, true)
    ∷ []

serving_main_lem_example :
    (main (first_row ∷ []) (stream requests ++ text "log") >>= λ s.
    run same drop_blanks ((worker true ∷ reader 0 ∷ []) ++ rounds alternating) s)
    ≡ ok (
        system [] []
          (last_index requests 1)
          []
          ((first_row ∷ []) ++ rows requests)
          (asked requests 1))
serving_main_lem_example =
    serving_main_lem same drop_blanks refl refl drop_blanks_lem (worker true ∷ reader 0 ∷ [])
      alternating requests (text "log") first_row [] (omega arith) (omega arith) (omega arith)

-- The newline of the line stays in the last column.
stored :
    rows requests
    ≡ (text "event", text "meta", text "{}" ++ 10 ∷ [])
      ∷ (text "event", [], text "{1}" ++ 10 ∷ [])
      ∷ []
unfolding rows
stored = refl

-- The first start, on an empty table.
empty_table : (s : Text) → main [] s ≡ panic
unfolding main
empty_table s = refl

abbrev thrice : Text → List (Time × Bool)
thrice [] = []
thrice (b ∷ s) = (0, false) ∷ (0, false) ∷ (0, false) ∷ thrice s

length-thrice : (s : Text) → length (thrice s) ≡ 3 * length s
length-thrice [] = omega arith
length-thrice (b ∷ s) = omega (arith, length-thrice s)

encode_pos : (r : Request) → 1 ≤ length (encode r)
encode_pos (write from row) = rw (encode-write from row) (omega arith)
encode_pos (ask component) = rw (encode-ask component) (omega arith)

length-stream : (rs : List Request) → length rs ≤ length (stream rs)
unfolding stream
length-stream [] = omega arith
length-stream (r ∷ rs) =
    omega (arith, length-append (encode r) (stream rs), encode_pos r, length-stream rs)

client_main_lem_example :
    (c : Client) × (rs : List Request) × (TestClient.main drop_blanks
        (logger_reply same drop_blanks thrice 7 (first_row ∷ []))
      ≡ ok c)
    × (c.written ≡ stream rs)
    × All IsTidy rs
    × (length (rows rs) ≡ 5000)
    × (c.last_read_index ≡ (7 + 4500) % 2 ^ 64)
client_main_lem_example =
    client_main_lem same drop_blanks refl refl drop_blanks_lem thrice
      (λ rs. omega (arith, length-thrice (stream rs), length-stream rs)) 7 (first_row ∷ [])
      (omega arith)

abbrev two_rows : List (Text × Row)
two_rows = (sender, first_row) ∷ (sender, later_row) ∷ []

abbrev some_turns : List Turn
some_turns = reader 0 ∷ worker false ∷ reader 1 ∷ worker true ∷ worker false ∷ []

old_logger_agrees_example :
    kept
      (run same drop_blanks some_turns (opened 7 [] (stream (map written_by two_rows) ++ text "e")))
    ≡ old_kept (old_run some_turns (old_opened [] (old_stream two_rows ++ text "e")))
old_logger_agrees_example =
    old_logger_agrees same drop_blanks some_turns two_rows (text "e") 7 [] refl (omega arith)
      (omega arith)
