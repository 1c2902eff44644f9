-- ===== src/Tests/Commands.antt =====
-- The commands and the client of the scheduler at concrete inputs.
use mathlib.Core.Option.{Option, none, some}
use detsys_testkit.Base.{
  ℕ, ◌^◌, ◌<◌, ◌≡◌, refl, ap, true, false, [], ◌∷◌, arith, text_eq, nat_eq, get_elem?,
}
use detsys_testkit.Base.Dict
use detsys_testkit.Base.Text.{Text, text}
use detsys_testkit.Base.Decimal.{decimal, parse_uint, parse_uint-decimal}
use detsys_testkit.Debugger.Repeat.{ℤ, pos}
use detsys_testkit.Cli.{scheduler, logger, name, World, find_process, pid_file, read_pid, up}
use detsys_testkit.Cli.Supervised.{Reachable, starts, ups, supervised_lem}
use detsys_testkit.Cli.Stale
use detsys_testkit.Cli.Stale.{Command, stops, execute_all, stale_lem, down-up}

abbrev positive : Option ℕ → Option ℤ
positive none = none
positive (some n) = some (pos n)

-- `strconv.Atoi`, without signs.
abbrev atoi : Text → Option ℤ
atoi s = positive (parse_uint s)

atoi-decimal : (n : ℕ) → n < 2 ^ 63 → atoi (decimal n) ≡ some (pos n)
atoi-decimal n h = ap positive (parse_uint-decimal n (omega arith))

abbrev tmp : Text
tmp = text "/tmp"

abbrev nothing_runs : World
nothing_runs = record { files = []; running = [] }

abbrev both : World
both =
    (up tmp atoi logger (some 8) true
      ((up tmp atoi scheduler (some 7) true nothing_runs).world)).world

both_lem : both ≡ record {
  files = (pid_file tmp (name scheduler), text "7") ∷ (pid_file tmp (name logger), text "8") ∷ [];
  running = (8, logger) ∷ (7, scheduler) ∷ [];
}
unfolding up text_eq pid_file name decimal Dict.lookup Dict.insert
both_lem = refl

abbrev first : World
first = (up tmp atoi scheduler (some 7) true nothing_runs).world

no_eight : find_process 8 first.running ≡ false
unfolding up find_process nat_eq Dict.lookup
no_eight = refl

both_reached : Reachable tmp atoi atoi-decimal both
both_reached =
    ups logger 8 (ups scheduler 7 starts (omega arith) (unfold find_process in refl)) (omega arith)
      no_eight

supervised_lem_example :
    (read_pid tmp atoi (name scheduler) both ≡ some (pos 7))
    × ((j other : ℕ) → get_elem? both.running j ≡ some (other, scheduler) → other ≡ 7)
supervised_lem_example =
    supervised_lem tmp atoi atoi-decimal 1 both_reached (ap (λ w. get_elem? w.running 1) both_lem)

abbrev stale : World
stale = record { files = (pid_file tmp (name scheduler), text "7") ∷ []; running = [] }

stale_read : read_pid tmp atoi (name scheduler) stale ≡ some (pos 7)
unfolding read_pid parse_uint Dict.lookup name
stale_read = refl

stale_lem_example :
    execute_all tmp atoi scheduler (Stale.starts (some 9) true ∷ stops true ∷ []) stale
    ≡ (stale, 1 ∷ 1 ∷ [])
stale_lem_example =
    stale_lem tmp atoi scheduler (Stale.starts (some 9) true ∷ stops true ∷ []) stale 7 stale_read
      (unfold find_process in refl)

down-up_example :
    execute_all tmp atoi logger
      (Stale.starts (some 8) true ∷ Stale.starts (some 9) true ∷ stops true ∷ [])
      nothing_runs
    ≡ (nothing_runs, 0 ∷ 1 ∷ 0 ∷ [])
unfolding Dict.lookup
down-up_example =
    down-up tmp atoi logger [] [] 8 (some 9) true (atoi-decimal 8 (omega arith)) refl
      (unfold find_process in refl)
