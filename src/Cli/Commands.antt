-- ===== src/Cli/Commands.antt =====
-- The commands of src/cli/cmd that call the scheduler or run another program. What a program prints, and
-- whether it fails, is a function of the runs before, its name and its arguments. `os.Exit(1)` is an exit; a command that ends well
-- gives what it prints last.
use detsys_testkit.Base.{
  Bool, List, [], ◌∷◌, ◌++◌, Option, none, some, ◌==◌, nat_eq, text_eq, if◌then◌else◌, Result, ok,
  err, panic, exit, ◌>>=◌, or_panic,
}
use detsys_testkit.Base.Text.{Text, text}
use detsys_testkit.Debugger.Repeat.{ℤ, pos}
use detsys_testkit.Generator.{TestInfo}
use detsys_testkit.SchedulerClient.{
  Remote, parse_test_id, parse_run_id, itoa, load_test, register, create_run, status, reset, step,
}

-- `if err != nil { os.Exit(1) }`
abbrev pub or_exit {ℓ} : {A : Type ℓ} → Result A → Result A
or_exit err = exit
or_exit (ok a) = ok a
or_exit panic = panic
or_exit exit = exit

module _ {Sch Raw Json F : Type 0} (remote : Remote Sch Raw Json F) where
  -- A test id, and then a call of the scheduler.
  unfoldable pub with_test_id : {A : Type 0} → Sch → Text → (ℤ → Sch × Result A) → Sch × Result A
  unfolding parse_test_id
  with_test_id sch arg call = elim (or_exit (parse_test_id remote arg)) [
    | ok id ↦ call id
    | err ↦ (sch, err)
    | panic ↦ (sch, panic)
    | exit ↦ (sch, exit)
  ]

  -- `schedulerStatusCmd`, with `json.Marshal` of the status.
  unfoldable pub scheduler_status : (Json → Result Raw) → Sch → Sch × Result Raw
  unfolding status
  scheduler_status marshal sch =
      let (sch', answer) = status remote sch in (sch', answer >>= λ a. or_exit (marshal a))

  -- `schedulerResetCmd`
  unfoldable pub scheduler_reset : Sch → Sch × Result (Unit {0})
  unfolding reset
  scheduler_reset sch = reset remote sch

  -- `schedulerLoadCmd`, with the size of the queue that it prints.
  unfoldable pub scheduler_load : Sch → Text → Sch × Result ℤ
  unfolding with_test_id load_test
  scheduler_load sch arg = with_test_id sch arg (λ id. load_test remote sch id)

  -- `schedulerRegisterCmd`
  unfoldable pub scheduler_register :
      {Tests : Type 0} → Sch → List (TestInfo Tests) → Text → Sch × Result (Unit {0})
  unfolding with_test_id register
  scheduler_register sch tests arg = with_test_id sch arg (λ id. register remote sch tests id)

  -- `schedulerCreateRunCmd`, with the run id that it prints and the tick frequency of 10000000.
  unfoldable pub scheduler_create_run : F → Sch → Text → Sch × Result ℤ
  unfolding with_test_id create_run
  scheduler_create_run ten_million sch arg = with_test_id sch arg (λ id.
      create_run remote sch id (record {
        seed = pos 4;
        faults = [];
        tick_frequency = ten_million;
        min_time_ns = 0;
        max_time_ns = 0;
      }))

  -- `schedulerStepCmd`
  unfoldable pub scheduler_step : Sch → Sch × Result Raw
  unfolding step
  scheduler_step sch = step remote sch

drop_prefix : Text → Text → Option Text
unfolding nat_eq
drop_prefix s [] = some s
drop_prefix [] (c ∷ prefix) = none
drop_prefix (b ∷ s) (c ∷ prefix) = let rest = drop_prefix s prefix in if b == c then rest else none

-- `bytes.TrimPrefix`
unfoldable pub trim_prefix : Text → Text → Text
unfolding drop_prefix
trim_prefix s prefix = elim (drop_prefix s prefix) [ none ↦ s | some rest ↦ rest ]

-- A program with its arguments.
abbrev pub Call : Type 0
Call = Text × List Text

-- How a program is asked for its version.
unfoldable pub version_call : Text → Call
unfolding text_eq
version_call cmd =
    (cmd, (if cmd == text "detsys-ltl" then text "version" else text "--version") ∷ [])

-- The other programs: what they print, and whether they end well, after the runs that were before.
module _ (combined_output : List Call → Call → Text × Bool) where
  -- Runs a program; an error ends the command with code 1.
  unfoldable pub exec : List Call → Call → Result Text
  exec before call = let (out, fine) = combined_output before call in if fine then ok out else exit

  -- `dbInitCmd` and `dbDropTablesCmd`
  unfoldable pub db_init : Result Text
  unfolding exec
  db_init = exec [] (text "detsys-db", text "up" ∷ [])

  unfoldable pub db_drop_tables : Result Text
  unfolding exec
  db_drop_tables = exec [] (text "detsys-db", text "down" ∷ [])

  -- `dbResetCmd`
  unfoldable pub db_reset : Result Text
  unfolding exec
  db_reset = exec [] (text "detsys-db", text "down" ∷ []) >>= λ _.
      exec ((text "detsys-db", text "down" ∷ []) ∷ []) (text "detsys-db", text "up" ∷ [])

  -- `dbShellCmd`, with the path of the data base.
  unfoldable pub db_shell : Text → Result (Unit {0})
  unfolding exec
  db_shell path = exec [] (text "sqlite3", text "-interactive" ∷ path ∷ []) >>= λ _. ok tt

  -- `generateCmd`
  unfoldable pub generate : Text → Result (Unit {0})
  unfolding exec
  generate arg = exec [] (text "detsys-generator", arg ∷ []) >>= λ _. ok tt

  -- `debugCmd`: ids that are no numbers panic.
  unfoldable pub debug :
      {Sch Raw Json F : Type 0} → Remote Sch Raw Json F → Text → Text → Result (Unit {0})
  unfolding exec parse_test_id parse_run_id itoa
  debug remote test run = or_panic (parse_test_id remote test) >>= λ test_id.
      or_panic (parse_run_id remote run) >>= λ run_id.
      exec [] (text "detsys-debug", itoa test_id ∷ itoa run_id ∷ []) >>= λ _. ok tt

  -- `printVersion`: the name of the program and what is printed behind it, without the format.
  unfoldable pub print_version : List Call → Text → Result (Text × Text)
  unfolding exec version_call trim_prefix text_eq
  print_version before cmd = exec before (version_call cmd) >>= λ out.
      ok (cmd, if cmd == text "detsys" then trim_prefix out (text "detsys version ") else out)

  -- The loop of `versionsCmd`, which the first failure ends.
  unfoldable pub print_versions : List Call → List Text → Result (List (Text × Text))
  unfolding print_version version_call
  print_versions before [] = ok []
  print_versions before (cmd ∷ cmds) = print_version before cmd >>= λ line.
      print_versions (before ++ version_call cmd ∷ []) cmds >>= λ lines. ok (line ∷ lines)

  unfoldable pub versions : Result (List (Text × Text))
  unfolding print_versions
  versions = print_versions [] (
      text "detsys"
      ∷ text "detsys-checker"
      ∷ text "detsys-db"
      ∷ text "detsys-debug"
      ∷ text "detsys-generator"
      ∷ text "detsys-ldfi"
      ∷ text "detsys-ltl"
      ∷ text "detsys-scheduler"
      ∷ [])

-- `DBPath`: the environment's path, or one in the home directory.
unfoldable pub db_path : Option Text → Text → Text
db_path none home = home ++ text "/.detsys.db"
db_path (some path) home = path
