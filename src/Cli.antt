-- ===== src/Cli.antt =====
-- The command line of src/cli/cmd: the scheduler and the logger are started and stopped by files that hold
-- the number of their process. `strconv.Atoi`, the directory of temporary files and what the other programs do
-- are parameters; a negative number, which is never written, is taken for no process.
pub mod Commands
pub mod Supervised
pub mod Stale
pub mod Db
use detsys_testkit.Base.{
  ℕ, Bool, true, false, List, [], ◌∷◌, ◌++◌, Option, none, some, ◌==◌, nat_eq, text_eq,
  if◌then◌else◌, contains,
}
use detsys_testkit.Base.Dict
use detsys_testkit.Base.Dict.{Dict}
use detsys_testkit.Base.Text.{Text, text}
use detsys_testkit.Base.Decimal.{decimal}
use detsys_testkit.Debugger.Repeat.{ℤ, pos, negsuc}

-- The services that the commands `up` and `down` are for.
pub data Service : Type 0 where
  scheduler : Service
  logger : Service

unfoldable pub name : Service → Text
name scheduler = text "scheduler"
name logger = text "logger"

-- The contents of the files, and the processes that run, by their numbers.
pub record World : Type 0 where
  pub files : Dict Text Text
  pub running : List (ℕ × Service)

-- How a command ends: the world, and the exit code. What it prints is left out.
pub record Exit : Type 0 where
  pub world : World
  pub code : ℕ

unfoldable pub find_process : ℕ → List (ℕ × Service) → Bool
unfolding nat_eq
find_process pid [] = false
find_process pid ((p, _) ∷ rest) = if pid == p then true else find_process pid rest

unfoldable pub end_process : ℕ → List (ℕ × Service) → List (ℕ × Service)
unfolding nat_eq
end_process pid [] = []
end_process pid ((p, s) ∷ rest) =
    let others = end_process pid rest in if pid == p then others else (p, s) ∷ others

-- `process.Kill`, which fails for a process that has finished.
unfoldable pub kill : ℤ → World → Option World
unfolding find_process end_process
kill (pos pid) w =
    if find_process pid w.running
    then some (record w { running = end_process pid w.running })
    else none
kill (negsuc n) w = none

-- `pidFile`
unfoldable pub pid_file : Text → Text → Text
pid_file temp_dir n = temp_dir ++ (text "/detsys-" ++ (n ++ text ".pid"))

module _ (temp_dir : Text) (atoi : Text → Option ℤ) where
  -- `readPid`, none standing for its errors.
  unfoldable pub read_pid : Text → World → Option ℤ
  unfolding text_eq pid_file
  read_pid n w = elim (Dict.lookup (pid_file temp_dir n) w.files) [
    | none ↦ none
    | some contents ↦ atoi contents
  ]

  -- `schedulerUpCmd` and `loggerUpCmd`, with the number of the process if it starts, and whether the
  -- file can be written, which is not looked at.
  unfoldable pub up : Service → Option ℕ → Bool → World → Exit
  unfolding read_pid name
  up s spawned writable w = elim (read_pid (name s) w) [
    | some pid ↦ record { world = w; code = 1 }
    | none ↦ elim spawned [
      | none ↦ record { world = w; code = 1 }
      | some pid ↦ record {
        world = record {
          files =
              if writable
              then Dict.insert (pid_file temp_dir (name s)) (decimal pid) w.files
              else w.files;
          running = (pid, s) ∷ w.running;
        };
        code = 0;
      }
    ]
  ]

  -- `schedulerDownCmd` and `loggerDownCmd`, with whether the file can be removed.
  unfoldable pub down : Service → Bool → World → Exit
  unfolding read_pid kill name
  down s removable w = elim (read_pid (name s) w) [
    | none ↦ record { world = w; code = 1 }
    | some pid ↦ elim (kill pid w) [
      | none ↦ record { world = w; code = 1 }
      | some killed ↦
          if removable
          then record {
            world = record killed { files = Dict.erase (pid_file temp_dir (name s)) killed.files };
            code = 0;
          }
          else record { world = killed; code = 1 }
    ]
  ]

  -- The same two commands of src/cli/cmd/logger.go.
  unfoldable pub logger_up : Option ℕ → Bool → World → Exit
  unfolding up
  logger_up = up logger

  unfoldable pub logger_down : Bool → World → Exit
  unfolding down
  logger_down = down logger
