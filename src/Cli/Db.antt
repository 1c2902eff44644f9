-- ===== src/Cli/Db.antt =====
-- The program src/db/db.go, and the commands of src/cli/cmd/db.go that run it. The migrations and the data base are
-- parameters: a migration gives the data base that it leaves, and how many were applied unless it fails.
use detsys_testkit.Base.{
  ℕ, ◌≡◌, List, [], ◌∷◌, Option, none, some, ◌==◌, ◌||◌, text_eq, if◌then◌else◌, Result, ok, err,
  panic, exit, arith,
}
use detsys_testkit.Base.Text.{Text, text}

-- `migrate.Up` and `migrate.Down`
pub data MigrationDirection : Type 0 where
  up : MigrationDirection
  down : MigrationDirection

-- What the program prints: its version, or how many migrations were applied.
pub data Output : Type 0 where
  version : Output
  applied : ℕ → Output

-- The switch of `main`: the direction, or the version. Other arguments get the help text and code 1.
unfoldable pub direction_of : Text → Result (Option MigrationDirection)
unfolding text_eq
direction_of arg =
    if arg == text "up"
    then ok (some up)
    else if arg == text "down"
    then ok (some down)
    else if arg == text "-v" || arg == text "--version"
    then ok none
    else exit

module _ {Db : Type 0} (migrate : MigrationDirection → Db → Db × Option ℕ) where
  unfoldable pub migrated : Db × Option ℕ → Db × Result Output
  migrated (db, none) = (db, panic)
  migrated (db, some n) = (db, ok (applied n))

  -- `main`, with the arguments behind the name of the program.
  unfoldable pub main : List Text → Db → Db × Result Output
  unfolding direction_of migrated
  main (arg ∷ []) db = elim (direction_of arg) [
    | ok none ↦ (db, ok version)
    | ok (some direction) ↦ migrated (migrate direction db)
    | err ↦ (db, err)
    | panic ↦ (db, panic)
    | exit ↦ (db, exit)
  ]
  main _ db = (db, exit)

  -- A command of src/cli/cmd/db.go runs the program and ends with code 1 if that fails.
  unfoldable pub run_main : List Text → Db → Db × Result Output
  unfolding main
  run_main args db =
      let (db', ended) = main args db in (db', elim ended [ ok out ↦ ok out | _ ↦ exit ])

  -- `dbResetCmd`
  unfoldable pub reset : Db → Db × Result Output
  unfolding run_main
  reset db =
      let (db', ended) = run_main (text "down" ∷ []) db in
      elim ended [ ok out ↦ run_main (text "up" ∷ []) db' | _ ↦ (db', exit) ]

  -- Resetting is migrating down and then up; a migration that fails ends it with code 1.
  pub reset_lem :
      (db : Db)
      → reset db ≡ (
          let (db', went_down) = migrate down db in
          elim went_down [
            | none ↦ (db', exit)
            | some n ↦
                (let (last, went_up) = migrate up db' in
                  elim went_up [ none ↦ (last, exit) | some m ↦ (last, ok (applied m)) ])
          ])
  unfolding reset
  reset_lem db = ground arith
