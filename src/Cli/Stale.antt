-- ===== src/Cli/Stale.antt =====
-- Starting and stopping a service of src/cli/cmd, and what is left when its process ends by itself.
use detsys_testkit.Base.{
  ℕ, ◌≡◌, refl, ap, Bool, true, false, List, [], ◌∷◌, Option, none, some, arith, text_eq, nat_eq,
  map,
}
use detsys_testkit.Base.Dict
use detsys_testkit.Base.Dict.{Dict, lookup-insert_self}
use detsys_testkit.Base.Text.{Text}
use detsys_testkit.Base.Decimal.{decimal}
use detsys_testkit.Debugger.Repeat.{ℤ, pos}
use detsys_testkit.Cli.{
  Service, name, World, Exit, find_process, end_process, kill, pid_file, read_pid, up, down,
}

-- A command for a service, with what it meets.
pub data Command : Type 0 where
  starts : Option ℕ → Bool → Command
  stops : Bool → Command

erase_absent : (k : Text) (d : Dict Text Text) → Dict.lookup k d ≡ none → Dict.erase k d ≡ d
unfolding Dict.lookup Dict.erase
erase_absent k [] h = refl
erase_absent k ((j, u) ∷ d) h = ground (arith, erase_absent k d)

end-find_process :
    (pid : ℕ) (running : List (ℕ × Service))
    → find_process pid running ≡ false
    → end_process pid running ≡ running
unfolding find_process end_process
end-find_process pid [] h = refl
end-find_process pid ((p, s) ∷ running) h = ground (arith, end-find_process pid running)

erase-insert_new :
    (k : Text) (v : Text) (d : Dict Text Text)
    → Dict.lookup k d ≡ none
    → Dict.erase k (Dict.insert k v d) ≡ d
unfolding Dict.lookup Dict.erase Dict.insert
erase-insert_new k v [] h = ground arith
erase-insert_new k v ((j, u) ∷ d) h = ground (arith, erase-insert_new k v d, erase_absent k d)

-- The process that was started last is found, and alone ended.
killed_lem :
    (s : Service) (files : Dict Text Text) (running : List (ℕ × Service)) (pid : ℕ)
    → find_process pid running ≡ false
    → kill (pos pid) (record { files = files; running = (pid, s) ∷ running })
      ≡ some (record { files = files; running = running })
unfolding kill
killed_lem s files running pid fresh = ground (arith, end-find_process pid running)

module _ (temp_dir : Text) (atoi : Text → Option ℤ) where
  unfoldable pub execute : Service → Command → World → Exit
  unfolding up down
  execute s (starts spawned writable) w = up temp_dir atoi s spawned writable w
  execute s (stops removable) w = down temp_dir atoi s removable w

  -- The world after the commands, and their exit codes.
  unfoldable pub execute_all : Service → List Command → World → World × List ℕ
  execute_all s [] w = (w, [])
  execute_all s (c ∷ cs) w =
      let e = execute s c w in
      let (last, codes) = execute_all s cs e.world in (last, e.code ∷ codes)

  refused :
      (s : Service) (c : Command) (w : World) (pid : ℕ)
      → read_pid temp_dir atoi (name s) w ≡ some (pos pid)
      → find_process pid w.running ≡ false
      → execute s c w ≡ record { world = w; code = 1 }
  unfolding execute kill
  refused s (starts spawned writable) w pid h gone = rw (h, up) refl
  refused s (stops removable) w pid h gone = rw (h, down) (rw (gone) refl)

  -- While the file of a service names a process that has ended, every sequence of its commands fails
  -- with code 1 at each of them, and changes neither files nor processes.
  pub stale_lem :
      (s : Service) (cs : List Command) (w : World) (pid : ℕ)
      → read_pid temp_dir atoi (name s) w ≡ some (pos pid)
      → find_process pid w.running ≡ false
      → execute_all s cs w ≡ (w, map (λ _. 1) cs)
  unfolding execute_all
  stale_lem s [] w pid h gone = refl
  stale_lem s (c ∷ cs) w pid h gone =
      rw (refused s c w pid h gone) (ap (λ r. (r.0, 1 ∷ r.1)) (stale_lem s cs w pid h gone))

  read_after :
      (s : Service) (files : Dict Text Text) (running : List (ℕ × Service)) (pid : ℕ)
      → atoi (decimal pid) ≡ some (pos pid)
      → read_pid temp_dir atoi (name s) (record {
        files = Dict.insert (pid_file temp_dir (name s)) (decimal pid) files;
        running = running;
      })
        ≡ some (pos pid)
  unfolding read_pid
  read_after s files running pid parses =
      rw (lookup-insert_self (pid_file temp_dir (name s)) (decimal pid) files, read_pid) parses

  -- With no file of the service, a new process whose number is read back, and a file that can be
  -- written by the first up and removed by down, up succeeds, a second up fails, and down then
  -- leaves the files and processes as they were.
  pub down-up :
      (s : Service) (files : Dict Text Text) (running : List (ℕ × Service)) (pid : ℕ)
      (spawned : Option ℕ) (writable : Bool)
      → atoi (decimal pid) ≡ some (pos pid)
      → Dict.lookup (pid_file temp_dir (name s)) files ≡ none
      → find_process pid running ≡ false
      → execute_all s
          (starts (some pid) true ∷ starts spawned writable ∷ stops true ∷ [])
          (record { files = files; running = running })
        ≡ (record { files = files; running = running }, 0 ∷ 1 ∷ 0 ∷ [])
  unfolding execute_all
  down-up s files running pid spawned writable parses no_file fresh =
      let started : World = record {
        files = Dict.insert (pid_file temp_dir (name s)) (decimal pid) files;
        running = (pid, s) ∷ running;
      } in
      let reads : read_pid temp_dir atoi (name s) started ≡ some (pos pid) =
        read_after s files ((pid, s) ∷ running) pid parses in
      let unread : read_pid temp_dir atoi (name s) (record { files = files; running = running })
          ≡ none =
        unfold read_pid in rw (no_file, read_pid) refl in
      let first : execute s (starts (some pid) true) (record { files = files; running = running })
          ≡ record { world = started; code = 0 } =
        unfold execute in unfold up in rw (unread, up) refl in
      let second : execute s (starts spawned writable) started
          ≡ record { world = started; code = 1 } =
        unfold execute in unfold up in rw (reads, up) refl in
      let last : execute s (stops true) started
          ≡ record { world = record { files = files; running = running }; code = 0 } =
        unfold execute in
        unfold down in
        rw (reads, down)
          (rw (killed_lem s started.files running pid fresh) (
            ap
              (λ f.
                let w : World = record { files = f; running = running } in
                let e : Exit = record { world = w; code = 0 } in e)
              (erase-insert_new (pid_file temp_dir (name s)) (decimal pid) files no_file))) in
      rw (first) (rw (second) (rw (last) refl))
