-- ===== src/Cli/Supervised.antt =====
-- What the files of src/cli/cmd tell of the processes, whatever the order of the commands.
use mathlib.Core.Path.{subst}
use detsys_testkit.Base.{
  ℕ, zero, suc, ◌^◌, ◌<◌, ◌≡◌, ◌≢◌, refl, sym, ap, ◌∙◌, Bool, true, false, List, [], ◌∷◌, ◌++◌,
  Option, none, some, arith, text_eq, nat_eq, ◌==◌, All, All-imp, get_elem?, Bool-cases,
  Option-cases, inl, inr,
}
use detsys_testkit.Base.Dict
use detsys_testkit.Base.Dict.{
  lookup-insert_self, lookup-insert_ne, lookup-erase_ne, lookup-insert, lookup-erase,
}
use detsys_testkit.Base.Text.{Text}
use detsys_testkit.Base.Decimal.{decimal}
use detsys_testkit.Debugger.Repeat.{ℤ, pos, negsuc}
use detsys_testkit.Cli.{
  Service, scheduler, logger, name, World, find_process, end_process, kill, pid_file, read_pid, up,
  down,
}

some-inj : {A : Type 0} {a b : A} → some a ≡ some b → a ≡ b
some-inj h = cc

pos-inj : {m n : ℕ} → pos m ≡ pos n → m ≡ n
pos-inj h = cc

append_inj : (t u v : Text) → t ++ u ≡ t ++ v → u ≡ v
append_inj [] u v h = h
append_inj (b ∷ t) u v h = append_inj t u v (cc)

-- The byte behind the slash and the prefix.
abbrev first_letter : Text → ℕ
first_letter s = elim (get_elem? s 8) [ none ↦ 0 | some b ↦ b ]

find-end_process_ne :
    (P : ℕ × Service → Type 0) (pid : ℕ) (running : List (ℕ × Service))
    → All P running
    → All (λ r. P r × (r.0 ≢ pid)) (end_process pid running)
unfolding end_process
find-end_process_ne P pid [] h = tt
find-end_process_ne P pid ((p, s) ∷ running) (hp, h) = elim (Bool-cases (pid == p)) [
  | inl same ↦ rw (same) (find-end_process_ne P pid running h)
  | inr other ↦ rw (other) ((hp, ground arith), find-end_process_ne P pid running h)
]

module _ (temp_dir : Text) (atoi : Text → Option ℤ)
    (atoi-decimal : (n : ℕ) → n < 2 ^ 63 → atoi (decimal n) ≡ some (pos n)) where
  pid_file_inj :
      (s s' : Service) → pid_file temp_dir (name s) ≡ pid_file temp_dir (name s') → s ≡ s'
  unfolding pid_file name
  pid_file_inj scheduler scheduler h = refl
  pid_file_inj logger logger h = refl
  pid_file_inj scheduler logger h =
      absurd (omega (arith, ap first_letter (append_inj temp_dir _ _ h)))
  pid_file_inj logger scheduler h =
      absurd (omega (arith, ap first_letter (append_inj temp_dir _ _ h)))

  -- The states to which the commands come, with files that can be written, from no files and no processes.
  -- A process may end by itself, and a new one has a number that no other has.
  pub data Reachable : World → Type 0 where
    starts : Reachable (record { files = []; running = [] })
    ups :
        {w : World} (s : Service) (pid : ℕ)
        → Reachable w
        → pid < 2 ^ 63
        → find_process pid w.running ≡ false
        → Reachable ((up temp_dir atoi s (some pid) true w).world)
    ups_in_vain :
        {w : World} (s : Service) (writable : Bool)
        → Reachable w
        → Reachable ((up temp_dir atoi s none writable w).world)
    downs :
        {w : World} (s : Service) (removable : Bool)
        → Reachable w
        → Reachable ((down temp_dir atoi s removable w).world)
    ends :
        {w : World} (pid : ℕ)
        → Reachable w
        → Reachable (record w { running = end_process pid w.running })

  -- The file of its service has the number of each process.
  abbrev IsSupervised : World → Type 0
  IsSupervised w =
      All
        (λ r.
          (r.0 < 2 ^ 63)
          × (Dict.lookup (pid_file temp_dir (name r.1)) w.files ≡ some (decimal r.0)))
        w.running

  read_pid_lem :
      (w : World) (s : Service) {contents : Text}
      → Dict.lookup (pid_file temp_dir (name s)) w.files ≡ some contents
      → read_pid temp_dir atoi (name s) w ≡ atoi contents
  unfolding read_pid
  read_pid_lem w s h = rw (h, read_pid) refl

  -- The services with no number in their files have no process.
  unread :
      (w : World) (s : Service) (r : ℕ × Service)
      → (r.0 < 2 ^ 63) × (Dict.lookup (pid_file temp_dir (name r.1)) w.files ≡ some (decimal r.0))
      → read_pid temp_dir atoi (name s) w ≡ none
      → pid_file temp_dir (name r.1) ≢ pid_file temp_dir (name s)
  unread w s r (small, has) none_read same =
      let read : read_pid temp_dir atoi (name s) w ≡ some (pos r.0) =
        read_pid_lem w s (ap (λ f. Dict.lookup f w.files) (sym same) ∙ has)
        ∙ atoi-decimal r.0 small in
      cc

  up-IsSupervised :
      (w : World) (s : Service) (pid : ℕ)
      → pid < 2 ^ 63
      → IsSupervised w
      → IsSupervised ((up temp_dir atoi s (some pid) true w).world)
  unfolding up
  up-IsSupervised w s pid small h = elim (Option-cases (read_pid temp_dir atoi (name s) w)) [
    | inr (p, e) ↦ rw (e, up) h
    | inl e ↦
        rw (e, up)
          (
            (small, lookup-insert_self _ _ w.files),
            All-imp (λ r hr. (hr.0, lookup-insert_ne _ _ _ w.files (unread w s r hr e) ∙ hr.1))
                w.running h,
          )
  ]

  up_in_vain-IsSupervised :
      (w : World) (s : Service) (writable : Bool)
      → IsSupervised w
      → IsSupervised ((up temp_dir atoi s none writable w).world)
  unfolding up
  up_in_vain-IsSupervised w s writable h = elim (Option-cases (read_pid temp_dir atoi (name s) w)) [
    | inr (p, e) ↦ rw (e, up) h
    | inl e ↦ rw (e, up) h
  ]

  -- The other processes after `down`.
  others :
      (w : World) (s : Service) (pid : ℕ) (r : ℕ × Service)
      → (r.0 < 2 ^ 63) × (Dict.lookup (pid_file temp_dir (name r.1)) w.files ≡ some (decimal r.0))
      → read_pid temp_dir atoi (name s) w ≡ some (pos pid)
      → r.0 ≢ pid
      → pid_file temp_dir (name r.1) ≢ pid_file temp_dir (name s)
  others w s pid r (small, has) e ne same =
      let read : read_pid temp_dir atoi (name s) w ≡ some (pos r.0) =
        read_pid_lem w s (ap (λ f. Dict.lookup f w.files) (sym same) ∙ has)
        ∙ atoi-decimal r.0 small in
      ne (cc)

  killed-IsSupervised :
      (w : World) (pid : ℕ)
      → IsSupervised w
      → IsSupervised (record w { running = end_process pid w.running })
  killed-IsSupervised w pid h =
      All-imp (λ r hr. hr.0) (end_process pid w.running) (find-end_process_ne _ pid w.running h)

  down-IsSupervised :
      (w : World) (s : Service) (removable : Bool)
      → IsSupervised w
      → IsSupervised ((down temp_dir atoi s removable w).world)
  unfolding down kill
  down-IsSupervised w s removable h = elim (Option-cases (read_pid temp_dir atoi (name s) w)) [
    | inl e ↦ rw (e, down) h
    | inr (negsuc n, e) ↦ rw (e, down) h
    | inr (pos pid, e) ↦ elim (Bool-cases (find_process pid w.running)) [
      | inr gone ↦ rw (e, down) (rw (gone) h)
      | inl runs ↦ elim (Bool-cases removable) [
        | inr stays ↦ rw (e, down) (rw (runs) (rw (stays) (killed-IsSupervised w pid h)))
        | inl goes ↦
            rw (e, down)
              (rw (runs) (
                rw (goes) (
                  All-imp
                    (λ r hr.
                      (hr.0.0, lookup-erase_ne _ _ w.files (others w s pid r hr.0 e hr.1) ∙ hr.0.1))
                    (end_process pid w.running) (find-end_process_ne _ pid w.running h))))
      ]
    ]
  ]

  Reachable-IsSupervised : {w : World} → Reachable w → IsSupervised w
  Reachable-IsSupervised starts = tt
  Reachable-IsSupervised (ups {w} s pid r small fresh) =
      up-IsSupervised w s pid small (Reachable-IsSupervised r)
  Reachable-IsSupervised (ups_in_vain {w} s writable r) =
      up_in_vain-IsSupervised w s writable (Reachable-IsSupervised r)
  Reachable-IsSupervised (downs {w} s removable r) =
      down-IsSupervised w s removable (Reachable-IsSupervised r)
  Reachable-IsSupervised (ends {w} pid r) = killed-IsSupervised w pid (Reachable-IsSupervised r)

  get_elem?-IsSupervised :
      (files : Dict.Dict Text Text) (running : List (ℕ × Service)) (i : ℕ) {pid : ℕ} {s : Service}
      → IsSupervised (record { files = files; running = running })
      → get_elem? running i ≡ some (pid, s)
      → (pid < 2 ^ 63) × (Dict.lookup (pid_file temp_dir (name s)) files ≡ some (decimal pid))
  get_elem?-IsSupervised files [] i h e = cc
  get_elem?-IsSupervised files (r ∷ running) zero h e =
      subst
        (λ q.
          (q.0 < 2 ^ 63) × (Dict.lookup (pid_file temp_dir (name q.1)) files ≡ some (decimal q.0)))
        (some-inj e) h.0
  get_elem?-IsSupervised files (r ∷ running) (suc i) h e =
      get_elem?-IsSupervised files running i h.1 e

  -- If Atoi reads back the numbers below 2^63: in every world to which the commands up and down of
  -- both services come from no files and no processes, where files are written, a new process has a
  -- number below 2^63 that no other has and processes may end by themselves, the file of a service
  -- names the process of it that runs, and no other process of that service runs.
  pub supervised_lem :
      {w : World} {pid : ℕ} {s : Service} (i : ℕ)
      → Reachable w
      → get_elem? w.running i ≡ some (pid, s)
      → (read_pid temp_dir atoi (name s) w ≡ some (pos pid))
        × ((j other : ℕ) → get_elem? w.running j ≡ some (other, s) → other ≡ pid)
  supervised_lem {w} {pid} {s} i r e =
      let reads : (k q : ℕ)
          → get_elem? w.running k ≡ some (q, s)
          → read_pid temp_dir atoi (name s) w ≡ some (pos q) =
        λ k q f.
          let (small, has) =
            get_elem?-IsSupervised w.files w.running k (Reachable-IsSupervised r) f in
          read_pid_lem w s has ∙ atoi-decimal q small in
      (reads i pid e, λ j other f. pos-inj (some-inj (sym (reads j other f) ∙ reads i pid e)))
