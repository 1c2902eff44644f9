-- ===== src/EventLoop/Transport/Survives.antt =====
-- What comes from the sockets of src/executor-event-loop to its loop.
use detsys_testkit.Base.{
  ◌≡◌, ◌≢◌, true, refl, List, [], ◌∷◌, map, some, All, Result, ok, ◌>>=◌, text_eq, Option-cases,
  inl, inr,
}
use detsys_testkit.Base.Text.{Text}
use detsys_testkit.EventLoop.Executor.{Sut, Executor}
use detsys_testkit.EventLoop.Loop.{
  AdminCommandType, admin_quit, admin_dump_log, admin_reset_log, admin_reset_reactors,
  admin_unknown, parse_command, EventLoop, command, LogEntry, Output, all_json, process_admin, step,
  run,
}
use detsys_testkit.EventLoop.Transport.{
  known, admin_command, admin_commands, find_commands, scan_lines,
}

IsKnown : AdminCommandType → Type 0
IsKnown c = c ≢ admin_unknown

known-IsKnown : (k c : AdminCommandType) → known k ≡ some c → IsKnown c
unfolding known IsKnown
known-IsKnown admin_unknown c h = cc
known-IsKnown admin_quit c h = λ e. cc
known-IsKnown admin_dump_log c h = λ e. cc
known-IsKnown admin_reset_log c h = λ e. cc
known-IsKnown admin_reset_reactors c h = λ e. cc

admin_command-IsKnown :
    (line : Text) (c : AdminCommandType) → admin_command line ≡ some c → IsKnown c
unfolding admin_command
admin_command-IsKnown [] c h = cc
admin_command-IsKnown (b ∷ line) c h = known-IsKnown (parse_command (b ∷ line)) c h

admin_commands-IsKnown : (lines : List Text) → All IsKnown (admin_commands lines)
unfolding admin_commands
admin_commands-IsKnown [] = tt
admin_commands-IsKnown (line ∷ lines) = elim (Option-cases (admin_command line)) [
  | inl e ↦ rw (e, admin_commands) (admin_commands-IsKnown lines)
  | inr (c, e) ↦
      rw (e, admin_commands) (admin_command-IsKnown line c e, admin_commands-IsKnown lines)
]

module _ {S Raw Req Msg Resp : Type 0} (sut : Sut S Raw Req Msg Resp) where
  -- The runs that end well, with the given executor.
  abbrev Keeps : Executor S → Result (EventLoop S Raw × List (Output Raw)) → Type 0
  Keeps ex result =
      (r : EventLoop S Raw × List (Output Raw)) × (result ≡ ok r) × (r.0.executor ≡ ex)

  goes_on :
      (ex : Executor S) (out : Output Raw) (rest : Result (EventLoop S Raw × List (Output Raw)))
      → Keeps ex rest
      → Keeps ex (rest >>= λ p. ok (p.0, out ∷ p.1))
  goes_on ex out rest (r, e, same) = ((r.0, out ∷ r.1), rw (e) refl, same)

  -- A message is valid JSON.
  abbrev pub IsJson : LogEntry Raw → Type 0
  IsJson entry = sut.is_json entry.message.message ≡ true

  all_json_of_All : (log : List (LogEntry Raw)) → All IsJson log → all_json sut log ≡ true
  unfolding all_json
  all_json_of_All [] h = refl
  all_json_of_All (entry ∷ log) (here, h) = rw (here) (all_json_of_All log h)

  run_known :
      (cs : List AdminCommandType) (el : EventLoop S Raw)
      → All IsKnown cs
      → all_json sut el.log ≡ true
      → Keeps el.executor (run sut el (map command cs))
  unfolding run step process_admin IsKnown all_json
  run_known [] el h j = ((el, []), refl, refl)
  run_known (admin_quit ∷ cs) el h j = (_, refl, refl)
  run_known (admin_dump_log ∷ cs) el h j = rw (j) (goes_on el.executor _ _ (run_known cs _ h.1 j))
  run_known (admin_reset_log ∷ cs) el h j = goes_on el.executor _ _ (run_known cs _ h.1 refl)
  run_known (admin_reset_reactors ∷ cs) el h j = goes_on el.executor _ _ (run_known cs _ h.1 j)
  run_known (admin_unknown ∷ cs) el h j = absurd (h.0 refl)

  -- While every message in the log is valid JSON, whatever text comes over the socket for commands,
  -- the loop runs through the commands that are read from it, up to the first that quits, without a
  -- panic or an error, and the executor, with the states of its reactors, is afterwards as it was,
  -- the command to reset the reactors included.
  pub run-find_commands :
      (el : EventLoop S Raw) (s : Text)
      → All IsJson el.log
      → (r : EventLoop S Raw × List (Output Raw)) × (run sut el (map command (find_commands s))
          ≡ ok r)
        × (r.0.executor ≡ el.executor)
  unfolding find_commands
  run-find_commands el s j =
      run_known _ el (admin_commands-IsKnown (scan_lines s)) (all_json_of_All el.log j)
