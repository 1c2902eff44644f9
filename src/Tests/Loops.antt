-- ===== src/Tests/Loops.antt =====
-- The executor and its loop on a small system under test: reactors that count what they hear, write a
-- line each time, and answer nothing.
use detsys_testkit.Base.{
  map, ◌++◌, ℕ, ◌≡◌, refl, arith, ◌+◌, none, List, [], ◌∷◌, true, false, ok, err, text_eq,
}
use detsys_testkit.Base.Dict
use detsys_testkit.Base.Text.{Text, text}
use detsys_testkit.EventLoop.Clock.{incr}
use detsys_testkit.EventLoop.Clock
use detsys_testkit.EventLoop.Executor.{Sut, Executor, Message, new_executor, process_envelope}
use detsys_testkit.EventLoop.Drained.{IsDrained}
use detsys_testkit.EventLoop.Drained.Envelopes.{process_envelope-IsDrained, new_executor-IsDrained}
use detsys_testkit.EventLoop.Loop.{
  EventLoop, Envelope, response, log_send, log_resume_continuation, command, envelope, sent,
  request, admin_reset_reactors, admin_dump_log, run, Output, new_event_loop, step, handle_envelope,
}
use detsys_testkit.EventLoop.Ordering.{IsOrdered, step-IsOrdered}
use detsys_testkit.EventLoop.Transport.{find_commands}
use detsys_testkit.EventLoop.Transport.Survives.{run-find_commands}

abbrev counter : Sut ℕ ℕ Unit Unit Unit
counter = record {
  build = λ name. (0, []);
  is_json = λ raw. true;
  receive = λ s at from event. ok (s + 1, text "heard\n" ∷ [], []);
  timer = λ s at. ok (s + 1, text "fired\n" ∷ [], []);
  init = λ s. ok (s, text "ready\n" ∷ [], []);
  marshaler = record {
    unmarshal_request = λ event raw. ok tt;
    unmarshal_message = λ event raw. ok tt;
  };
  response_event = λ response. text "ok";
  message_event = λ msg. text "message";
  scheduled_fields = λ raw. err;
  timer_request = λ raw. ok (record {
    reactor = text "A";
    at = text "null";
    meta = record { test_id = 0; run_id = 0; logical_time = raw };
  });
  fault_request = λ raw. ok (record { reactor = text "A"; event = text "restart" });
  encode_events = λ events corr_id. corr_id;
  parse_time = λ s. none;
  heap_diff = λ before after. after;
}

abbrev names : List Text
names = text "A" ∷ text "B" ∷ []

-- The executor when A has heard its timer once.
abbrev once : Executor ℕ
once = record {
  reactors = names;
  buffers = (text "A", []) ∷ (text "B", []) ∷ [];
  topology = record { topology = (text "A", 1) ∷ (text "B", 0) ∷ [] };
}

abbrev fire : Message ℕ
fire = record { kind = text "timer"; message = 0 }

abbrev restart : Message ℕ
restart = record { kind = text "fault"; message = 0 }

abbrev env : Envelope ℕ
env = record {
  kind = request;
  sender = record { address = text "scheduler"; index = 0 };
  message = fire;
  receiver = record { address = text "executor"; index = 1 };
  correlation_id = 12;
  logical_time = 4;
}

abbrev el : EventLoop ℕ ℕ
el = new_event_loop (new_executor counter names)

fired :
    process_envelope counter (new_executor counter names) fire 12
    ≡ ok (
      once,
      record { kind = text "Events"; message = 12 },
      (text "A", record { simulated_time = 0; log_lines = text "fired" ∷ []; state_diff = 1 }) ∷ [],
    )
unfolding new_executor process_envelope Dict.lookup
fired = refl

process_envelope-IsDrained_example : IsDrained once
process_envelope-IsDrained_example =
    process_envelope-IsDrained counter (new_executor counter names) fire 12 (λ e name. refl)
      (new_executor-IsDrained counter names (λ name. refl)) fired

abbrev later : EventLoop ℕ ℕ
later = record el {
  logical_time = 6;
  executor = once;
  log =
      record {
        local_ref = record { index = 1 };
        remote_ref = el.scheduler_ref;
        message = fire;
        direction = log_resume_continuation;
        logical_time = 5;
      }
      ∷ record {
        local_ref = record { index = 1 };
        remote_ref = el.scheduler_ref;
        message = record { kind = text "Events"; message = 12 };
        direction = log_send;
        logical_time = 6;
      }
      ∷ [];
}

abbrev back : Envelope ℕ
back = record {
  kind = response;
  sender = record { address = text "executor"; index = 1 };
  receiver = record { address = text "scheduler"; index = 0 };
  message = record { kind = text "Events"; message = 12 };
  correlation_id = 12;
  logical_time = 6;
}

handled : handle_envelope counter el env ≡ ok (later, sent back)
unfolding handle_envelope new_event_loop new_executor process_envelope Clock.merge incr Dict.lookup
handled = refl

stepped : step counter el (envelope env) ≡ ok (later, sent back, false)
unfolding step
stepped = rw (handled) refl

step-IsOrdered_example : IsOrdered later
unfolding new_event_loop
step-IsOrdered_example =
    step-IsOrdered counter el (envelope env) (omega arith, omega arith) (omega arith) stepped

-- Two commands among other lines.
abbrev heard : Text
heard = text "AdminResetReactors" ++ 13 ∷ 10 ∷ 10 ∷ text "Admin" ++ 10 ∷ text "AdminDumpLog"

heard_commands : find_commands heard ≡ admin_reset_reactors ∷ admin_dump_log ∷ []
unfolding find_commands text_eq
heard_commands = refl

run-find_commands_example :
    (r : EventLoop ℕ ℕ × List (Output ℕ)) × (run counter later (map command (find_commands heard))
      ≡ ok r)
    × (r.0.executor ≡ once)
run-find_commands_example = run-find_commands counter later heard (refl, (refl, tt))
