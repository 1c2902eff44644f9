-- ===== src/Tests/Debugging.antt =====
-- The debugger on a small run, and the executor behind HTTP on reactors that count what they hear.
use detsys_testkit.Base.{
  ℕ, ◌+◌, ◌-◌, ◌≤◌, ◌≡◌, refl, arith, true, false, List, [], ◌∷◌, ◌++◌, none, some, text_eq, length,
  get_elem?, ok, ◌>>=◌,
}
use detsys_testkit.Base.Dict
use detsys_testkit.Base.Text.{Text, text}
use detsys_testkit.Debugger.Repeat.{take}
use detsys_testkit.Debugger.Sequence.Diagram.{names_from, index}
use detsys_testkit.Debugger.Trace.{HeapDiff, NetworkEvent, Heap, heaps, max}
use detsys_testkit.Debugger.Trace.Recorded.{last_change, initial}
use detsys_testkit.Debugger.Trace.Heaps.{state_after, heaps_lem}
use detsys_testkit.Debugger.Diagrams.{Drawing, SequenceDiagrams, new_sequence_diagrams, at_all}
use detsys_testkit.Debugger.Diagrams.Cached.{IsTrace, drawn_all, new-IsCache, at_all_lem}
use detsys_testkit.Debugger.Application.{DebugApplication, View, window, select_event}
use detsys_testkit.Debugger.Application.Window.{window_lem}
use detsys_testkit.Debugger.Application.Ready.{IsReady, IsShown}
use detsys_testkit.Debugger.Application.Selection.{Chooses, select_event_lem}
use detsys_testkit.EventLoop.Executor.{Sut, new_executor, process_event}
use detsys_testkit.HttpExecutor.{Server, handle_event}
use detsys_testkit.HttpExecutor.Agreement.{beside, told_http, told_loop, handle_event_lem}

abbrev inits : List HeapDiff
inits =
    record { reactor = text "A"; at = 0; diff = text "a" }
    ∷ record { reactor = text "B"; at = 0; diff = text "b" }
    ∷ []

abbrev diffs : List HeapDiff
diffs =
    record { reactor = text "B"; at = 1; diff = text "x" }
    ∷ record { reactor = text "A"; at = 2; diff = text "y" }
    ∷ []

abbrev network : List NetworkEvent
network =
    record {
      message = text "ping";
      args = text "1";
      from = text "A";
      sent_at = 0;
      to = text "B";
      recv_at = 1;
      dropped = false;
      simulated = 0;
    }
    ∷ record {
      message = text "pong";
      args = text "2";
      from = text "B";
      sent_at = 1;
      to = text "A";
      recv_at = 2;
      dropped = false;
      simulated = 5;
    }
    ∷ []

-- A patch is put behind what it patches.
heaps_lem_example :
    (all : List Heap) × (heaps (λ a b. some (a ++ b)) inits diffs network ≡ ok all)
    × (length all ≡ 3)
    × ((n : ℕ)
        → n ≤ 2
        → (heap : Heap) × (get_elem? all n ≡ some heap)
          × ((reactor : Text)
              → Dict.lookup reactor heap
                ≡ state_after
                    (λ a b. some (a ++ b))
                    (λ at. last_change at diffs)
                    reactor
                    (initial reactor inits)
                    (take n network)))
unfolding text_eq
heaps_lem_example =
    heaps_lem (λ a b. some (a ++ b)) (λ t. Unit) (λ a b p q. (a ++ b, refl, tt)) inits diffs network
      (tt, (tt, tt)) ((tt, λ e. cc), ((tt, λ e. cc), tt))

traced : IsTrace network
unfolding names_from index text_eq
traced = record {
  two = omega arith;
  names = ((omega arith, omega arith), ((omega arith, omega arith), tt));
  messages = (omega arith, (omega arith, tt));
}

at_all_lem_example :
    (ds : List Drawing) × (s : SequenceDiagrams) × (at_all
        (new_sequence_diagrams network [])
        (1 ∷ 0 ∷ 1 ∷ [])
      ≡ ok (ds, s))
    × (drawn_all network [] (1 ∷ 0 ∷ 1 ∷ []) ≡ ok ds)
at_all_lem_example = at_all_lem network [] (1 ∷ 0 ∷ 1 ∷ []) traced

window_lem_example :
    (shown : List ℕ) × (i : ℕ) × (window (10 ∷ 20 ∷ 30 ∷ 40 ∷ 50 ∷ []) 3 4 ≡ ok shown)
    × (length shown ≤ 3)
    × (get_elem? shown i ≡ some 40)
window_lem_example = window_lem (10 ∷ 20 ∷ 30 ∷ 40 ∷ 50 ∷ []) 3 4 (omega arith) (omega arith)

abbrev opened : DebugApplication
opened = record {
  heaps = [] ∷ [] ∷ [] ∷ [];
  diagrams = new_sequence_diagrams network [];
  events = network;
  reactors = text "A" ∷ text "B" ∷ [];
  active_row = 1;
  active_reactor = 1;
}

opened-IsReady : IsReady [] opened
opened-IsReady = record {
  trace = traced;
  cache = new-IsCache network [];
  copies = refl;
  first = omega arith;
  last = omega arith;
  chosen = omega arith;
}

select_event_lem_example :
    (event : NetworkEvent) × (view : View) × (da' : DebugApplication) × (select_event
        (λ reactor at. ok [])
        20
        opened
        2
      ≡ ok (view, da'))
    × IsReady [] da'
    × (da' ≡ record opened {
      diagrams = da'.diagrams;
      active_row = max 1 2;
      active_reactor = da'.active_reactor;
    })
    × (get_elem? network (max 1 2 - 1) ≡ some event)
    × Chooses [] opened.reactors opened.active_reactor event.to da'.active_reactor
    × IsShown da' view
select_event_lem_example =
    select_event_lem [] (λ reactor at. ok []) 20 (λ reactor at. ([], refl)) (omega arith) opened 2
      opened-IsReady (omega arith)

-- Every request is a fault for A, which its reactor counts.
abbrev counting : Sut ℕ ℕ Unit Unit Unit
counting = record {
  build = λ name. (0, []);
  is_json = λ raw. true;
  receive = λ s at from event. ok (s + 1, text "heard\n" ∷ [], []);
  timer = λ s at. ok (s + 1, text "fired\n" ∷ [], []);
  init = λ s. ok (s, text "ready\n" ∷ [], []);
  marshaler = record {
    unmarshal_request = λ event raw. ok tt;
    unmarshal_message = λ event raw. ok tt;
  };
  response_event = λ response. text "ok";
  message_event = λ msg. text "message";
  scheduled_fields = λ raw. ok (record {
    at = text "null";
    from = text "B";
    to = text "A";
    kind = text "message";
    event = text "ping";
    args = raw;
    meta = record { test_id = 1; run_id = 1; logical_time = raw };
  });
  timer_request = λ raw. ok (record {
    reactor = text "A";
    at = text "null";
    meta = record { test_id = 0; run_id = 0; logical_time = raw };
  });
  fault_request = λ raw. ok (record { reactor = text "A"; event = text "restart" });
  encode_events = λ events corr_id. corr_id;
  parse_time = λ s. none;
  heap_diff = λ before after. after;
}

abbrev server : Server ℕ ℕ Unit Unit Unit
server = record {
  sut = counting;
  tick = λ s at. ok (s, [], []);
  tick_request = λ raw. ok (record { reactor = text "A"; at = 0 });
  timer_request = λ raw. ok (record {
    reactor = text "A";
    at = 0;
    meta = record { test_id = 1; run_id = 1; logical_time = raw };
  });
  atoi = λ s. none;
}

handle_event_lem_example :
    (handle_event server
        (beside server (new_executor counting (text "A" ∷ [])) [])
        (record { method = text "POST"; body = some 7; correlation_id = text "12" })
      >>= λ r. ok (told_http server 12 r))
    ≡ (process_event counting (new_executor counting (text "A" ∷ [])) 7 12 >>= λ r.
        ok (told_loop server r))
handle_event_lem_example =
    handle_event_lem server (new_executor counting (text "A" ∷ [])) 7 (text "12") 12
