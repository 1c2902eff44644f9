-- ===== src/Tests/Generation.antt =====
-- Tests that are generated for reactors that are numbers, with requests that are numbers.
use detsys_testkit.Base.{
  err, ◌++◌, ◌+◌, ℕ, ◌≡◌, refl, arith, List, [], ◌∷◌, map, none, some, text_eq, ok, ◌>>=◌,
}
use detsys_testkit.Base.Dict
use detsys_testkit.Base.Text.{Text, text}
use detsys_testkit.Events.{client_request, internal_message}
use detsys_testkit.Register.Messages.{client_name}
use detsys_testkit.Scheduled.{Marshaler, MetaInfo, ScheduledEvent}
use detsys_testkit.Topology
use detsys_testkit.Topology.{Topology}
use detsys_testkit.Generator.{
  Codec, TestInfo, AgendaItem, agenda_items, deployment_of, generate_test, deployment_info_for_test,
}
use detsys_testkit.Debugger.Repeat.{pos}
use detsys_testkit.SchedulerClient.{Remote, executor, executor_url, post_only, register}
use detsys_testkit.SchedulerClient.Registered.{register-generate_test}
use detsys_testkit.Generator.Found.{deployment_info_for_test-generate_test}
use detsys_testkit.Generator.Agendas.{events_of, events_of-agenda_items}

abbrev codec : Codec ℕ ℕ ℕ Unit
codec = record {
  request_event = λ request. text "add";
  message_event = λ message. text "ping";
  marshal_request = λ request. some request;
  marshal_message = λ message. some 0;
  marshal_reactor = λ state. some state;
  type_name = λ state. text "counter";
}

abbrev marshaler : Marshaler ℕ ℕ Unit
marshaler = record {
  unmarshal_request = λ event raw. ok raw;
  unmarshal_message = λ event raw. ok tt;
}

abbrev meta : MetaInfo
meta = record { test_id = 0; run_id = 0; logical_time = 1 }

abbrev counters : Topology ℕ
counters = record { topology = (text "B", 2) ∷ (text "A", 1) ∷ [] }

abbrev request : ScheduledEvent ℕ Unit
request = record {
  at = 5;
  from = client_name 3;
  to = text "A";
  event = client_request 3 7;
  meta = meta;
}

abbrev earlier : List (TestInfo ℕ)
earlier = record { test_id = 4; agenda = []; deployment = [] } ∷ []

deployment_info_for_test-generate_test_example :
    (generate_test codec earlier counters (request ∷ []) >>= λ (tests, id).
    deployment_info_for_test tests id)
    ≡ (agenda_items codec (request ∷ []) >>= λ entries.
        deployment_of codec counters (Topology.reactors counters))
deployment_info_for_test-generate_test_example =
    deployment_info_for_test-generate_test codec earlier counters (request ∷ [])

abbrev ping : ScheduledEvent ℕ Unit
ping = record { at = 6; from = text "A"; to = text "B"; event = internal_message tt; meta = meta }

events_of-agenda_items_example :
    (items : List (AgendaItem ℕ)) × (agenda_items codec (request ∷ ping ∷ []) ≡ ok items)
    × (events_of codec marshaler items ≡ ok (client_request 3 7 ∷ internal_message tt ∷ []))
    × (map (λ item. item.at) items ≡ 5 ∷ 6 ∷ [])
    × (map (λ item. item.to) items ≡ text "A" ∷ text "B" ∷ [])
events_of-agenda_items_example =
    events_of-agenda_items codec marshaler (request ∷ ping ∷ [])
      ((refl, omega arith, (7, refl, refl)), ((0, refl, refl), tt))

-- A scheduler that counts its requests and answers each with status 200.
abbrev remote : Remote ℕ Text Unit Unit
remote = record {
  marshal = λ request. some request.command;
  http_post =
      λ count request. (count + 1, some (record { status_code = 200; body = some request }));
  unmarshal_queue_size = λ body. err;
  unmarshal_run_id = λ body. err;
  unmarshal_status = λ body. ok tt;
  unmarshal_raw = λ body. ok body;
  atoi = λ s. none;
}

abbrev generated : List (TestInfo ℕ)
generated =
    earlier
    ++ record {
      test_id = 5;
      agenda = [];
      deployment =
          record { reactor = text "A"; type = text "counter"; args = 1 }
          ∷ record { reactor = text "B"; type = text "counter"; args = 2 }
          ∷ [];
    }
      ∷ []

generated_lem : generate_test codec earlier counters [] ≡ ok (generated, 5)
unfolding generate_test Topology.reactors text_eq Dict.lookup
generated_lem = refl

register-generate_test_example :
    register remote 0 generated (pos 5)
    ≡ post_only remote 0
        (text "register-executor!")
        (executor executor_url (Topology.reactors counters))
register-generate_test_example =
    register-generate_test codec remote 0 earlier generated counters [] 5 generated_lem
