-- ===== src/Tests/Wire.antt =====
-- What is sent and read back, the topology and the clock at concrete inputs.
use detsys_testkit.Base.{
  ℕ, ◌+◌, ◌-◌, ◌^◌, ◌≡◌, refl, arith, Option, some, List, [], ◌∷◌, map, ok, err, text_eq, nat_eq,
}
use detsys_testkit.Base.Text.{Text, text}
use detsys_testkit.Events.{Time, client_request}
use detsys_testkit.Faults.{Fault, omission, crash, to_scheduler_faults, int_of_float}
use detsys_testkit.Faults.RoundTrip.{fields, unmarshal_faults, unmarshal_faults-to_scheduler_faults}
use detsys_testkit.Register.Messages.{client_name}
use detsys_testkit.Scheduled.{
  Marshaler, ScheduledEvent, Fields, unmarshal_scheduled_event, parse_client_id,
}
use detsys_testkit.Scheduled.Clients.{parse_client_id-client_name}
use detsys_testkit.Topology.{Topology, reactors}

abbrev faults : List Fault
faults =
    record { kind = text "omission"; args = omission (text "A") (text "B") 3 }
    ∷ record { kind = text "crash"; args = crash (text "B") 5 }
    ∷ []

-- The first step that is not read back, and one that is rounded up.
rounded : (int_of_float (2 ^ 53 + 1) ≡ 2 ^ 53) × (int_of_float (2 ^ 53 + 3) ≡ 2 ^ 53 + 4)
unfolding int_of_float
rounded = (refl, refl)

clipped : int_of_float (2 ^ 63 - 1) ≡ 2 ^ 63
unfolding int_of_float
clipped = refl

unmarshal_faults-to_scheduler_faults_example :
    unmarshal_faults (map fields (to_scheduler_faults faults)) ≡ ok faults
unmarshal_faults-to_scheduler_faults_example =
    unmarshal_faults-to_scheduler_faults faults (refl, (refl, tt)) (omega arith, (omega arith, tt))

parse_client_id-client_name_example : parse_client_id (client_name 42) ≡ ok 42
parse_client_id-client_name_example = parse_client_id-client_name 42 (omega arith)

-- A system whose requests are the raw values, and that has no messages.
abbrev marshaler : Marshaler ℕ ℕ Unit
marshaler = record { unmarshal_request = λ event raw. ok raw; unmarshal_message = λ event raw. err }

-- A clock that reads one time.
abbrev parse : Text → Option Time
parse s = some 7000000000

abbrev invoked : Fields marshaler
invoked = record {
  at = text "1970-01-01T00:00:00Z";
  from = text "client:3";
  to = text "frontend";
  kind = text "invoke";
  event = text "read";
  args = 1;
  meta = record { test_id = 1; run_id = 0; logical_time = 2 };
}

abbrev decoded : ScheduledEvent ℕ Unit
decoded = record {
  at = 0;
  from = text "client:3";
  to = text "frontend";
  event = client_request 3 1;
  meta = record { test_id = 1; run_id = 0; logical_time = 2 };
}

invoked_lem : unmarshal_scheduled_event marshaler parse invoked ≡ ok decoded
unfolding unmarshal_scheduled_event nat_eq
invoked_lem = refl

abbrev two' : Topology ℕ
two' = record { topology = (text "A", 1) ∷ (text "B", 2) ∷ [] }

abbrev two : Topology ℕ
two = record { topology = (text "B", 2) ∷ (text "A", 1) ∷ [] }

reactors_two : reactors two ≡ text "A" ∷ text "B" ∷ []
unfolding reactors
reactors_two = refl
