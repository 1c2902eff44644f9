-- ===== src/Generator.antt =====
-- Tests as the data base keeps them: src/lib/generator.go writes one from a topology and an agenda, and
-- src/lib/util.go reads its deployment back. JSON and reflection are the record `Codec`; the view
-- `test_info` is the list of the tests that were created. Test ids are not negative.
pub mod Found
pub mod Agendas
use detsys_testkit.Base.{
  ℕ, suc, Bool, true, false, List, [], ◌∷◌, ◌++◌, Option, none, some, ◌==◌, nat_eq, ltb,
  if◌then◌else◌, Result, ok, err, panic, ◌>>=◌, some_or_panic,
}
use detsys_testkit.Base.Text.{Text, text}
use detsys_testkit.Events.{Time, InEvent, client_request, internal_message, nil_event}
use detsys_testkit.Scheduled.{ScheduledEvent}
use detsys_testkit.Topology
use detsys_testkit.Topology.{Topology}

-- `json.Marshal` of requests, messages and reactors, the names that their methods answer, and the name of
-- a reactor's type.
pub record Codec (S Raw Req Msg : Type 0) : Type 0 where
  pub request_event : Req → Text
  pub message_event : Msg → Text
  pub marshal_request : Req → Option Raw
  pub marshal_message : Msg → Option Raw
  pub marshal_reactor : S → Option Raw
  pub type_name : S → Text

pub record AgendaItem (Raw : Type 0) : Type 0 where
  pub kind : Text
  pub event : Text
  pub args : Raw
  pub from : Text
  pub to : Text
  pub at : Time

pub record DeploymentInfo (Raw : Type 0) : Type 0 where
  pub reactor : Text
  pub type : Text
  pub args : Raw

-- A test that was created.
pub record TestInfo (Raw : Type 0) : Type 0 where
  pub test_id : ℕ
  pub agenda : List (AgendaItem Raw)
  pub deployment : List (DeploymentInfo Raw)

-- `SELECT IFNULL(max(test_id),-1)+1 FROM test_info`
unfoldable pub next_test_id : {Raw : Type 0} → List (TestInfo Raw) → ℕ
next_test_id [] = 0
next_test_id (test ∷ tests) =
    let rest = next_test_id tests in if ltb test.test_id rest then rest else suc test.test_id

module _ {S Raw Req Msg : Type 0} (codec : Codec S Raw Req Msg) where
  -- One round of the loop over the agenda.
  unfoldable pub agenda_item : ScheduledEvent Req Msg → Result (AgendaItem Raw)
  agenda_item entry = elim entry.event [
    | client_request id request ↦ some_or_panic (codec.marshal_request request) >>= λ args.
        ok (record {
          kind = text "invoke";
          event = codec.request_event request;
          args = args;
          from = entry.from;
          to = entry.to;
          at = entry.at;
        })
    | internal_message message ↦ some_or_panic (codec.marshal_message message) >>= λ args.
        ok (record {
          kind = text "message";
          event = codec.message_event message;
          args = args;
          from = entry.from;
          to = entry.to;
          at = entry.at;
        })
    | nil_event ↦ panic
  ]

  unfoldable pub agenda_items : List (ScheduledEvent Req Msg) → Result (List (AgendaItem Raw))
  unfolding agenda_item
  agenda_items [] = ok []
  agenda_items (entry ∷ agenda) =
      agenda_item entry >>= λ item. agenda_items agenda >>= λ items. ok (item ∷ items)

  -- The loop over the reactors, in the order of their names.
  unfoldable pub deployment_of : Topology S → List Text → Result (List (DeploymentInfo Raw))
  unfolding Topology.reactor
  deployment_of topology [] = ok []
  deployment_of topology (name ∷ names) = Topology.reactor topology name >>= λ r.
      some_or_panic (codec.marshal_reactor r) >>= λ args. deployment_of topology names >>= λ rest.
      ok (record { reactor = name; type = codec.type_name r; args = args } ∷ rest)

  -- `GenerateTestFromTopologyAndAgenda`: the tests afterwards, and the id of the new one.
  unfoldable pub generate_test :
      List (TestInfo Raw)
      → Topology S
      → List (ScheduledEvent Req Msg)
      → Result (List (TestInfo Raw) × ℕ)
  unfolding next_test_id agenda_items deployment_of Topology.reactors
  generate_test tests topology agenda =
      let id : ℕ = next_test_id tests in
      agenda_items agenda >>= λ entries.
      deployment_of topology (Topology.reactors topology) >>= λ deployment.
      ok (tests ++ record { test_id = id; agenda = entries; deployment = deployment } ∷ [], id)

-- `SELECT deployment FROM test_info WHERE test_id = ?`
unfoldable pub rows_of : {Raw : Type 0} → List (TestInfo Raw) → ℕ → List (List (DeploymentInfo Raw))
unfolding nat_eq
rows_of [] id = []
rows_of (test ∷ tests) id =
    let rest = rows_of tests id in if test.test_id == id then test.deployment ∷ rest else rest

-- The loop of `DeploymentInfoForTest`: a second row is an error.
unfoldable pub read_rows :
    {Raw : Type 0} → Bool → List (List (DeploymentInfo Raw)) → Result (List (DeploymentInfo Raw))
read_rows found_one [] = ok []
read_rows true (columns ∷ rows) = err
read_rows false (columns ∷ rows) = read_rows true rows >>= λ rest. ok (columns ++ rest)

-- `DeploymentInfoForTest`
unfoldable pub deployment_info_for_test :
    {Raw : Type 0} → List (TestInfo Raw) → ℕ → Result (List (DeploymentInfo Raw))
unfolding rows_of read_rows
deployment_info_for_test tests id = read_rows false (rows_of tests id)

-- `topologyFromDeployment` of src/executor/executor.go: the reactors are built anew from their types.
unfoldable pub insert_all :
    {S Raw : Type 0} → (Text → S) → Topology S → List (DeploymentInfo Raw) → Topology S
unfolding Topology.insert
insert_all constructor topology [] = topology
insert_all constructor topology (deploy ∷ deployments) =
    insert_all constructor (Topology.insert topology deploy.reactor (constructor deploy.type))
      deployments

unfoldable pub topology_from_deployment :
    {S Raw : Type 0} → (Text → S) → List (TestInfo Raw) → ℕ → Result (Topology S)
unfolding deployment_info_for_test insert_all Topology.new_topology
topology_from_deployment constructor tests id = deployment_info_for_test tests id >>= λ deployments.
    ok (insert_all constructor (Topology.new_topology []) deployments)
