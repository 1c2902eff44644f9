-- ===== src/SchedulerClient.antt =====
-- The client of the scheduler: src/lib/scheduler.go, and `Post` and the ids of src/lib/util.go. The scheduler
-- behind HTTP, which is another program, JSON and `strconv.Atoi` are the record `Remote`; every call gives the
-- scheduler as it is afterwards, also when the call panics. `log.Panicln` is a panic.
pub mod Registered
use detsys_testkit.Base.{
  ℕ, suc, ◌+◌, List, [], ◌∷◌, ◌++◌, Option, none, some, Bool, ◌==◌, nat_eq, if◌then◌else◌, Result,
  ok, err, panic, exit, ◌>>=◌, or_panic,
}
use detsys_testkit.Base.Text.{Text, text}
use detsys_testkit.Base.Decimal.{decimal}
use detsys_testkit.Debugger.Repeat.{ℤ, pos, negsuc}
use detsys_testkit.Events.{Duration}
use detsys_testkit.Faults.{Fault, SchedulerFault, to_scheduler_faults}
use detsys_testkit.Generator.{TestInfo, DeploymentInfo, deployment_info_for_test}

-- `CreateRunEvent`, where `F` are the values of `float64`.
pub record CreateRunEvent (F : Type 0) : Type 0 where
  pub seed : ℤ
  pub faults : List Fault
  pub tick_frequency : F
  pub min_time_ns : Duration
  pub max_time_ns : Duration

-- The anonymous structs that are posted as parameters.
pub data Parameters (F : Type 0) : Type 0 where
  nothing : Parameters F
  test_id : ℤ → Parameters F
  executor : Text → List Text → Parameters F
  run_parameters : ℤ → ℤ → List SchedulerFault → F → Duration → Duration → Parameters F

-- `SchedulerRequest`
pub record SchedulerRequest (F : Type 0) : Type 0 where
  pub command : Text
  pub parameters : Parameters F

-- The status, and the body if it can be read.
pub record Response (Raw : Type 0) : Type 0 where
  pub status_code : ℕ
  pub body : Option Raw

pub record Remote (Sch Raw Json F : Type 0) : Type 0 where
  pub marshal : SchedulerRequest F → Option Raw
  pub http_post : Sch → Raw → Sch × Option (Response Raw)
  pub unmarshal_queue_size : Raw → Result ℤ
  pub unmarshal_run_id : Raw → Result ℤ
  pub unmarshal_status : Raw → Result Json
  pub unmarshal_raw : Raw → Result Raw
  pub atoi : Text → Option ℤ

-- `strconv.Itoa`, with which `TestId.MarshalJSON` and `RunId.MarshalJSON` write an id.
unfoldable pub itoa : ℤ → Text
unfolding decimal
itoa (pos n) = decimal n
itoa (negsuc n) = b'-' ∷ decimal (n + 1)

-- The end of `Post`, from the answer on.
unfoldable pub body_of : {Raw : Type 0} → Option (Response Raw) → Result Raw
unfolding nat_eq
body_of none = panic
body_of (some response) = elim response.body [
  | none ↦ panic
  | some body ↦ if response.status_code == 200 then ok body else panic
]

-- No test has a negative id, so that no row is found for one.
unfoldable pub deployment_info_for_id :
    {Raw : Type 0} → List (TestInfo Raw) → ℤ → Result (List (DeploymentInfo Raw))
deployment_info_for_id tests (pos id) = deployment_info_for_test tests id
deployment_info_for_id tests (negsuc id) = ok []

unfoldable pub names_of : {Raw : Type 0} → List (DeploymentInfo Raw) → List Text
names_of [] = []
names_of (deploy ∷ deploys) = deploy.reactor ∷ names_of deploys

-- `reactorsFromDeployment`
unfoldable pub reactors_from_deployment :
    {Raw : Type 0} → List (TestInfo Raw) → ℤ → Result (List Text)
unfolding deployment_info_for_id names_of
reactors_from_deployment tests id =
    deployment_info_for_id tests id >>= λ deploys. ok (names_of deploys)

abbrev pub executor_url : Text
executor_url = text "http://localhost:3001/api/v1/"

module _ {Sch Raw Json F : Type 0} (remote : Remote Sch Raw Json F) where
  -- `Post`
  unfoldable pub post : Sch → Text → Parameters F → Sch × Result Raw
  unfolding body_of
  post sch command parameters =
      elim (remote.marshal (record { command = command; parameters = parameters })) [
        | none ↦ (sch, panic)
        | some request ↦
            let (sch', response) = remote.http_post sch request in (sch', body_of response)
      ]

  -- `PostParse`
  unfoldable pub post_parse :
      {A : Type 0} → (Raw → Result A) → Sch → Text → Parameters F → Sch × Result A
  unfolding post
  post_parse unmarshal sch command parameters =
      let (sch', body) = post sch command parameters in (sch', body >>= λ b. or_panic (unmarshal b))

  -- A `Post` whose answer is not looked at.
  unfoldable pub post_only : Sch → Text → Parameters F → Sch × Result (Unit {0})
  unfolding post
  post_only sch command parameters =
      let (sch', body) = post sch command parameters in (sch', body >>= λ _. ok tt)

  -- `LoadTest`
  unfoldable pub load_test : Sch → ℤ → Sch × Result ℤ
  unfolding post_parse
  load_test sch id = post_parse remote.unmarshal_queue_size sch (text "load-test!") (test_id id)

  -- `RegisterExecutor`
  unfoldable pub register_executor : Sch → Text → List Text → Sch × Result (Unit {0})
  unfolding post_only
  register_executor sch executor_id components =
      post_only sch (text "register-executor!") (executor executor_id components)

  -- `CreateRun`
  unfoldable pub create_run : Sch → ℤ → CreateRunEvent F → Sch × Result ℤ
  unfolding post_parse to_scheduler_faults
  create_run sch id event = post_parse remote.unmarshal_run_id sch (text "create-run!") (
      run_parameters id event.seed (to_scheduler_faults event.faults) event.tick_frequency
        event.min_time_ns event.max_time_ns)

  -- `Run`
  unfoldable pub run : Sch → Sch × Result (Unit {0})
  unfolding post_only
  run sch = post_only sch (text "run!") nothing

  -- `Status`
  unfoldable pub status : Sch → Sch × Result Json
  unfolding post_parse
  status sch = post_parse remote.unmarshal_status sch (text "status") nothing

  -- `Reset`
  unfoldable pub reset : Sch → Sch × Result (Unit {0})
  unfolding post_only
  reset sch = post_only sch (text "reset") nothing

  -- `Step`
  unfoldable pub step : Sch → Sch × Result Raw
  unfolding post_parse
  step sch = post_parse remote.unmarshal_raw sch (text "step!") nothing

  -- `Register`
  unfoldable pub register :
      {Tests : Type 0} → Sch → List (TestInfo Tests) → ℤ → Sch × Result (Unit {0})
  unfolding reactors_from_deployment register_executor
  register sch tests id = elim (or_panic (reactors_from_deployment tests id)) [
    | ok reactors ↦ register_executor sch executor_url reactors
    | err ↦ (sch, err)
    | panic ↦ (sch, panic)
    | exit ↦ (sch, exit)
  ]

  -- `ParseTestId`
  unfoldable pub parse_test_id : Text → Result ℤ
  parse_test_id s = elim (remote.atoi s) [ none ↦ err | some i ↦ ok i ]

  -- `ParseRunId`
  unfoldable pub parse_run_id : Text → Result ℤ
  parse_run_id s = elim (remote.atoi s) [ none ↦ err | some i ↦ ok i ]
