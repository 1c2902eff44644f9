-- ===== src/Scheduled.antt =====
-- What travels between the scheduler and the reactors: src/lib/marshaler.go, with the meta data of
-- src/lib/lib.go and the timestamps of src/lib/time.go. The JSON object of an event stands here as the
-- record of its fields; what is inside a raw field is read by the `Marshaler` of the system under test.
pub mod Clients
use detsys_testkit.Base.{
  ℕ, List, [], ◌∷◌, Option, none, some, ◌==◌, text_eq, if◌then◌else◌, Result, ok, err, panic, exit,
  ◌>>=◌, map,
}
use detsys_testkit.Base.Text.{Text, text, split}
use detsys_testkit.Base.Decimal.{parse_uint}
use detsys_testkit.Events.{Time, Duration, InEvent, OutEvent, Args, client_response, message, timer}

pub record MetaInfo : Type 0 where
  pub test_id : ℕ
  pub run_id : ℕ
  pub logical_time : ℕ

pub record ScheduledEvent (Req Msg : Type 0) : Type 0 where
  pub at : Time
  pub from : Text
  pub to : Text
  pub event : InEvent Req Msg
  pub meta : MetaInfo

-- The interface `Marshaler` over the type of raw JSON values.
pub record Marshaler (Raw Req Msg : Type 0) : Type 0 where
  pub unmarshal_request : Text → Raw → Result Req
  pub unmarshal_message : Text → Raw → Result Msg

-- `TimePico.UnmarshalJSON`: what the receiver holds afterwards, and the returned error. `parse` is
-- `time.Parse` with the layout of the source.
unfoldable pub time_pico : (Text → Option Time) → Time → Text → Result Time
time_pico parse t input =
    if input == text "null" then ok t else elim (parse input) [ none ↦ err | some it ↦ ok t ]

-- The parts of a name that has one colon.
two_parts : List Text → Option (Text × Text)
two_parts (a ∷ b ∷ []) = some (a, b)
two_parts _ = none

-- `parseClientId`
unfoldable pub parse_client_id : Text → Result ℕ
unfolding two_parts split parse_uint text_eq
parse_client_id from = elim (two_parts (split b':' from)) [
  | none ↦ err
  | some (kind, number) ↦
      if kind == text "client" then elim (parse_uint number) [ none ↦ err | some n ↦ ok n ] else err
]

module _ {Raw Req Msg : Type 0} (m : Marshaler Raw Req Msg) where
  -- `unmarshal`
  unfoldable pub unmarshal : Text → Text → Text → Raw → Result (InEvent Req Msg)
  unfolding parse_client_id text_eq
  unmarshal kind event from input =
      if kind == text "invoke"
      then (m.unmarshal_request event input >>= λ req.
          parse_client_id from >>= λ id. ok (InEvent.client_request id req))
      else if kind == text "message"
      then (m.unmarshal_message event input >>= λ msg. ok (InEvent.internal_message msg))
      else if kind == text "fault"
      then ok InEvent.nil_event
      else err

  -- The fields of the JSON object of a scheduled event.
  abbrev pub Fields : Type 0
  Fields = record {
    at : Text;
    from : Text;
    to : Text;
    kind : Text;
    event : Text;
    args : Raw;
    meta : MetaInfo;
  }

  -- `UnmarshalScheduledEvent`, from the fields on. The zero `time.Time` is 0.
  unfoldable pub unmarshal_scheduled_event :
      (Text → Option Time) → Fields → Result (ScheduledEvent Req Msg)
  unfolding unmarshal time_pico
  unmarshal_scheduled_event parse s = time_pico parse 0 s.at >>= λ at.
      unmarshal s.kind s.event s.from s.args >>= λ event.
      ok (record { at = at; from = s.from; to = s.to; event = event; meta = s.meta })

-- What a reactor's event becomes for the scheduler.
pub data SchedulerEvent (Resp Msg : Type 0) : Type 0 where
  unscheduled : List Text → Text → Text → Text → Args Resp Msg → SchedulerEvent Resp Msg
  timer_event : Text → Duration → SchedulerEvent Resp Msg

-- `ResponseEvent` and `MessageEvent` of the values that the interfaces hold.
module _ {Resp Msg : Type 0} (response_event : Resp → Text) (message_event : Msg → Text) where
  -- One round of `OutEventsToEvents`: the receivers, the sender, the kind, the event and its arguments.
  unfoldable pub to_event : Text → OutEvent Resp Msg → SchedulerEvent Resp Msg
  to_event from oev = elim oev.args [
    | client_response id response ↦
        unscheduled oev.to from (text "ok") (response_event response) oev.args
    | message msg ↦ unscheduled oev.to from (text "message") (message_event msg) oev.args
    | timer duration ↦ timer_event from duration
  ]

  -- `OutEventsToEvents`
  unfoldable pub out_events_to_events :
      Text → List (OutEvent Resp Msg) → List (SchedulerEvent Resp Msg)
  unfolding to_event
  out_events_to_events from [] = []
  out_events_to_events from (oev ∷ oevs) = to_event from oev ∷ out_events_to_events from oevs

-- The values of a column of the data base, as `TimeFromString.Scan` of src/lib/util.go tells them apart.
pub data Column : Type 0 where
  string_column : Text → Column
  bytes_column : Text → Column
  time_column : Time → Column
  other_column : Column

-- `TimeFromString.Scan`, with `time.Parse`.
unfoldable pub scan_time : (Text → Option Time) → Column → Result Time
scan_time parse (string_column t) = elim (parse t) [ none ↦ err | some at ↦ ok at ]
scan_time parse (bytes_column t) = elim (parse t) [ none ↦ err | some at ↦ ok at ]
scan_time parse (time_column at) = ok at
scan_time parse other_column = err
