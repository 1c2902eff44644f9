-- ===== src/Register/Messages.antt =====
-- src/sut/register/messages.go, and what the front ends share: the names of the registers and
-- `translate` of frontend1.go. An interface also holds values of other packages' types: the last
-- constructor of each type stands for those, with the name that their method answers.
use detsys_testkit.Base.{ℕ, ◌+◌, ◌%◌, ◌^◌, List, ◌++◌}
use detsys_testkit.Base.Text.{Text, text}
use detsys_testkit.Base.Decimal.{decimal}
use detsys_testkit.Events.{Time, InEvent, OutEvent, Args, message, client_response, singleton}

-- The `Id` of a `SessionId`: a Go `int`, as its 64-bit pattern.
abbrev pub SessionId : Type 0
SessionId = ℕ

-- `n++` on a Go `int`.
abbrev pub next_int : ℕ → ℕ
next_int n = (n + 1) % 2 ^ 64

pub data Request : Type 0 where
  read : Request
  write : ℕ → Request
  foreign_request : Text → Request

pub data Response : Type 0 where
  value : List ℕ → Response
  ack : Response
  foreign_response : Text → Response

pub data Message : Type 0 where
  internal_request : SessionId → Request → Message
  internal_response : SessionId → Response → Message
  foreign_message : Text → Message

unfoldable pub request_event : Request → Text
request_event read = text "read"
request_event (write v) = text "write"
request_event (foreign_request name) = name

unfoldable pub response_event : Response → Text
response_event (value v) = text "value"
response_event ack = text "ack"
response_event (foreign_response name) = name

unfoldable pub message_event : Message → Text
unfolding request_event response_event
message_event (internal_request id request) = request_event request
message_event (internal_response id response) = response_event response
message_event (foreign_message name) = name

abbrev pub Event : Type 0
Event = InEvent Request Message

abbrev pub Out : Type 0
Out = OutEvent Response Message

abbrev pub register1 : Text
register1 = text "register1"

abbrev pub register2 : Text
register2 = text "register2"

unfoldable pub translate : Request → SessionId → Args Response Message
translate request id = message (internal_request id request)

-- `fmt.Sprintf("client:%d", clientId)`
unfoldable pub client_name : ℕ → Text
unfolding decimal
client_name client = text "client:" ++ decimal client

-- What every front end sends to a register.
unfoldable pub forward : Text → Request → SessionId → Out
unfolding translate singleton
forward register request id = record { to = singleton register; args = translate request id }

-- What every front end sends to the client in the end.
unfoldable pub reply : ℕ → Response → Out
unfolding client_name singleton
reply client response = record {
  to = singleton (client_name client);
  args = client_response client response;
}

-- When, from whom, and what.
abbrev pub Delivery : Type 0
Delivery = Time × Text × Event
