-- ===== src/Register/Codec.antt =====
-- src/sut/register/marshaler.go. The text of JSON is read by encoding/json, which is the record `Json`: a
-- member of an object, a string, a number, a list of numbers, each with the error of a value of another
-- type. So are `strings.ToLower`, `strconv.Itoa` and `strconv.Atoi` on the 64-bit pattern of an `int`.
pub mod Named
use detsys_testkit.Base.{
  ℕ, ◌≡◌, refl, sym, ap, ◌∙◌, Bool, true, false, inl, inr, List, [], ◌∷◌, ◌++◌, Option, none, some,
  ◌==◌, text_eq, arith, if◌then◌else◌, Bool-cases, Result, ok, err, panic, ok-inj, ◌>>=◌, or_panic,
  >>=-eq-ok,
}
use detsys_testkit.Base.Text.{Text, text}
use detsys_testkit.Register.Messages.{
  SessionId, Request, read, write, Response, value, ack, Message, internal_request,
  internal_response, request_event, response_event, message_event,
}

pub record Json (Raw : Type 0) : Type 0 where
  pub member : Text → Raw → Result (Option Raw)
  pub string : Raw → Result Text
  pub quoted : Text → Raw
  pub int : Raw → Result ℕ
  pub ints : Raw → Result (List ℕ)
  pub to_lower : Text → Text
  pub itoa : ℕ → Text
  pub atoi : Text → Option ℕ

module _ {Raw : Type 0} (json : Json Raw) where
  -- A member of an object, or the zero value when it is missing.
  abbrev or_zero : {A : Type 0} → A → (Raw → Result A) → Option Raw → Result A
  or_zero zero decode none = ok zero
  or_zero zero decode (some raw) = decode raw

  -- `json.Unmarshal` into the structs of messages.go.
  unmarshal_read : Raw → Result Request
  unmarshal_read raw = json.member (text "value") raw >>= λ unused. ok read

  unmarshal_write : Raw → Result Request
  unmarshal_write raw = json.member (text "value") raw >>= or_zero 0 json.int >>= λ v. ok (write v)

  unmarshal_value : Raw → Result Response
  unmarshal_value raw =
      json.member (text "value") raw >>= or_zero [] json.ints >>= λ v. ok (value v)

  unmarshal_ack : Raw → Result Response
  unmarshal_ack raw = json.member (text "value") raw >>= λ unused. ok ack

  -- `Marshaler.UnmarshalRequest`
  unfoldable pub unmarshal_request : Text → Raw → Result Request
  unfolding unmarshal_read unmarshal_write text_eq
  unmarshal_request request raw =
      if json.to_lower request == text "read"
      then unmarshal_read raw
      else if json.to_lower request == text "write"
      then unmarshal_write raw
      else err

  -- `Marshaler.UnmarshalResponse`: the nil interface for any other name.
  unfoldable pub unmarshal_response : Text → Raw → Result (Option Response)
  unfolding unmarshal_value unmarshal_ack text_eq
  unmarshal_response response raw =
      if json.to_lower response == text "value"
      then (or_panic (unmarshal_value raw) >>= λ op. ok (some op))
      else if json.to_lower response == text "ack"
      then (or_panic (unmarshal_ack raw) >>= λ op. ok (some op))
      else ok none

  -- `SessionId.MarshalJSON` and `SessionId.UnmarshalJSON`
  unfoldable pub marshal_session_id : SessionId → Raw
  marshal_session_id id = json.quoted (json.itoa id)

  unfoldable pub unmarshal_session_id : Raw → Result SessionId
  unmarshal_session_id body =
      json.string body >>= λ s. elim (json.atoi s) [ none ↦ err | some inner ↦ ok inner ]

  -- The structs with an id and what it is for.
  with_id : {A B : Type 0} → (SessionId → A → B) → Text → A → (Raw → Result A) → Raw → Result B
  unfolding unmarshal_session_id
  with_id make name zero decode raw =
      json.member (text "id") raw >>= or_zero 0 unmarshal_session_id >>= λ id.
      json.member name raw >>= or_zero zero decode >>= λ op. ok (make id op)

  -- `Marshaler.UnmarshalMessage`
  unfoldable pub unmarshal_message : Text → Raw → Result Message
  unfolding with_id unmarshal_read unmarshal_write unmarshal_value unmarshal_ack text_eq
  unmarshal_message message raw =
      if json.to_lower message == text "read"
      then or_panic (with_id internal_request (text "request") read unmarshal_read raw)
      else if json.to_lower message == text "write"
      then or_panic (with_id internal_request (text "request") (write 0) unmarshal_write raw)
      else if json.to_lower message == text "ack"
      then or_panic (with_id internal_response (text "response") ack unmarshal_ack raw)
      else if json.to_lower message == text "value"
      then or_panic (with_id internal_response (text "response") (value []) unmarshal_value raw)
      else panic
