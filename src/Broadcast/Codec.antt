-- ===== src/Broadcast/Codec.antt =====
-- src/sut/broadcast/marshaler.go. `strings.ToLower` and `json.Unmarshal` of the struct with the data are
-- parameters; an error is told without its text.
use detsys_testkit.Base.{◌==◌, text_eq, if◌then◌else◌, Result, ok, err, panic, ◌>>=◌, or_panic}
use detsys_testkit.Base.Text.{Text, text}
use detsys_testkit.Broadcast.{Message}
use detsys_testkit.Broadcast

module _ {Raw : Type 0} (to_lower : Text → Text) (unmarshal_data : Raw → Result Text) where
  -- `Marshaler.UnmarshalRequest` and `Marshaler.UnmarshalResponse`
  unfoldable pub unmarshal_request : {A : Type 0} → Text → Raw → Result A
  unmarshal_request request raw = err

  unfoldable pub unmarshal_response : {A : Type 0} → Text → Raw → Result A
  unmarshal_response response raw = panic

  -- `Marshaler.UnmarshalMessage`
  unfoldable pub unmarshal_message : Text → Raw → Result Message
  unfolding text_eq
  unmarshal_message message raw =
      if to_lower message == text "broadcast"
      then (or_panic (unmarshal_data raw) >>= λ sent. ok (Broadcast.broadcast sent))
      else if to_lower message == text "ack"
      then ok Broadcast.ack
      else panic
