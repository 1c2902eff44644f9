-- ===== src/Register/Codec/Named.antt =====
-- A message that is decoded has the name by which it was decoded.
use mathlib.Core.Path.{subst}
use detsys_testkit.Base.{
  ◌≡◌, refl, sym, ◌∙◌, inl, inr, [], Option, none, some, ◌==◌, text_eq, arith, Bool-cases, Result,
  ok, err, panic, exit, ok-inj, ◌>>=◌, or_panic, >>=-eq-ok,
}
use detsys_testkit.Base.Text.{Text, text}
use detsys_testkit.Register.Messages.{
  SessionId, read, write, value, ack, Message, internal_request, internal_response, request_event,
  response_event, message_event,
}
use detsys_testkit.Register.Codec.{
  Json, unmarshal_read, unmarshal_write, unmarshal_value, unmarshal_ack, with_id, or_zero,
  unmarshal_message,
}

or_panic-eq-ok : {A : Type 0} → (c : Result A) (a : A) → or_panic c ≡ ok a → c ≡ ok a
or_panic-eq-ok (ok b) a h = h
or_panic-eq-ok err a h = cc
or_panic-eq-ok panic a h = cc
or_panic-eq-ok exit a h = cc

-- What holds of every value that is made holds of the one that is returned.
made :
    {A B : Type 0}
    → (P : B → Type 0) (c : Result A) (make : A → B) (b : B) → ((a : A) → P (make a))
    → (c >>= λ a. ok (make a)) ≡ ok b
    → P b
made P (ok a) make b p h = subst P (ok-inj h) (p a)
made P err make b p h = cc
made P panic make b p h = cc
made P exit make b p h = cc

module _ {Raw : Type 0} (json : Json Raw) where
  -- What holds of the zero value and of all that is decoded holds of what a struct has.
  with_id_all :
      {A B : Type 0}
      → (P : A → Type 0) (Q : B → Type 0) (make : SessionId → A → B) (name : Text) (zero : A)
        (decode : Raw → Result A) (raw : Raw) (b : B)
      → P zero
      → ((raw : Raw) (a : A) → decode raw ≡ ok a → P a)
      → ((id : SessionId) (a : A) → P a → Q (make id a))
      → with_id json make name zero decode raw ≡ ok b
      → Q b
  unfolding with_id
  with_id_all {A = A} P Q make name zero decode raw b z d q h =
      let (id, e, r) = >>=-eq-ok (json.member (text "id") raw >>= or_zero json 0 _) _ h in
      let (op, f, r') = >>=-eq-ok (json.member name raw >>= or_zero json zero decode) _ r in
      let (member, g, r'') = >>=-eq-ok (json.member name raw) _ f in
      subst Q (ok-inj r') (q id op (decoded member op r''))
    where
      decoded : (member : Option Raw) (op : A) → or_zero json zero decode member ≡ ok op → P op
      decoded none op h = subst P (ok-inj h) z
      decoded (some raw') op h = d raw' op h

  abbrev Named : Text → Message → Type 0
  Named name msg = message_event msg ≡ name

  read-Named :
      (raw : Raw) (msg : Message)
      → with_id json internal_request (text "request") read (unmarshal_read json) raw ≡ ok msg
      → Named (text "read") msg
  unfolding unmarshal_read message_event request_event
  read-Named raw msg =
      with_id_all (λ op. request_event op ≡ text "read") (Named (text "read")) internal_request
        (text "request") read (unmarshal_read json) raw msg refl
        (λ r op e.
          made (λ o. request_event o ≡ text "read") (json.member (text "value") r) (λ v. read) op
            (λ v. refl) e)
        (λ id op e. e)

  write-Named :
      (raw : Raw) (msg : Message)
      → with_id json internal_request (text "request") (write 0) (unmarshal_write json) raw ≡ ok msg
      → Named (text "write") msg
  unfolding unmarshal_write message_event request_event
  write-Named raw msg =
      with_id_all (λ op. request_event op ≡ text "write") (Named (text "write")) internal_request
        (text "request") (write 0) (unmarshal_write json) raw msg refl
        (λ r op e.
          made (λ o. request_event o ≡ text "write")
            (json.member (text "value") r >>= or_zero json 0 json.int) (λ v. write v) op (λ v. refl)
            e)
        (λ id op e. e)

  ack-Named :
      (raw : Raw) (msg : Message)
      → with_id json internal_response (text "response") ack (unmarshal_ack json) raw ≡ ok msg
      → Named (text "ack") msg
  unfolding unmarshal_ack message_event response_event
  ack-Named raw msg =
      with_id_all (λ op. response_event op ≡ text "ack") (Named (text "ack")) internal_response
        (text "response") ack (unmarshal_ack json) raw msg refl
        (λ r op e.
          made (λ o. response_event o ≡ text "ack") (json.member (text "value") r) (λ v. ack) op
            (λ v. refl) e)
        (λ id op e. e)

  value-Named :
      (raw : Raw) (msg : Message)
      → with_id json internal_response (text "response") (value []) (unmarshal_value json) raw
        ≡ ok msg
      → Named (text "value") msg
  unfolding unmarshal_value message_event response_event
  value-Named raw msg =
      with_id_all (λ op. response_event op ≡ text "value") (Named (text "value")) internal_response
        (text "response") (value []) (unmarshal_value json) raw msg refl
        (λ r op e.
          made (λ o. response_event o ≡ text "value")
            (json.member (text "value") r >>= or_zero json [] json.ints) (λ v. value v) op
            (λ v. refl) e)
        (λ id op e. e)

  pub message_event-unmarshal_message :
      (name : Text) (raw : Raw) (msg : Message)
      → unmarshal_message json name raw ≡ ok msg
      → message_event msg ≡ json.to_lower name
  unfolding unmarshal_message text_eq
  message_event-unmarshal_message name raw msg h =
      elim (Bool-cases (json.to_lower name == text "read")) [
        | inl e ↦
            read-Named raw msg (or_panic-eq-ok _ msg (sym (rw (e, unmarshal_message) refl) ∙ h))
            ∙ ground arith
        | inr e ↦ elim (Bool-cases (json.to_lower name == text "write")) [
          | inl f ↦
              write-Named raw msg
                (or_panic-eq-ok _ msg (sym (rw (e, f, unmarshal_message) refl) ∙ h))
              ∙ ground arith
          | inr f ↦ elim (Bool-cases (json.to_lower name == text "ack")) [
            | inl g ↦
                ack-Named raw msg
                  (or_panic-eq-ok _ msg (sym (rw (e, f, g, unmarshal_message) refl) ∙ h))
                ∙ ground arith
            | inr g ↦ elim (Bool-cases (json.to_lower name == text "value")) [
              | inl k ↦
                  value-Named raw msg
                    (or_panic-eq-ok _ msg (sym (rw (e, f, g, k, unmarshal_message) refl) ∙ h))
                  ∙ ground arith
              | inr k ↦
                  (let none_ok : panic ≡ ok msg =
                      sym (rw (e, f, g, k, unmarshal_message) refl) ∙ h in
                    cc)
            ]
          ]
        ]
      ]
