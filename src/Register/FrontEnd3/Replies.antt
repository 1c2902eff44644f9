-- ===== src/Register/FrontEnd3/Replies.antt =====
-- What the third front end replies to the response that completes a session, and to those that come later.
use detsys_testkit.Base.{
  ℕ, ◌≡◌, refl, true, not, none, some, List, [], ◌∷◌, All, filter, map, ok, ◌==◌, nat_eq, text_eq,
  arith,
}
use detsys_testkit.Base.Dict
use detsys_testkit.Base.Dict.{lookup-erase_self}
use detsys_testkit.Base.Text.{Text}
use detsys_testkit.Events.{Time, run, internal_message}
use detsys_testkit.Register.Messages.{SessionId, Response, Delivery, internal_response, reply}
use detsys_testkit.Register.Pending.{OnGoing}
use detsys_testkit.Register.FrontEnd3.{FrontEnd3, strike, remove_session, receive, handle}

-- A response of a session, with its time and the register that sends it.
abbrev pub response_of : SessionId → Time × Text × Response → Delivery
response_of session r = (r.0, r.1, internal_message (internal_response session r.2))

-- The entries of the session are all of one register.
abbrev pub AwaitsOnly : Text → SessionId → OnGoing → Type 0
AwaitsOnly from session ons = All (λ on. on.session_id ≡ session → on.register ≡ from) ons

strike_last :
    (from : Text) (session : SessionId) (ons : OnGoing)
    → AwaitsOnly from session ons
    → strike from session ons ≡ (filter (λ on. not (on.session_id == session)) ons, true)
unfolding strike
strike_last from session [] h = refl
strike_last from session (on ∷ ons) (only, h) = ground (arith, only, strike_last from session ons h)

receive_late :
    (fe : FrontEnd3) (session : SessionId) (late : List (Time × Text × Response))
    → Dict.lookup session fe.in_flight ≡ none
    → run handle fe (map (response_of session) late) ≡ ok (fe, map (λ r. reply 0 r.2 ∷ []) late)
unfolding run receive
receive_late fe session [] e = refl
receive_late fe session (r ∷ late) e =
    rw (e, remove_session) (rw (receive_late fe session late e) refl)

-- If a session is in flight and waits for one register only, then in the third front end the
-- response of this register is replied to the client, the entries of the session are gone and it is
-- no longer in flight; every later response of the session, from whichever register, changes
-- nothing, and is replied to client 0.
pub receive_completing :
    (fe : FrontEnd3) (session : SessionId) (client : ℕ) (at : Time) (from : Text)
    (response : Response) (late : List (Time × Text × Response))
    → Dict.lookup session fe.in_flight ≡ some client
    → AwaitsOnly from session fe.on_going
    → run handle fe (map (response_of session) ((at, from, response) ∷ late))
      ≡ ok (
        record fe {
          on_going = filter (λ on. not (on.session_id == session)) fe.on_going;
          in_flight = Dict.erase session fe.in_flight;
        },
        (reply client response ∷ []) ∷ map (λ r. reply 0 r.2 ∷ []) late,
      )
unfolding run receive
receive_completing fe session client at from response late e only =
    rw (e, remove_session)
      (rw (strike_last from session fe.on_going only) (
        rw
          (receive_late
            (record fe {
              on_going = filter (λ on. not (on.session_id == session)) fe.on_going;
              in_flight = Dict.erase session fe.in_flight;
            })
            session late (lookup-erase_self session fe.in_flight))
          refl))
