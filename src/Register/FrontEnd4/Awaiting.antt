-- ===== src/Register/FrontEnd4/Awaiting.antt =====
-- The fourth front end seen from outside: for each session in flight, its client and the registers
-- whose response is awaited. The operations on the slice and the map refine this view.
use detsys_testkit.Base.{
  ℕ, ◌≡◌, ◌≢◌, refl, Bool, true, false, none, some, Option, List, [], ◌∷◌, arith, not, ◌&&◌, ◌==◌,
  nat_eq, text_eq, if◌then◌else◌, filter, contains,
}
use detsys_testkit.Base.Dict
use detsys_testkit.Base.Dict.{lookup-erase, lookup-insert}
use detsys_testkit.Base.Text.{Text}
use detsys_testkit.Events.{Time}
use detsys_testkit.Register.Messages.{SessionId}
use detsys_testkit.Register.Pending.{OnGoing}
use detsys_testkit.Register.Pending.Laws.{pending, pending-resend}
use detsys_testkit.Register.FrontEnd4.{FrontEnd4, strike, remove_session, timer}

-- A client, and the registers whose response is awaited.
abbrev pub Awaited : Type 0
Awaited = Option (ℕ × List Text)

unfoldable pub view : FrontEnd4 → SessionId → Awaited
view fe session = elim (Dict.lookup session fe.in_flight) [
  | none ↦ none
  | some client ↦ some (client, pending session fe.on_going)
]

abbrev pub others : Text → List Text → List Text
others from = filter (λ register. not (from == register))

abbrev pub is_empty : List Text → Bool
is_empty [] = true
is_empty (x ∷ xs) = false

-- A response takes its sender off the list, and ends the session if nobody else is awaited.
unfoldable pub answered : Text → Awaited → Awaited
answered from none = none
answered from (some (client, registers)) =
    if is_empty (others from registers) then none else some (client, others from registers)

-- The client to reply to: of a session that awaits this sender and nobody else.
unfoldable pub completes : Text → Awaited → Option ℕ
completes from none = none
completes from (some (client, registers)) =
    if is_empty (others from registers) && contains registers from then some client else none

module _ (from : Text) (session : SessionId) where
  pub strike-pending :
      (ons : OnGoing)
      → pending session (strike from session ons).0 ≡ others from (pending session ons)
  unfolding strike pending
  strike-pending [] = refl
  strike-pending (on ∷ rest) = ground (arith, strike-pending rest)

  pub strike-pending_ne :
      (other : SessionId) (ons : OnGoing)
      → other ≢ session
      → pending other (strike from session ons).0 ≡ pending other ons
  unfolding strike pending
  strike-pending_ne other [] h = refl
  strike-pending_ne other (on ∷ rest) h = ground (arith, strike-pending_ne other rest h)

  pub strike-no_more :
      (ons : OnGoing) → (strike from session ons).1 ≡ is_empty (others from (pending session ons))
  unfolding strike pending
  strike-no_more [] = refl
  strike-no_more (on ∷ rest) = ground (arith, strike-no_more rest)

  pub strike-found :
      (ons : OnGoing) → (strike from session ons).2 ≡ contains (pending session ons) from
  unfolding strike pending
  strike-found [] = refl
  strike-found (on ∷ rest) = ground (arith, strike-found rest)

-- A response takes its sender off the registers that its session awaits, ends the session if nobody
-- else is awaited, and touches no other session: RemoveSession of the fourth front end implements
-- this on every state.
pub view-remove_session :
    (fe : FrontEnd4) (from : Text) (session other : SessionId)
    → view (remove_session fe from session).0 other
      ≡ (if other == session then answered from (view fe session) else view fe other)
unfolding view remove_session answered
view-remove_session fe from session other = ground (
  arith,
  lookup-erase other session fe.in_flight,
  strike-pending from session fe.on_going,
  strike-pending_ne from session other fe.on_going,
  strike-no_more from session fe.on_going,
)

-- RemoveSession of the fourth front end tells to reply to the client of a session exactly if the
-- session awaits the sender and nobody else.
pub completes-remove_session :
    (fe : FrontEnd4) (from : Text) (session : SessionId)
    → completes from (view fe session) ≡ (
        if (remove_session fe from session).2
        then some (remove_session fe from session).1
        else none)
unfolding view remove_session completes
completes-remove_session fe from session =
    ground (arith, strike-no_more from session fe.on_going, strike-found from session fe.on_going)

-- Sending overdue requests again changes neither the client nor the awaited registers of any
-- session.
pub view-timer :
    (fe : FrontEnd4) (at : Time) (session : SessionId)
    → view (timer fe at).0 session ≡ view fe session
unfolding view timer
view-timer fe at session = ground (arith, pending-resend session fe.resend_timer at fe.on_going)
