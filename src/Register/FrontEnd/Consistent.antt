-- ===== src/Register/FrontEnd/Consistent.antt =====
-- The two maps of the first front end are inverse to each other, and every session id was handed out.
use detsys_testkit.Base.{
  ℕ, ◌+◌, ◌^◌, ◌<◌, ◌≡◌, ◌≢◌, sym, ap, ◌∙◌, ℕ_discrete, none, some, arith, nat_eq, Option-cases,
  inl, inr,
}
use detsys_testkit.Base.Dict
use detsys_testkit.Base.Dict.{
  lookup-insert, lookup-insert_self, lookup-insert_ne, lookup-erase_ne, lookup-erase-eq-some,
}
use detsys_testkit.Events.{Time}
use detsys_testkit.Register.Messages.{SessionId, next_int}
use detsys_testkit.Register.FrontEnd.{FrontEnd, SessionIdWithContext, new_front_end, remove_session}

pub record IsConsistent (fe : FrontEnd) : Type 0 where
  pub session_of_client :
      (client : ℕ) (s : SessionIdWithContext)
      → Dict.lookup client fe.in_flight ≡ some s
      → Dict.lookup s.id fe.in_flight_session_to_client ≡ some client
  pub client_of_session :
      (id : SessionId) (client : ℕ)
      → Dict.lookup id fe.in_flight_session_to_client ≡ some client
      → (s : SessionIdWithContext) × (Dict.lookup client fe.in_flight ≡ some s) × (s.id ≡ id)
  pub below_next :
      (id : SessionId) (client : ℕ)
      → Dict.lookup id fe.in_flight_session_to_client ≡ some client
      → id < fe.next_session_id

pub new_front_end-IsConsistent : IsConsistent new_front_end
unfolding new_front_end Dict.lookup
new_front_end-IsConsistent = record {
  session_of_client = λ client s h. cc;
  client_of_session = λ id client h. absurd (cc);
  below_next = λ id client h. absurd (cc);
}

-- Two sessions of one client are one.
session_unique :
    (fe : FrontEnd)
    → IsConsistent fe
    → (id id' : SessionId) (client : ℕ)
    → Dict.lookup id fe.in_flight_session_to_client ≡ some client
    → Dict.lookup id' fe.in_flight_session_to_client ≡ some client
    → id ≡ id'
session_unique fe v id id' client h h' =
    let (s, e, p) = v.client_of_session id client h in
    let (s', e', p') = v.client_of_session id' client h' in ground arith

unfoldable pub removed : FrontEnd → SessionId → ℕ → FrontEnd
removed fe session client = record fe {
  in_flight = Dict.erase client fe.in_flight;
  in_flight_session_to_client = Dict.erase session fe.in_flight_session_to_client;
}

pub removed-IsConsistent :
    (fe : FrontEnd) (session : SessionId) (client : ℕ)
    → IsConsistent fe
    → Dict.lookup session fe.in_flight_session_to_client ≡ some client
    → IsConsistent (removed fe session client)
unfolding removed
removed-IsConsistent fe session client v e = record {
  session_of_client = λ c s h.
      let (other, found) = lookup-erase-eq-some c client fe.in_flight h in
      let back = v.session_of_client c s found in
      lookup-erase_ne s.id session _ (λ same. other (ground arith)) ∙ back;
  client_of_session = λ id c h.
      let (other, found) = lookup-erase-eq-some id session fe.in_flight_session_to_client h in
      let (s, there, same) = v.client_of_session id c found in
      (
        s,
        lookup-erase_ne c client _ (λ p. other (session_unique fe v id session c found (rw p e)))
            ∙ there,
        same,
      );
  below_next = λ id c h.
      v.below_next id c (lookup-erase-eq-some id session fe.in_flight_session_to_client h).1;
}

-- Removing a session, known or not, keeps the maps inverse.
pub remove_session-IsConsistent :
    (fe : FrontEnd) (session : SessionId)
    → IsConsistent fe
    → IsConsistent (remove_session fe session).0
unfolding remove_session
remove_session-IsConsistent fe session v =
    elim (Option-cases (Dict.lookup session fe.in_flight_session_to_client)) [
      | inl e ↦ rw (e, remove_session) v
      | inr (client, e) ↦
          rw (e, remove_session) (unfold removed in removed-IsConsistent fe session client v e)
    ]

unfoldable pub added : FrontEnd → ℕ → Time → FrontEnd
added fe client at = record {
  in_flight = Dict.insert client (record { id = fe.next_session_id; at = at }) fe.in_flight;
  in_flight_session_to_client =
      Dict.insert fe.next_session_id client fe.in_flight_session_to_client;
  next_session_id = next_int fe.next_session_id;
}

fresh :
    (fe : FrontEnd)
    → IsConsistent fe
    → (c : ℕ) (s : SessionIdWithContext) → Dict.lookup c fe.in_flight ≡ some s
    → s.id ≢ fe.next_session_id
fresh fe v c s h same = absurd (omega (arith, v.below_next s.id c (v.session_of_client c s h)))

added-session_of_client :
    (fe : FrontEnd) (client : ℕ) (at : Time)
    → IsConsistent fe
    → (c : ℕ) (s : SessionIdWithContext) → Dict.lookup c (added fe client at).in_flight ≡ some s
    → Dict.lookup s.id (added fe client at).in_flight_session_to_client ≡ some c
unfolding added
added-session_of_client fe client at v c s h = ground (
  arith,
  lookup-insert c client (record { id = fe.next_session_id; at = at }) fe.in_flight,
  lookup-insert s.id fe.next_session_id client fe.in_flight_session_to_client,
  v.session_of_client c s,
  fresh fe v c s,
)

added-client_of_session :
    (fe : FrontEnd) (client : ℕ) (at : Time)
    → IsConsistent fe
    → Dict.lookup client fe.in_flight ≡ none
    → (id : SessionId) (c : ℕ)
    → Dict.lookup id (added fe client at).in_flight_session_to_client ≡ some c
    → (s : SessionIdWithContext) × (Dict.lookup c (added fe client at).in_flight ≡ some s)
      × (s.id ≡ id)
unfolding added
added-client_of_session fe client at v free id c h = elim (ℕ_discrete id fe.next_session_id) [
  | yes p ↦ (
    record { id = fe.next_session_id; at = at },
    ground (
      arith,
      lookup-insert id fe.next_session_id client fe.in_flight_session_to_client,
      lookup-insert c client (record { id = fe.next_session_id; at = at }) fe.in_flight,
    ),
    sym p,
  )
  | no n ↦
      let old = sym (lookup-insert_ne id fe.next_session_id client _ n) ∙ h in
      let (s, there, same) = v.client_of_session id c old in
      (
        s,
        lookup-insert_ne c client _ fe.in_flight
              (λ p. cc (sym (ap (λ k. Dict.lookup k fe.in_flight) p) ∙ there, free))
            ∙ there,
        same,
      )
]

pub added-IsConsistent :
    (fe : FrontEnd) (client : ℕ) (at : Time)
    → IsConsistent fe
    → Dict.lookup client fe.in_flight ≡ none
    → fe.next_session_id + 1 < 2 ^ 64
    → IsConsistent (added fe client at)
added-IsConsistent fe client at v free room = record {
  session_of_client = added-session_of_client fe client at v;
  client_of_session = added-client_of_session fe client at v free;
  below_next =
      unfold added in
      λ id c h. ground (
        arith,
        lookup-insert id fe.next_session_id client fe.in_flight_session_to_client,
        v.below_next id c,
      );
}
