-- ===== src/SchedulerClient/Registered.antt =====
-- What the client of src/lib/scheduler.go gets and registers.
use detsys_testkit.Base.{
  ℕ, ◌≡◌, ◌↔◌, refl, sym, ap, ◌∙◌, List, [], ◌∷◌, Option, none, some, arith, nat_eq, ok, panic,
  ◌>>=◌, >>=-eq-ok, ok-inj, some_or_panic, inl, inr, Option-cases,
}
use detsys_testkit.Base.Text.{Text, text}
use detsys_testkit.Debugger.Repeat.{pos}
use detsys_testkit.Scheduled.{ScheduledEvent}
use detsys_testkit.Topology
use detsys_testkit.Topology.{Topology}
use detsys_testkit.Generator.{
  Codec, TestInfo, DeploymentInfo, agenda_items, deployment_of, generate_test,
  deployment_info_for_test,
}
use detsys_testkit.Generator.Found.{deployment_info_for_test-generate_test}
use detsys_testkit.SchedulerClient.{
  Remote, Response, Parameters, executor, body_of, names_of, deployment_info_for_id,
  reactors_from_deployment, executor_url, post, post_only, register_executor, register,
}

module _ {S Raw Req Msg : Type 0} (codec : Codec S Raw Req Msg) where
  -- A deployment names the reactors of which it was made.
  names_of-deployment_of :
      (topology : Topology S) (names : List Text) {deployment : List (DeploymentInfo Raw)}
      → deployment_of codec topology names ≡ ok deployment
      → names_of deployment ≡ names
  unfolding deployment_of names_of
  names_of-deployment_of topology [] h = ap names_of (sym (ok-inj h))
  names_of-deployment_of topology (name ∷ names) h =
      let (r, _, h1) = >>=-eq-ok (Topology.reactor topology name) (λ _. _) h in
      let (args, _, h2) = >>=-eq-ok (some_or_panic (codec.marshal_reactor r)) (λ _. _) h1 in
      let (rest, q, h3) = >>=-eq-ok (deployment_of codec topology names) (λ _. _) h2 in
      ap names_of (sym (ok-inj h3)) ∙ ap (λ ns. name ∷ ns) (names_of-deployment_of topology names q)

  -- What is found of a test that was generated.
  names_of_generated :
      (tests tests' : List (TestInfo Raw)) (topology : Topology S)
      (agenda : List (ScheduledEvent Req Msg)) (id : ℕ)
      → generate_test codec tests topology agenda ≡ ok (tests', id)
      → (deployment : List (DeploymentInfo Raw)) × (deployment_info_for_test tests' id
          ≡ ok deployment)
        × (names_of deployment ≡ Topology.reactors topology)
  unfolding generate_test
  names_of_generated tests tests' topology agenda id h =
      let (entries, ea, h1) = >>=-eq-ok (agenda_items codec agenda) (λ _. _) h in
      let (deployment, ed, h2) =
        >>=-eq-ok (deployment_of codec topology (Topology.reactors topology)) (λ _. _) h1 in
      (
        deployment,
        ap (λ r. r >>= λ (p : List (TestInfo Raw) × ℕ). deployment_info_for_test p.0 p.1) (sym h)
            ∙ deployment_info_for_test-generate_test codec tests topology agenda
            ∙ rw (ea) ed,
        names_of-deployment_of topology (Topology.reactors topology) ed,
      )

  -- Registering the test that was just generated posts exactly one request, which registers the
  -- executor for the names of the reactors in the topology of the test, in their order.
  pub register-generate_test :
      {Sch Bytes Json F : Type 0} (remote : Remote Sch Bytes Json F) (sch : Sch)
      (tests tests' : List (TestInfo Raw)) (topology : Topology S)
      (agenda : List (ScheduledEvent Req Msg)) (id : ℕ)
      → generate_test codec tests topology agenda ≡ ok (tests', id)
      → register remote sch tests' (pos id)
        ≡ post_only remote sch
            (text "register-executor!")
            (executor executor_url (Topology.reactors topology))
  unfolding register register_executor reactors_from_deployment deployment_info_for_id
  register-generate_test remote sch tests tests' topology agenda id h =
      let (deployment, found, names) = names_of_generated tests tests' topology agenda id h in
      rw (found, register) (ap (λ ns. register_executor remote sch executor_url ns) names)

body_of-eq-ok :
    {Raw : Type 0} (response : Option (Response Raw)) (body : Raw)
    → body_of response ≡ ok body
    → response ≡ some (record { status_code = 200; body = some body })
unfolding body_of
body_of-eq-ok none body h = cc
body_of-eq-ok (some r) body h = ground arith

module _ {Sch Raw Json F : Type 0} (remote : Remote Sch Raw Json F) (sch : Sch) (command : Text)
    (parameters : Parameters F) where
  post_unmarshalled :
      remote.marshal (record { command = command; parameters = parameters }) ≡ none
      → post remote sch command parameters ≡ (sch, panic)
  unfolding post
  post_unmarshalled e = rw (e, post) refl

  post_marshalled :
      {request : Raw}
      → remote.marshal (record { command = command; parameters = parameters }) ≡ some request
      → post remote sch command parameters
        ≡ ((remote.http_post sch request).0, body_of ((remote.http_post sch request).1))
  unfolding post
  post_marshalled e = rw (e, post) refl

  -- `Post` gives a body exactly if the request can be encoded and is answered with status 200 and it.
  pub post-eq-ok :
      (sch' : Sch) (body : Raw)
      → (post remote sch command parameters ≡ (sch', ok body)) ↔ (
          (request : Raw) × (remote.marshal (record { command = command; parameters = parameters })
            ≡ some request)
          × (remote.http_post sch request
              ≡ (sch', some (record { status_code = 200; body = some body }))))
  post-eq-ok sch' body = (
    λ h.
        elim (Option-cases
          (remote.marshal (record { command = command; parameters = parameters }))) [
            | inl e ↦
                (let impossible : panic ≡ ok body = ap (λ p. p.1) (sym (post_unmarshalled e) ∙ h) in
                  cc)
            | inr (request, e) ↦
                (let same = sym (post_marshalled e) ∙ h in
                  let answer = body_of-eq-ok _ body (ap (λ p. p.1) same) in
                  (request, e, λ i. ((same i).0, answer i)))
          ],
    λ (request, e, answer). post_marshalled e ∙ rw (answer) (unfold body_of in refl),
  )
