-- ===== src/Generator/Found.antt =====
-- The deployment of a test that was just created is the one that is found again.
use detsys_testkit.Base.{
  ℕ, ◌≤◌, ◌≡◌, refl, ap, ◌∙◌, false, inl, inr, List, [], ◌∷◌, ◌++◌, ◌==◌, nat_eq, arith, append-nil,
  ok, ◌>>=◌, Result-cases,
}
use detsys_testkit.Scheduled.{ScheduledEvent}
use detsys_testkit.Topology
use detsys_testkit.Topology.{Topology}
use detsys_testkit.Generator.{
  Codec, TestInfo, next_test_id, agenda_items, deployment_of, generate_test, rows_of, read_rows,
  deployment_info_for_test,
}

-- No test has the next id, or a later one.
rows_of_next :
    {Raw : Type 0}
    → (tests : List (TestInfo Raw)) (id : ℕ) → next_test_id tests ≤ id
    → rows_of tests id ≡ []
unfolding next_test_id rows_of nat_eq
rows_of_next [] id h = refl
rows_of_next (test ∷ tests) id h =
    let away : (test.test_id == id) ≡ false = ground arith in
    let later : next_test_id tests ≤ id = ground arith in rw (away) (rows_of_next tests id later)

rows_of-append :
    {Raw : Type 0}
    → (tests more : List (TestInfo Raw)) (id : ℕ)
    → rows_of (tests ++ more) id ≡ rows_of tests id ++ rows_of more id
unfolding rows_of nat_eq
rows_of-append [] more id = refl
rows_of-append (test ∷ tests) more id = ground (arith, rows_of-append tests more id)

module _ {S Raw Req Msg : Type 0} (codec : Codec S Raw Req Msg) where
  -- Whatever tests there are, reading the deployment of the test that was just generated gives
  -- exactly the deployment that was made of its topology, and fails as generating it fails.
  pub deployment_info_for_test-generate_test :
      (tests : List (TestInfo Raw)) (topology : Topology S) (agenda : List (ScheduledEvent Req Msg))
      → (generate_test codec tests topology agenda >>= λ (tests', id).
          deployment_info_for_test tests' id)
        ≡ (agenda_items codec agenda >>= λ entries.
            deployment_of codec topology (Topology.reactors topology))
  unfolding generate_test deployment_info_for_test read_rows rows_of nat_eq
  deployment_info_for_test-generate_test tests topology agenda =
      elim (Result-cases (agenda_items codec agenda)) [
        | inr (inl e) ↦ rw (e) refl
        | inr (inr (inl e)) ↦ rw (e) refl
        | inr (inr (inr e)) ↦ rw (e) refl
        | inl (entries, e) ↦
            elim (Result-cases (deployment_of codec topology (Topology.reactors topology))) [
              | inr (inl f) ↦ rw (e) (rw (f) refl)
              | inr (inr (inl f)) ↦ rw (e) (rw (f) refl)
              | inr (inr (inr f)) ↦ rw (e) (rw (f) refl)
              | inl (deployment, f) ↦
                  let id = next_test_id tests in
                  let new : TestInfo Raw = record {
                    test_id = id;
                    agenda = entries;
                    deployment = deployment;
                  } in
                  let last : rows_of (new ∷ []) id ≡ deployment ∷ [] = ground arith in
                  let rows : rows_of (tests ++ new ∷ []) id ≡ deployment ∷ [] =
                    rows_of-append tests (new ∷ []) id
                    ∙ rw (rows_of_next tests id (omega arith)) last in
                  rw (e)
                    (rw (f) (rw (rows, deployment_info_for_test) (ap ok (append-nil deployment))))
            ]
      ]
