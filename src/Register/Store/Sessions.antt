-- ===== src/Register/Store/Sessions.antt =====
-- What a sequence of requests leaves in the register: the first write of each session, in order.
use detsys_testkit.Base.{
  ℕ, ◌≡◌, refl, sym, ◌∙◌, ap, true, inl, inr, List, [], ◌∷◌, ◌++◌, append-nil, append_assoc, arith,
  ◌||◌, ◌==◌, contains, nat_eq, not, filter, Option, none, some, Bool-cases, Result, ok, ◌>>=◌, map,
}
use detsys_testkit.Base.Text.{Text}
use detsys_testkit.Events.{internal_message, Time}
use detsys_testkit.Register.Messages.{SessionId, Request, read, write, internal_request}
use detsys_testkit.Register.Store.{Register, new_register, receive, write_once}

-- A request of a session that arrives from a front end: a read (`none`) or a write.
abbrev pub Arrival : Type 0
Arrival = Text × SessionId × Option ℕ

abbrev request_of : Option ℕ → Request
request_of none = read
request_of (some v) = write v

-- The register after the arrivals, each handled by `receive` at some time.
pub run : Register → Time → List Arrival → Result Register
run r at [] = ok r
run r at ((from, id, what) ∷ rest) =
    receive r at from (internal_message (internal_request id (request_of what))) >>= λ next.
    run next.0 at rest

-- The specification: writes in their order, without those whose session has written before.
abbrev without : SessionId → List (SessionId × ℕ) → List (SessionId × ℕ)
without id = filter (λ w. not (w.0 == id))

unfoldable pub first_writes : List Arrival → List (SessionId × ℕ)
first_writes [] = []
first_writes ((from, id, none) ∷ rest) = first_writes rest
first_writes ((from, id, some v) ∷ rest) = (id, v) ∷ without id (first_writes rest)

abbrev unseen : List SessionId → List (SessionId × ℕ) → List (SessionId × ℕ)
unseen seen = filter (λ w. not (contains seen w.0))

unseen-without :
    (seen : List SessionId) (id : SessionId) (ws : List (SessionId × ℕ))
    → contains seen id ≡ true
    → unseen seen (without id ws) ≡ unseen seen ws
unseen-without seen id [] h = refl
unseen-without seen id (w ∷ ws) h = ground (arith, unseen-without seen id ws h)

contains-append :
    (xs ys : List SessionId) (id : SessionId)
    → contains (xs ++ ys) id ≡ (contains xs id || contains ys id)
contains-append [] ys id = refl
contains-append (x ∷ xs) ys id = ground (arith, contains-append xs ys id)

unseen-append :
    (seen : List SessionId) (id : SessionId) (ws : List (SessionId × ℕ))
    → unseen (seen ++ id ∷ []) ws ≡ unseen seen (without id ws)
unseen-append seen id [] = refl
unseen-append seen id (w ∷ ws) =
    ground (arith, unseen-append seen id ws, contains-append seen (id ∷ []) w.0)

unseen_nil : (ws : List (SessionId × ℕ)) → unseen [] ws ≡ ws
unseen_nil [] = refl
unseen_nil (w ∷ ws) = ap (◌∷◌ w) (unseen_nil ws)

-- The register with more writes.
abbrev extend : Register → List (SessionId × ℕ) → Register
extend r ws = record {
  value = r.value ++ map (λ w. w.1) ws;
  sessions = r.sessions ++ map (λ w. w.0) ws;
}

extend_nil : (r : Register) → extend r [] ≡ r
extend_nil r = simp append-nil

run_read :
    (r : Register) (at : Time) (from : Text) (id : SessionId) (rest : List Arrival)
    → run r at ((from, id, none) ∷ rest) ≡ run r at rest
unfolding run receive
run_read r at from id rest = refl

run_write :
    (r : Register) (at : Time) (from : Text) (id v : ℕ) (rest : List Arrival)
    → run r at ((from, id, some v) ∷ rest) ≡ run (write_once r id v) at rest
unfolding run receive
run_write r at from id v rest = refl

write_once_of_contains :
    (r : Register) (id v : ℕ) → contains r.sessions id ≡ true → write_once r id v ≡ r
unfolding write_once
write_once_of_contains r id v h = rw h

extend-write_once :
    (r : Register) (id v : ℕ) (ws : List (SessionId × ℕ))
    → extend (write_once r id v) (unseen (write_once r id v).sessions ws)
      ≡ extend r (unseen r.sessions ((id, v) ∷ without id ws))
unfolding write_once
extend-write_once r id v ws = elim (Bool-cases (contains r.sessions id)) [
  | inl old ↦ rw old (rw (unseen-without r.sessions id ws old) refl)
  | inr new ↦ rw new (rw (unseen-append r.sessions id ws) (simp append_assoc))
]

run-extend :
    (r : Register) (at : Time) (calls : List Arrival)
    → run r at calls ≡ ok (extend r (unseen r.sessions (first_writes calls)))
unfolding first_writes
run-extend r at [] = unfold run in ap ok (sym (extend_nil r))
run-extend r at ((from, id, none) ∷ rest) = run_read r at from id rest ∙ run-extend r at rest
run-extend r at ((from, id, some v) ∷ rest) =
    run_write r at from id v rest
    ∙ run-extend (write_once r id v) at rest
    ∙ ap ok (extend-write_once r id v (first_writes rest))

-- From an empty register, any sequence of reads and writes leaves the first write of each session,
-- in order of arrival.
pub run-first_writes :
    (at : Time) (calls : List Arrival)
    → run new_register at calls
      ≡ ok (record {
        value = map (λ w. w.1) (first_writes calls);
        sessions = map (λ w. w.0) (first_writes calls);
      })
unfolding new_register
run-first_writes at calls = run-extend new_register at calls ∙ rw (unseen_nil (first_writes calls))

-- Every write among the arrivals belongs to a session of the list.
abbrev AllWritten : List SessionId → List Arrival → Type 0
AllWritten seen [] = Unit
AllWritten seen ((from, id, none) ∷ rest) = AllWritten seen rest
AllWritten seen ((from, id, some v) ∷ rest) = (contains seen id ≡ true) × AllWritten seen rest

AllWritten-mono :
    (xs ys : List SessionId) (calls : List Arrival)
    → ((id : SessionId) → contains xs id ≡ true → contains ys id ≡ true)
    → AllWritten xs calls
    → AllWritten ys calls
AllWritten-mono xs ys [] sub h = tt
AllWritten-mono xs ys ((from, id, none) ∷ rest) sub h = AllWritten-mono xs ys rest sub h
AllWritten-mono xs ys ((from, id, some v) ∷ rest) sub (here, h) =
    (sub id here, AllWritten-mono xs ys rest sub h)

abbrev ids : List (SessionId × ℕ) → List SessionId
ids = map (λ w. w.0)

contains-without :
    (id j : SessionId) (ws : List (SessionId × ℕ))
    → contains (ids ws) j ≡ true
    → contains (id ∷ ids (without id ws)) j ≡ true
contains-without id j [] h = cc
contains-without id j (w ∷ ws) h = ground (arith, contains-without id j ws)

contains-unseen :
    (seen : List SessionId) (j : SessionId) (ws : List (SessionId × ℕ))
    → contains (ids ws) j ≡ true
    → (contains seen j || contains (ids (unseen seen ws)) j) ≡ true
contains-unseen seen j [] h = cc
contains-unseen seen j (w ∷ ws) h = ground (arith, contains-unseen seen j ws)

first_writes-AllWritten : (calls : List Arrival) → AllWritten (ids (first_writes calls)) calls
unfolding first_writes
first_writes-AllWritten [] = tt
first_writes-AllWritten ((from, id, none) ∷ rest) = first_writes-AllWritten rest
first_writes-AllWritten ((from, id, some v) ∷ rest) = (
  ground arith,
  AllWritten-mono (ids (first_writes rest)) (id ∷ ids (without id (first_writes rest))) rest
      (λ j. contains-without id j (first_writes rest)) (first_writes-AllWritten rest),
)

run_of_AllWritten :
    (r : Register) (at : Time) (calls : List Arrival)
    → AllWritten r.sessions calls
    → run r at calls ≡ ok r
run_of_AllWritten r at [] h = unfold run in refl
run_of_AllWritten r at ((from, id, none) ∷ rest) h =
    run_read r at from id rest ∙ run_of_AllWritten r at rest h
run_of_AllWritten r at ((from, id, some v) ∷ rest) (here, h) =
    run_write r at from id v rest
    ∙ ap (λ q. run q at rest) (write_once_of_contains r id v here)
    ∙ run_of_AllWritten r at rest h

sessions-AllWritten :
    (r : Register) (calls : List Arrival)
    → AllWritten (extend r (unseen r.sessions (first_writes calls))).sessions calls
sessions-AllWritten r calls =
    AllWritten-mono (ids (first_writes calls)) _ calls
      (λ j h. contains-append r.sessions _ j ∙ contains-unseen r.sessions j (first_writes calls) h)
      (first_writes-AllWritten calls)

-- Sending any arrivals to a register again, as a front end does that has had no answer, leaves the
-- register as sending them once does.
pub run_again :
    (r : Register) (at : Time) (calls : List Arrival)
    → (run r at calls >>= λ s. run s at calls) ≡ run r at calls
run_again r at calls =
    rw (run-extend r at calls) (run_of_AllWritten _ at calls (sessions-AllWritten r calls))
