-- ===== src/Broadcast/Acknowledged.antt =====
-- The round of acknowledgements over any history of messages and timers.
use mathlib.Core.Path.{subst}
use detsys_testkit.Base.{
  ◌≡◌, ◌≢◌, ◌↔◌, refl, ◌∙◌, Bool, true, false, some, List, [], ◌∷◌, arith, ◌||◌, ◌==◌, text_eq,
  if◌then◌else◌, contains, Result, ok, >>=-eq-ok,
}
use detsys_testkit.Base.Dict
use detsys_testkit.Base.Dict.{Dict, NodupKeys, insert-NodupKeys, lookup-insert}
use detsys_testkit.Base.Text.{Text}
use detsys_testkit.Base.Sort.{contains-sort}
use detsys_testkit.Events.{Time, internal_message, set, run}
use detsys_testkit.Broadcast.{
  Node, Message, broadcast, ack, Out, round_eq, ack_deliv, receive, timer, recipients,
}

-- What reaches a node: a message, or its timer.
pub data Input : Type 0 where
  arrives : Text → Message → Input
  fires : Input

abbrev pub handle : Time → Node → Input → Result (Node × List Out)
handle at n (arrives from m) = receive n at from (internal_message m)
handle at n fires = ok (timer n at)

-- The neighbour has acknowledged.
abbrev pub acked : Text → List Input → Bool
acked k [] = false
acked k (arrives from ack ∷ rest) = k == from || acked k rest
acked k (_ ∷ rest) = acked k rest

handle-lookup :
    (at : Time) (n n' : Node) (i : Input) (out : List Out) (k : Text)
    → n.round ≡ ack_deliv
    → handle at n i ≡ ok (n', out)
    → (n'.round ≡ ack_deliv)
      × (Dict.lookup k n'.neighbours
          ≡ (if acked k (i ∷ []) then some false else Dict.lookup k n.neighbours))
unfolding receive timer
handle-lookup at n n' (arrives from (broadcast content)) out k r h = ground arith
handle-lookup at n n' (arrives from ack) out k r h =
    ground (arith, lookup-insert k from false n.neighbours)
handle-lookup at n n' (arrives from _) out k r h = absurd (cc)
handle-lookup at n n' fires out k r h = ground arith

handle-NodupKeys :
    (at : Time) (n n' : Node) (i : Input) (out : List Out)
    → n.round ≡ ack_deliv
    → NodupKeys n.neighbours
    → handle at n i ≡ ok (n', out)
    → NodupKeys n'.neighbours
unfolding receive timer
handle-NodupKeys at n n' (arrives from (broadcast content)) out r u h =
    subst NodupKeys (ground arith) u
handle-NodupKeys at n n' (arrives from ack) out r u h =
    subst NodupKeys (ground arith) (insert-NodupKeys from false n.neighbours u)
handle-NodupKeys at n n' (arrives from _) out r u h = absurd (cc)
handle-NodupKeys at n n' fires out r u h = subst NodupKeys (ground arith) u

-- What holds of a node in the round of acknowledgements after some inputs, seen from its start.
record IsAfter (n : Node) (inputs : List Input) (n' : Node) : Type 0 where
  in_round : n'.round ≡ ack_deliv
  nodup : NodupKeys n'.neighbours
  flag :
      (k : Text)
      → Dict.lookup k n'.neighbours
        ≡ (if acked k inputs then some false else Dict.lookup k n.neighbours)

acked-cons :
    (k : Text) (i : Input) (rest : List Input)
    → acked k (i ∷ rest) ≡ (acked k (i ∷ []) || acked k rest)
acked-cons k (arrives from (broadcast content)) rest = refl
acked-cons k (arrives from ack) rest = ground arith
acked-cons k (arrives from _) rest = refl
acked-cons k fires rest = refl

handle-IsAfter :
    (at : Time) (n n' : Node) (i : Input) (out : List Out)
    → n.round ≡ ack_deliv
    → NodupKeys n.neighbours
    → handle at n i ≡ ok (n', out)
    → IsAfter n (i ∷ []) n'
handle-IsAfter at n n' i out r u h = record {
  in_round = (handle-lookup at n n' i out [] r h).0;
  nodup = handle-NodupKeys at n n' i out r u h;
  flag = λ k. (handle-lookup at n n' i out k r h).1;
}

IsAfter-trans :
    (n m l : Node) (i : Input) (rest : List Input)
    → IsAfter n (i ∷ []) m
    → IsAfter m rest l
    → IsAfter n (i ∷ rest) l
IsAfter-trans n m l i rest first later = record {
  in_round = later.in_round;
  nodup = later.nodup;
  flag = λ k. later.flag k ∙ rw (acked-cons k i rest) (ground (arith, first.flag k));
}

run-IsAfter :
    (at : Time) (n n' : Node) (inputs : List Input) (outs : List (List Out))
    → n.round ≡ ack_deliv
    → NodupKeys n.neighbours
    → run (handle at) n inputs ≡ ok (n', outs)
    → IsAfter n inputs n'
unfolding run
run-IsAfter at n n' [] outs r u h =
    let same : n ≡ n' = ground arith in
    subst (IsAfter n []) same (record { in_round = r; nodup = u; flag = λ k. refl })
run-IsAfter at n n' (i ∷ rest) outs r u h =
    let (m, e, h') = >>=-eq-ok (handle at n i) _ h in
    let (l, e', h'') = >>=-eq-ok (run (handle at) m.0 rest) _ h' in
    let step : IsAfter n (i ∷ []) m.0 = handle-IsAfter at n m.0 i m.1 r u e in
    let same : l.0 ≡ n' = ground arith in
    subst (IsAfter n (i ∷ rest)) same (
      IsAfter-trans n m.0 l.0 i rest step
        (run-IsAfter at m.0 l.0 rest l.1 step.in_round step.nodup e'))

contains-recipients :
    (d : Dict Text Bool) (k : Text)
    → NodupKeys d
    → (contains (recipients d) k ≡ true) ↔ (Dict.lookup k d ≡ some true)
unfolding recipients Dict.lookup
contains-recipients [] k u = (λ h. cc, λ h. cc)
contains-recipients ((j, true) ∷ d) k (new, u) = ground (arith, contains-recipients d k u)
contains-recipients ((j, false) ∷ d) k (new, u) = ground (arith, contains-recipients d k u)

-- To whom the first of some events is sent.
abbrev pub first_to : List Out → List Text
first_to [] = []
first_to (e ∷ out) = e.to

first_to-timer :
    (at : Time) (n : Node) (k : Text)
    → NodupKeys n.neighbours
    → n.log ≢ []
    → (contains (first_to (timer n at).1) k ≡ true) ↔ (Dict.lookup k n.neighbours ≡ some true)
unfolding timer set
first_to-timer at n k u heard =
    ground (arith, contains-sort (recipients n.neighbours) k, contains-recipients n.neighbours k u)

-- In the round of acknowledgements, for a node whose map has each neighbour once, after any messages
-- and timers that it survives, its timer sends to exactly those neighbours that were flagged at the
-- start and have not acknowledged, as soon as it has something to send.
pub timer-run :
    (at : Time) (n n' : Node) (inputs : List Input) (outs : List (List Out)) (k : Text)
    → n.round ≡ ack_deliv
    → NodupKeys n.neighbours
    → run (handle at) n inputs ≡ ok (n', outs)
    → n'.log ≢ []
    → (contains (first_to (timer n' at).1) k ≡ true)
      ↔ ((acked k inputs ≡ false) × (Dict.lookup k n.neighbours ≡ some true))
timer-run at n n' inputs outs k r u h heard =
    let after = run-IsAfter at n n' inputs outs r u h in
    ground (arith, first_to-timer at n' k after.nodup heard, after.flag k)
