-- ===== src/EventLoop/Clock.antt =====
-- The logical clock: `LogicalTime` of src/executor-event-loop/envelope.go, a Go `int` as its 64-bit
-- pattern.
use detsys_testkit.Base.{ℕ, ◌+◌, ◌%◌, ◌^◌, ◌<◌, ◌≡◌, Bool, arith, ltb, if◌then◌else◌}

abbrev pub LogicalTime : Type 0
LogicalTime = ℕ

-- `<` on the signed integers of two patterns.
abbrev pub int_lt : ℕ → ℕ → Bool
int_lt a b = ltb ((a + 2 ^ 63) % 2 ^ 64) ((b + 2 ^ 63) % 2 ^ 64)

unfoldable pub incr : LogicalTime → LogicalTime
incr lt = (lt + 1) % 2 ^ 64

unfoldable pub merge : LogicalTime → LogicalTime → LogicalTime
merge lt olt = ((if int_lt lt olt then olt else lt) + 1) % 2 ^ 64

-- The times that are not negative and can still be incremented.
abbrev pub HasRoom : LogicalTime → Type 0
HasRoom lt = lt + 1 < 2 ^ 63

pub incr_lem : (lt : LogicalTime) → HasRoom lt → incr lt ≡ lt + 1
unfolding incr
incr_lem lt h = omega arith

-- The merged time is the next after the later of the two.
pub merge_lem :
    (lt olt : LogicalTime)
    → HasRoom lt
    → HasRoom olt
    → merge lt olt ≡ (if ltb lt olt then olt else lt) + 1
unfolding merge
merge_lem lt olt h k = ground arith

-- The merge of two logical times that are not negative and can still be incremented is later than
-- both.
pub merge_later :
    (lt olt : LogicalTime) → HasRoom lt → HasRoom olt → (lt < merge lt olt) × (olt < merge lt olt)
merge_later lt olt h k = ground (arith, merge_lem lt olt h k)
