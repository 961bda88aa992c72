-- ===== src/Ingest/Quota.antt =====
-- packages/server/src/ingest/quota.ts: `isOverQuota`. A number that is passed to it is a double: not
-- a number, infinite, or finite, here of whole units, as counts and quotas are.
mod Tests
pub mod Decision
use lyraflow.Prelude.{ℕ, zero, suc, ◌+◌, Bool, true, false, Option, none, some, leb}

pub data Number : Type 0 where
  not_a_number : Number
  infinite : Bool → Number
  finite : Bool → ℕ → Number

-- What the call does: it throws, or it returns.
pub data Verdict : Type 0 where
  refused : Verdict
  returned : Bool → Verdict

-- The magnitude of a number that `Number.isFinite` and `>= 0` both pass.
pub as_count : Number → Option ℕ
as_count not_a_number = none
as_count (infinite negative) = none
as_count (finite true zero) = some 0
as_count (finite true (suc n)) = none
as_count (finite false n) = some n

-- `>=` on the counts once they are known to be counts.
decide : Option ℕ → Option ℕ → Option ℕ → Verdict
decide none persisted pending = refused
decide (some zero) persisted pending = refused
decide (some (suc q)) none pending = refused
decide (some (suc q)) (some n) none = refused
decide (some (suc q)) (some n) (some m) = returned (leb (suc q) (n + m))

pub is_over_quota : Number → Number → Option Number → Verdict
is_over_quota persisted pending none = returned false
is_over_quota persisted pending (some quota) =
    decide (as_count quota) (as_count persisted) (as_count pending)
