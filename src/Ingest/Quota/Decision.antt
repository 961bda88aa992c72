-- ===== src/Ingest/Quota/Decision.antt =====
-- packages/server/src/ingest/quota.ts: when `isOverQuota` refuses to answer, and what its answer says
-- of the events that packages/server/src/ingest/counters.ts has recorded.
use lyraflow.Prelude.{
  ℕ, zero, suc, ◌+◌, ◌≡◌, refl, ap, Bool, false, Option, none, some, List, arith, leb, nat_eq,
  string_eq,
}
use lyraflow.Prelude.Orders.{Units}
use lyraflow.JsMap.{get}
use lyraflow.Ingest.Quota.{Number, finite, returned, as_count, decide, is_over_quota}
use lyraflow.Ingest.Counters.{
  accepted, Event, Tallies, current_month, look, persisted_accepted, pending_accepted, run, started,
}
use lyraflow.Ingest.Counters.Kept.{in_flight, held, all_recorded, held-run}

-- With a quota, the call returns only for a quota that is a positive count and for figures that are
-- counts, and then says whether the figures together reach it: a figure that is not a number, not
-- finite or negative is never answered.
pub is_over_quota_sound :
    (persisted pending quota : Number) (over : Bool)
    → is_over_quota persisted pending (some quota) ≡ returned over
    → (q : ℕ) × (n : ℕ) × (m : ℕ) × ((as_count quota ≡ some (suc q))
        × (as_count persisted ≡ some n)
        × (as_count pending ≡ some m)
        × (over ≡ leb (suc q) (n + m)))
unfolding is_over_quota decide
is_over_quota_sound persisted pending quota over h =
    go (as_count quota) (as_count persisted) (as_count pending) refl refl refl h
  where
    go :
        (o a b : Option ℕ)
        → as_count quota ≡ o
        → as_count persisted ≡ a
        → as_count pending ≡ b
        → decide o a b ≡ returned over
        → (q : ℕ) × (n : ℕ) × (m : ℕ) × ((as_count quota ≡ some (suc q))
            × (as_count persisted ≡ some n)
            × (as_count pending ≡ some m)
            × (over ≡ leb (suc q) (n + m)))
    go none a b eo ea eb h = cc
    go (some zero) a b eo ea eb h = cc
    go (some (suc q)) none b eo ea eb h = cc
    go (some (suc q)) (some n) none eo ea eb h = cc
    go (some (suc q)) (some n) (some m) eo ea eb h = (q, n, m, (eo, ea, eb, cc))

-- In a process that started over a table, whatever was recorded and flushed since and whatever
-- failed, once no statement is awaited the decision made from `persistedAccepted` and
-- `pendingAccepted` is whether the accepted events of the project in that month, those of the table
-- at the start and those recorded since, reach the quota.
pub is_over_quota-run :
    (iso : Units) (p q : ℕ) (rows : Tallies) (es : List Event)
    → in_flight accepted p (current_month iso) (run es (started rows)).running ≡ 0
    → is_over_quota
        (finite false (persisted_accepted iso p (run es (started rows))))
        (finite false (pending_accepted iso p (run es (started rows))))
        (some (finite false (suc q)))
      ≡ returned (
          leb (suc q) (
            look accepted p (current_month iso) rows
            + all_recorded accepted p (current_month iso) es))
unfolding is_over_quota as_count decide persisted_accepted pending_accepted held look get in_flight
is_over_quota-run iso p q rows es none_left =
    ap (λ n. returned (leb (suc q) n))
      (omega (arith, held-run accepted p (current_month iso) es (started rows) (tt, tt), none_left))
