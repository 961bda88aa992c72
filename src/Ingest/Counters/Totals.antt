-- ===== src/Ingest/Counters/Totals.antt =====
-- `totals` of packages/server/src/ingest/counters.ts, behind `/metrics`.
use lyraflow.Prelude.{
  ℕ, ◌+◌, ◌≡◌, refl, ap, Bool, true, false, List, [], ◌∷◌, arith, nat_eq, string_eq,
}
use lyraflow.Ingest.Counters.{
  Kind, empty_tally, count_of, bump, Entry, Counters, Event, records, flushes, settles, write_entry,
  record_events, take_pending, begin_flush, step, run,
}
use lyraflow.Ingest.Counters.Changes.{count_of-bump}
use lyraflow.Ingest.Counters.Kept.{settle_cases}

module _ (kind : Kind) where
  -- What an event records of that kind, in any project and month.
  pub counted : Event → ℕ
  counted (records iso q k n) = count_of kind (bump k n empty_tally)
  counted flushes = 0
  counted (settles i ok) = 0

  pub all_counted : List Event → ℕ
  all_counted [] = 0
  all_counted (e ∷ es) = counted e + all_counted es

  totals-write_entry :
      (ok : Bool) (e : Entry) (c : Counters) → (write_entry ok e c).totals ≡ c.totals
  unfolding write_entry
  totals-write_entry true e c = refl
  totals-write_entry false e c = refl

  totals-begin_flush : (c : Counters) → (begin_flush c).totals ≡ c.totals
  unfolding begin_flush
  totals-begin_flush c = elim c.tallies as (λ m. (take_pending m c).totals ≡ c.totals) [
    | [] ↦ refl
    | b ∷ m ↦ refl
  ]

  totals-step :
      (e : Event) (c : Counters)
      → count_of kind (step e c).totals ≡ count_of kind c.totals + counted e
  unfolding step counted record_events
  totals-step (records iso q k n) c = count_of-bump kind k n c.totals
  totals-step flushes c = omega (arith, ap (count_of kind) (totals-begin_flush c))
  totals-step (settles i ok) c =
      settle_cases (λ c'. count_of kind c'.totals ≡ count_of kind c.totals + 0) i ok c (omega arith)
        λ e rest left.
          omega (arith, ap (count_of kind) (totals-write_entry ok e (record c { running = rest })))

  -- Whatever is flushed, and whether a flush succeeds or fails, the totals are the ones before with
  -- all that was recorded since added: a flush never resets them and a retry never adds to them.
  pub totals-run :
      (es : List Event) (c : Counters)
      → count_of kind (run es c).totals ≡ count_of kind c.totals + all_counted es
  unfolding run all_counted
  totals-run [] c = omega arith
  totals-run (e ∷ es) c = omega (arith, totals-run es (step e c), totals-step e c)
