-- ===== src/Ingest/Quota/Tests.antt =====
-- Decisions of packages/server/src/ingest/quota.ts at concrete inputs.
use lyraflow.Prelude.{◌+◌, ◌≡◌, refl, true, false, some, List, [], ◌∷◌, leb, nat_eq, string_eq}
use lyraflow.Prelude.Orders.{Units}
use lyraflow.Prelude.Decimal.{tagged, decimal, print, units_beq}
use lyraflow.JsMap.{get, set}
use lyraflow.Ingest.Quota.{not_a_number, finite, refused, returned, as_count, decide, is_over_quota}
use lyraflow.Ingest.Counters.{
  accepted, records, flushes, settles, step, record_events, begin_flush, settle, advance,
  write_entry, change, fresh, started, Event, run, look, persisted_accepted, pending_accepted,
  current_month,
}
use lyraflow.Ingest.Counters.Kept.{weigh, all_recorded, in_flight}
use lyraflow.Ingest.Quota.Decision.{is_over_quota-run}

-- The fields of `persisted` on a row that is missing: `NaN`.
nan_refused : is_over_quota not_a_number (finite false 3) (some (finite false 5)) ≡ refused
unfolding is_over_quota decide as_count
nan_refused = refl

abbrev july : Units
july = 50 ∷ 48 ∷ 50 ∷ 54 ∷ 45 ∷ 48 ∷ 55 ∷ 45 ∷ 49 ∷ 49 ∷ []

abbrev busy_month : List Event
busy_month = records july 7 accepted 3 ∷ flushes ∷ settles 0 true ∷ records july 7 accepted 2 ∷ []

is_over_quota-run_example :
    is_over_quota
      (finite false (persisted_accepted july 7 (run busy_month (started []))))
      (finite false (pending_accepted july 7 (run busy_month (started []))))
      (some (finite false 5))
    ≡ returned (
        leb 5 (
          look accepted 7 (current_month july) []
          + all_recorded accepted 7 (current_month july) busy_month))
unfolding in_flight run step record_events begin_flush settle advance write_entry change fresh weigh
    get set tagged decimal print current_month units_beq
is_over_quota-run_example = is_over_quota-run july 7 4 [] busy_month refl
