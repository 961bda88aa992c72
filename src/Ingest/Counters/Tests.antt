-- ===== src/Ingest/Counters/Tests.antt =====
-- Runs of packages/server/src/ingest/counters.ts at concrete inputs.
use lyraflow.Prelude.{◌+◌, ◌≡◌, refl, true, false, List, [], ◌∷◌, nat_eq, string_eq}
use lyraflow.Prelude.Orders.{Units}
use lyraflow.Prelude.Decimal.{units_beq}
use lyraflow.Ingest.Counters.{
  accepted, Event, records, flushes, settles, started, run, current_month,
}
use lyraflow.Ingest.Counters.Kept.{held, all_recorded, held-run, recorded}

-- 2026-08-31 and 2026-09-01.
abbrev august : Units
august = 50 ∷ 48 ∷ 50 ∷ 54 ∷ 45 ∷ 48 ∷ 56 ∷ 45 ∷ 51 ∷ 49 ∷ []

abbrev september : Units
september = 50 ∷ 48 ∷ 50 ∷ 54 ∷ 45 ∷ 48 ∷ 57 ∷ 45 ∷ 48 ∷ 49 ∷ []

-- A flush whose first statement fails while more is recorded, and whose second succeeds.
abbrev history : List Event
history =
    records august 7 accepted 3
    ∷ records september 7 accepted 2
    ∷ flushes
    ∷ records august 7 accepted 5
    ∷ settles 0 false
    ∷ settles 0 true
    ∷ flushes
    ∷ []

held-run_example :
    held accepted 7 (current_month august) (run history (started []))
    ≡ held accepted 7 (current_month august) (started [])
      + all_recorded accepted 7 (current_month august) history
held-run_example = held-run accepted 7 (current_month august) history (started []) (tt, tt)

august_held : all_recorded accepted 7 (current_month august) history ≡ 8
unfolding all_recorded recorded current_month units_beq
august_held = refl
