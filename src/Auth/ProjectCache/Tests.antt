-- ===== src/Auth/ProjectCache/Tests.antt =====
-- Runs of packages/server/src/auth/project-cache.ts at concrete inputs.
use lyraflow.Prelude.{
  ◌≡◌, refl, ap, ◌≢◌, inl, inr, none, some, List, [], ◌∷◌, arith, get_or, nat_eq, string_eq,
}
use lyraflow.Prelude.Decimal.{units_beq, units_eq}
use lyraflow.JsMap.{get}
use lyraflow.Auth.ProjectCache.{
  Project, Entry, Config, ProjectCache, Credential, by_write_key, cache_key, answered, failed,
  returned, lookup, Event, begins, ends, run,
}
use lyraflow.Auth.ProjectCache.Bounds.{IsCapped, run-IsCapped}
use lyraflow.Auth.ProjectCache.Scan.{get-run_scan}
use lyraflow.Auth.ProjectCache.Answers.{lookup_failed}

abbrev shop : Project
shop = record {
  id = 7;
  slug = [];
  retention_months = 12;
  monthly_event_quota = none;
  disabled_at = none;
  deleting_at = none;
  server_key_hash = [];
}

abbrev minute : Config
minute = record { ttl_ms = 60000; negative_ttl_ms = 10000 }

abbrev good : Credential
good = by_write_key (103 ∷ [])

abbrev bad : Credential
bad = by_write_key (98 ∷ [])

abbrev shop_entry : Entry
shop_entry = record { value = some shop; fetched_at = 100 }

abbrev warm : ProjectCache
warm = record {
  positive = (119 ∷ 58 ∷ 103 ∷ [], shop_entry) ∷ [];
  negative = [];
  queries = 1;
  waiting = [];
}

abbrev scan : List Event
scan = begins 200 bad ∷ ends 210 0 (answered none) ∷ begins 220 bad ∷ ends 230 0 failed ∷ []

bad_ne : cache_key bad ≢ 119 ∷ 58 ∷ 103 ∷ []
unfolding cache_key
bad_ne h = omega (arith, ap (λ s. get_or s 2 0) h)

get-run_scan_example : get (119 ∷ 58 ∷ 103 ∷ []) (run minute scan warm).positive ≡ some shop_entry
unfolding get units_beq
get-run_scan_example =
    get-run_scan minute scan (119 ∷ 58 ∷ 103 ∷ []) shop_entry warm refl tt
      (bad_ne, (inl refl, (bad_ne, (inr refl, tt))))

run-IsCapped_example : IsCapped (run minute scan warm)
run-IsCapped_example = run-IsCapped minute scan warm (((refl, tt), omega arith), (tt, omega arith))

lookup_failed_example : (lookup minute 900000 900010 good failed warm).0 ≡ returned (some shop)
unfolding get units_beq cache_key
lookup_failed_example = lookup_failed minute 900000 900010 good shop_entry warm refl
