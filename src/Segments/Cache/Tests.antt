-- ===== src/Segments/Cache/Tests.antt =====
-- Runs of packages/server/src/segments/cache.ts at concrete inputs.
use lyraflow.Prelude.{ℕ, ◌≡◌, refl, none, some, List, [], ◌∷◌, arith, nat_eq, string_eq}
use lyraflow.Prelude.Orders.{Units}
use lyraflow.Prelude.Decimal.{tagged, decimal, print, units_beq, units_eq}
use lyraflow.JsMap.{get}
use lyraflow.Segments.Cache.{
  CachedResult, Cache, generation, Call, reads, stores, clears, read, store, clear_project, run,
}
use lyraflow.Segments.Cache.Bounds.{IsBounded, run-IsBounded}
use lyraflow.Segments.Cache.Clears.{read-clear_project}
use lyraflow.Segments.Cache.Fresh.{read-store}

abbrev two_rows : CachedResult ℕ
two_rows = record { count = 2; members = 1 ∷ 2 ∷ []; as_of = [] }

abbrev key_a : Units
key_a = 97 ∷ []

-- Project 1 has a result, and so has project 11.
abbrev held : Cache ℕ
held = record {
  entries =
      (tagged 1 key_a, record { value = two_rows; expires_at = 30000 })
      ∷ (tagged 11 key_a, record { value = two_rows; expires_at = 30000 })
      ∷ [];
  rows = 4;
  generations = [];
}

abbrev late : List (Call ℕ)
late = stores 5 (tagged 1 key_a) two_rows 1 0 ∷ clears 2 ∷ reads 6 (tagged 1 key_a) ∷ []

held-IsBounded : IsBounded held
unfolding get tagged decimal print units_beq
held-IsBounded = (((refl, (refl, tt)), refl), omega arith, omega arith)

run-IsBounded_example : IsBounded (run late held)
run-IsBounded_example = run-IsBounded late held held-IsBounded

read-clear_project_example : (read 7 (tagged 1 key_a) (run late (clear_project 1 held))).0 ≡ none
unfolding generation get
read-clear_project_example =
    read-clear_project 1 7 key_a late held ((key_a, refl, λ same. omega arith), (tt, (tt, tt)))

read-store_example :
    (read 20 (tagged 3 key_a) (store 10 (tagged 3 key_a) two_rows 3 0 held)).0 ≡ some two_rows
unfolding generation get
read-store_example =
    read-store 10 20 (tagged 3 key_a) two_rows 3 0 held held-IsBounded.0 refl (omega arith)
      (omega arith)
