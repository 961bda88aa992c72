-- ===== src/Auth/RateLimit/Evict.antt =====
-- `#evict` of packages/server/src/auth/rate-limit.ts: what it keeps and how far it shrinks a map.
use lyraflow.Prelude.{
  ℕ, zero, suc, ◌+◌, ◌≤◌, ◌<◌, max, String, ◌≡◌, refl, ◌≢◌, inl, inr, none, some, List, [], ◌∷◌,
  arith, ltb, Bool-cases, Option-cases, get_or_else, length, All, ==_iff, nat_eq, string_eq,
}
use lyraflow.JsMap.{get, delete}
use lyraflow.JsMap.Laws.{get-delete, length-delete-lt}
use lyraflow.JsMap.Unique.{IsUnique, delete-IsUnique, length-le-one}
use lyraflow.Auth.RateLimit.{
  Config, Namespace, recent, first_under, first_other, victim, evict_loop, evict,
}

-- The key's attempts inside the window.
abbrev pub attempts : Config → ℕ → String → Namespace → ℕ
attempts c now key ns = length (recent c now (get_or_else (get key ns) []))

module _ (c : Config) (now : ℕ) (just : String) where
  first_under_ne : (ns : Namespace) (k : String) → first_under c now just ns ≡ some k → k ≢ just
  unfolding first_under
  first_under_ne [] k h = cc
  first_under_ne ((j, times) ∷ ns) k h = ground (arith, ==_iff j just, first_under_ne ns k)

  first_under_present :
      (ns : Namespace) (k : String) → first_under c now just ns ≡ some k → get k ns ≢ none
  unfolding first_under get
  first_under_present [] k h = cc
  first_under_present ((j, times) ∷ ns) k h = ground (arith, ==_iff j k, first_under_present ns k)

  first_under_sound :
      (ns : Namespace) (k : String)
      → IsUnique ns
      → first_under c now just ns ≡ some k
      → attempts c now k ns < c.max_attempts
  unfolding first_under get
  first_under_sound [] k u h = cc
  first_under_sound ((j, times) ∷ ns) k u h =
      ground (arith, ==_iff j k, first_under_sound ns k u.1, first_under_present ns k)

  first_under_complete :
      (ns : Namespace) (j : String) (times : List ℕ)
      → first_under c now just ns ≡ none
      → j ≢ just
      → get j ns ≡ some times
      → c.max_attempts ≤ length (recent c now times)
  unfolding first_under get
  first_under_complete [] j times e ne h = cc
  first_under_complete ((i, ts) ∷ ns) j times e ne h =
      ground (arith, ==_iff i j, ==_iff i just, first_under_complete ns j times)

  first_other_ne : (ns : Namespace) (k : String) → first_other just ns ≡ some k → k ≢ just
  unfolding first_other
  first_other_ne [] k h = cc
  first_other_ne ((j, times) ∷ ns) k h = ground (arith, ==_iff j just, first_other_ne ns k)

  first_other-none : (ns : Namespace) → first_other just ns ≡ none → All (λ b. b.0 ≡ just) ns
  unfolding first_other
  first_other-none [] h = tt
  first_other-none ((j, times) ∷ ns) h = ground (arith, ==_iff j just, first_other-none ns)

  first_other_present :
      (ns : Namespace) (k : String) → first_other just ns ≡ some k → get k ns ≢ none
  unfolding first_other get
  first_other_present [] k h = cc
  first_other_present ((j, times) ∷ ns) k h = ground (arith, ==_iff j k, first_other_present ns k)

  victim_ne : (ns : Namespace) (k : String) → victim c now just ns ≡ some k → k ≢ just
  unfolding victim
  victim_ne ns k h = ground (arith, first_under_ne ns k, first_other_ne ns k)

  victim_present : (ns : Namespace) (k : String) → victim c now just ns ≡ some k → get k ns ≢ none
  unfolding victim
  victim_present ns k h = ground (arith, first_under_present ns k, first_other_present ns k)

  victim-none : (ns : Namespace) → victim c now just ns ≡ none → All (λ b. b.0 ≡ just) ns
  unfolding victim
  victim-none ns h = ground (arith, first_other-none ns)

  -- While an entry that is under the limit can go, the one that goes is under the limit.
  victim_under :
      (ns : Namespace) (k j : String) (times : List ℕ)
      → IsUnique ns
      → victim c now just ns ≡ some k
      → j ≢ just
      → get j ns ≡ some times
      → length (recent c now times) < c.max_attempts
      → attempts c now k ns < c.max_attempts
  unfolding victim
  victim_under ns k j times u h ne present under =
      ground (arith, first_under_sound ns k u, first_under_complete ns j times)

  -- What a deletion of a victim keeps, the loop keeps.
  evict_loop_inv {ℓ} :
      (P : Namespace → Type ℓ)
      → ((ns : Namespace) (k : String) → victim c now just ns ≡ some k → P ns → P (delete k ns))
      → (fuel : ℕ) (ns : Namespace) → P ns
      → P (evict_loop fuel c now just ns)
  unfolding evict_loop
  evict_loop_inv P keep zero ns h = h
  evict_loop_inv P keep (suc fuel) ns h = elim (Bool-cases (ltb c.max_keys (length ns))) [
    | inr fits ↦ rw (fits, evict_loop) h
    | inl over ↦ elim (Option-cases (victim c now just ns)) [
      | inl stuck ↦ rw (over, stuck, evict_loop) h
      | inr (k, gone) ↦
          rw (over, gone, evict_loop) (evict_loop_inv P keep fuel (delete k ns) (keep ns k gone h))
    ]
  ]

  -- One round, at its three ends.
  evict_loop_cases {ℓ} :
      (P : Namespace → Type ℓ) (fuel : ℕ) (ns : Namespace)
      → P ns
      → ((f : ℕ) (k : String)
          → victim c now just ns ≡ some k
          → P (evict_loop f c now just (delete k ns)))
      → P (evict_loop fuel c now just ns)
  unfolding evict_loop
  evict_loop_cases P zero ns h step = h
  evict_loop_cases P (suc fuel) ns h step = elim (Bool-cases (ltb c.max_keys (length ns))) [
    | inr fits ↦ rw (fits, evict_loop) h
    | inl over ↦ elim (Option-cases (victim c now just ns)) [
      | inl stuck ↦ rw (over, stuck, evict_loop) h
      | inr (k, gone) ↦ rw (over, gone, evict_loop) (step fuel k gone)
    ]
  ]

  -- With enough fuel the map ends within its cap; the key just recorded alone may stay.
  length-evict_loop :
      (fuel : ℕ) (ns : Namespace)
      → IsUnique ns
      → length ns ≤ fuel
      → length (evict_loop fuel c now just ns) ≤ max 1 c.max_keys
  unfolding evict_loop
  length-evict_loop zero ns u h = omega arith
  length-evict_loop (suc fuel) ns u h = elim (Bool-cases (ltb c.max_keys (length ns))) [
    | inr fits ↦ rw (fits, evict_loop) (ground arith)
    | inl over ↦ elim (Option-cases (victim c now just ns)) [
      | inl stuck ↦
          rw (over, stuck, evict_loop)
            (omega (arith, length-le-one just ns (victim-none ns stuck) u))
      | inr (k, gone) ↦
          rw (over, gone, evict_loop)
            (length-evict_loop fuel (delete k ns) (delete-IsUnique k ns u) (shorter k gone))
    ]
  ]
    where
      shorter : (k : String) → victim c now just ns ≡ some k → length (delete k ns) ≤ fuel
      shorter k gone = elim (Option-cases (get k ns)) [
        | inl absent ↦ absurd (victim_present ns k gone absent)
        | inr (times, present) ↦ omega (arith, length-delete-lt k ns times present)
      ]

  -- The key just recorded is never its own victim.
  pub get-evict_just : (ns : Namespace) → get just (evict c now just ns) ≡ get just ns
  unfolding evict
  get-evict_just ns =
      evict_loop_inv (λ m. get just m ≡ get just ns)
        (λ m k gone h. ground (arith, get-delete k just m, ==_iff k just, victim_ne m k gone))
        (length ns) ns refl

  pub evict-IsUnique : (ns : Namespace) → IsUnique ns → IsUnique (evict c now just ns)
  unfolding evict
  evict-IsUnique ns u =
      evict_loop_inv IsUnique (λ m k gone h. delete-IsUnique k m h) (length ns) ns u

  pub length-evict :
      (ns : Namespace) → IsUnique ns → length (evict c now just ns) ≤ max 1 c.max_keys
  unfolding evict
  length-evict ns u = length-evict_loop (length ns) ns u (omega arith)

  settled :
      (fuel : ℕ) (ns : Namespace) → length ns ≤ c.max_keys → evict_loop fuel c now just ns ≡ ns
  unfolding evict_loop
  settled zero ns h = refl
  settled (suc fuel) ns h = ground arith

  -- From a map that is one entry over its cap a blocked entry stays while another entry can go.
  pub get-evict_blocked :
      (ns : Namespace) (k j : String) (times : List ℕ)
      → IsUnique ns
      → length ns ≤ c.max_keys + 1
      → c.max_attempts ≤ attempts c now k ns
      → j ≢ just
      → get j ns ≡ some times
      → length (recent c now times) < c.max_attempts
      → get k (evict c now just ns) ≡ get k ns
  unfolding evict
  get-evict_blocked ns k j times u size blocked ne present under =
      evict_loop_cases (λ m. get k m ≡ get k ns) (length ns) ns refl after
    where
      after :
          (fuel : ℕ) (v : String)
          → victim c now just ns ≡ some v
          → get k (evict_loop fuel c now just (delete v ns)) ≡ get k ns
      after fuel v gone = elim (Option-cases (get v ns)) [
        | inl absent ↦ absurd (victim_present ns v gone absent)
        | inr (ts, held) ↦
            rw (settled fuel (delete v ns) (omega (arith, length-delete-lt v ns ts held))) (
              ground (
                arith,
                get-delete v k ns,
                ==_iff v k,
                victim_under ns v j times u gone ne present under,
              ))
      ]
