-- ===== src/Segments/Cache/Clears.antt =====
-- packages/server/src/segments/cache.ts: `clearProject`, and results that were computed before it
-- and arrive after it.
use lyraflow.Prelude.{
  ℕ, ◌≤◌, ◌<◌, ◌≡◌, refl, sym, ap, subst, ◌≢◌, inl, inr, false, Option, none, some, List, [], ◌∷◌,
  map, arith, ltb, leb, Bool-cases, Option-cases, get_or_else, length, All, ◌==◌, ==_iff, ==_refl,
  nat_eq, string_eq,
}
use lyraflow.Prelude.Orders.{Units}
use lyraflow.Prelude.Decimal.{tagged, starts_with, units_eq, starts_with-tagged, tagged_inj}
use lyraflow.JsMap.{JsMap, get}
use lyraflow.JsMap.Laws.{get-set, get-delete}
use lyraflow.Segments.Cache.{
  cache_max_rows, CachedResult, Entry, Cache, generation, found, read, evict, store, clear_project,
  Call, reads, stores, clears, step, run,
}
use lyraflow.Segments.Cache.Drops.{
  drop_key-absent, generations-drop_key, evict_loop-absent, generations-evict_loop,
  drop_prefixed-own, drop_prefixed_other, generations-drop_prefixed, drop_prefixed-absent,
}

other_project : (p q : ℕ) (s t : Units) → q ≢ p → (tagged q s == tagged p t) ≡ false
other_project p q s t ne = elim (Bool-cases (tagged q s == tagged p t)) [
  | inl same ↦ elim (ne (tagged_inj q p s t ((==_iff (tagged q s) (tagged p t)).0 same)).0) [ ]
  | inr other ↦ other
]

module _ {A : Type 0} where
  -- What one call cannot do to a project: bring a key of it back, or lower its generation.
  abbrev IsCleared : ℕ → ℕ → Cache A → Type 0
  IsCleared p gen c = ((s : Units) → get (tagged p s) c.entries ≡ none) × (gen < generation p c)

  -- A call that stores a result under a key of its own project, computed, if the project is `p`,
  -- when its generation was at most `gen`.
  abbrev pub IsStale : ℕ → ℕ → Call A → Type 0
  IsStale p gen (reads now key) = Unit
  IsStale p gen (stores now key value q g) = (s : Units) × (key ≡ tagged q s) × (q ≡ p → g ≤ gen)
  IsStale p gen (clears q) = Unit

  other_key :
      (key j : Units) (e : Entry A) (m : JsMap Units (Entry A))
      → get key m ≡ some e
      → get j m ≡ none
      → (key == j) ≡ false
  other_key key j e m there absent = elim (Bool-cases (key == j)) [
    | inl same ↦ cc (there, absent, ap (λ k. get k m) ((==_iff key j).0 same))
    | inr other ↦ other
  ]

  store-IsCleared :
      (p gen now q g : ℕ) (s : Units) (value : CachedResult A) (c : Cache A)
      → (q ≡ p → g ≤ gen)
      → IsCleared p gen c
      → IsCleared p gen (store now (tagged q s) value q g c)
  unfolding store evict generation
  store-IsCleared p gen now q g s value c old (absent, lt) =
      elim (Bool-cases (g == generation q c)) [
        | inl current ↦
            let other : q ≢ p = (λ same. ground (
              arith,
              old same,
              ==_iff g (generation q c),
              ap (λ r. get_or_else (get r c.generations) 0) same,
            )) in
            elim (Bool-cases (ltb cache_max_rows (length value.members))) [
              | inl large ↦
                  rw (current, large, store)
                    (
                      λ t. drop_key-absent (tagged q s) (tagged p t) c (absent t),
                      rw (generations-drop_key (tagged q s) c) lt,
                    )
              | inr small ↦
                  rw (current, small, store)
                    (
                      λ t. evict_loop-absent _ (tagged p t) _ (
                          rw (get-set, other_project p q s t other)
                            (drop_key-absent (tagged q s) (tagged p t) c (absent t))),
                      rw (generations-evict_loop, generations-drop_key) lt,
                    )
            ]
        | inr stale ↦ rw (stale, store) (absent, lt)
      ]

  read-IsCleared :
      (p gen now : ℕ) (key : Units) (c : Cache A)
      → IsCleared p gen c
      → IsCleared p gen (read now key c).1
  unfolding read generation
  read-IsCleared p gen now key c (absent, lt) = elim (Option-cases (get key c.entries)) [
    | inl h ↦ rw (h, read) (absent, lt)
    | inr (hit, h) ↦ elim (Bool-cases (leb hit.expires_at now)) [
      | inl expired ↦
          rw (h, expired, read)
            (λ s. drop_key-absent key (tagged p s) c (absent s), rw generations-drop_key lt)
      | inr live ↦
          rw (h, live, read)
            (
              λ s.
                  rw (get-set, get-delete)
                    (ground
                      (arith, other_key key (tagged p s) hit c.entries h (absent s), absent s)),
              lt,
            )
    ]
  ]

  clear_project-own :
      (p gen : ℕ) (c : Cache A) → gen ≤ generation p c → IsCleared p gen (clear_project p c)
  unfolding clear_project generation
  clear_project-own p gen c le = (
    λ s.
        drop_prefixed-own (tagged p []) (tagged p s) c.entries _ ((starts_with-tagged p p s).1 refl)
          (λ h. h),
    rw (generations-drop_prefixed, get-set) (ground (arith, ==_refl p)),
  )

  clear_project-IsCleared :
      (p gen q : ℕ) (c : Cache A) → IsCleared p gen c → IsCleared p gen (clear_project q c)
  unfolding clear_project generation
  clear_project-IsCleared p gen q c (absent, lt) = (
    λ s. drop_prefixed-absent (tagged q []) (tagged p s) _ _ (absent s),
    rw (generations-drop_prefixed, get-set)
        (ground (arith, ==_iff q p, ap (λ r. get_or_else (get r c.generations) 0))),
  )

  step-IsCleared :
      (p gen : ℕ) (call : Call A) (c : Cache A)
      → IsStale p gen call
      → IsCleared p gen c
      → IsCleared p gen (step call c)
  unfolding step
  step-IsCleared p gen (reads now key) c stale h = read-IsCleared p gen now key c h
  step-IsCleared p gen (stores now key value q g) c (s, own, old) h =
      subst (λ k. IsCleared p gen (store now k value q g c)) (sym own)
        (store-IsCleared p gen now q g s value c old h)
  step-IsCleared p gen (clears q) c stale h = clear_project-IsCleared p gen q c h

  run-IsCleared :
      (p gen : ℕ) (calls : List (Call A)) (c : Cache A)
      → All (IsStale p gen) calls
      → IsCleared p gen c
      → IsCleared p gen (run calls c)
  unfolding run
  run-IsCleared p gen [] c stale h = h
  run-IsCleared p gen (call ∷ calls) c (now_stale, stale) h =
      run-IsCleared p gen calls (step call c) stale (step-IsCleared p gen call c now_stale h)

  -- Once a project is cleared, no key of it can be read again, whatever is read, cleared or stored
  -- since, as long as every result that is stored stands under a key of its own project and was
  -- computed, if it is of the project, at a generation read before it was cleared.
  pub read-clear_project :
      (p now : ℕ) (s : Units) (calls : List (Call A)) (c : Cache A)
      → All (IsStale p (generation p c)) calls
      → (read now (tagged p s) (run calls (clear_project p c))).0 ≡ none
  unfolding read
  read-clear_project p now s calls c stale =
      let (absent, lt) =
        run-IsCleared p (generation p c) calls (clear_project p c) stale
          (clear_project-own p (generation p c) c (omega arith)) in
      rw (absent s) refl

  found_value :
      (now : ℕ) (key : Units) (o : Option (Entry A)) (c d : Cache A)
      → (found now key o c).0 ≡ (found now key o d).0
  found_value now key none c d = refl
  found_value now key (some hit) c d = elim (Bool-cases (leb hit.expires_at now)) [
    | inl expired ↦ rw expired refl
    | inr live ↦ rw live refl
  ]

  -- Clearing a project leaves what is read under the keys of every other project.
  pub read-clear_project_other :
      (p q now : ℕ) (s : Units) (c : Cache A)
      → q ≢ p
      → (read now (tagged q s) (clear_project p c)).0 ≡ (read now (tagged q s) c).0
  unfolding clear_project read
  read-clear_project_other p q now s c ne =
      rw (drop_prefixed_other (tagged p []) (tagged q s) (map (λ b. b.0) c.entries) _ other)
        (found_value now (tagged q s) (get (tagged q s) c.entries) _ c)
    where
      other : starts_with (tagged p []) (tagged q s) ≡ false
      other = elim (Bool-cases (starts_with (tagged p []) (tagged q s))) [
        | inl same ↦ elim (ne (sym ((starts_with-tagged p q s).0 same))) [ ]
        | inr apart ↦ apart
      ]
