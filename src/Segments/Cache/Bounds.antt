-- ===== src/Segments/Cache/Bounds.antt =====
-- packages/server/src/segments/cache.ts: its bounds on entries and on member rows.
use lyraflow.Prelude.{
  ℕ, zero, suc, ◌+◌, ◌-◌, ◌≤◌, ◌<◌, ◌≡◌, ap, subst, inl, inr, none, some, List, [], ◌∷◌, arith, ltb,
  leb, if◌then◌else◌, Bool-cases, Option-cases, length, length-append, ◌==◌, ==_iff, ==_refl,
  nat_eq, string_eq,
}
use lyraflow.Prelude.Orders.{Units}
use lyraflow.Prelude.Decimal.{starts_with, units_eq}
use lyraflow.JsMap.{get, set, delete, first_key}
use lyraflow.JsMap.Laws.{
  get-delete, length-delete-le, length-delete-lt, first_key-get, first_key-none,
}
use lyraflow.JsMap.Unique.{IsUnique, set-IsUnique, delete-IsUnique}
use lyraflow.JsMap.Weights.{weight, weight_empty, weight-append, weight-delete, set_absent}
use lyraflow.Segments.Cache.{
  cache_max_entries, cache_max_rows, cache_ttl_ms, CachedResult, Entry, Cache, members_of,
  generation, drop_key, read, is_over, evict_loop, evict, insert, store, drop_prefixed,
  clear_project, Call, reads, stores, clears, step, run,
}

module _ {A : Type 0} where
  -- The keys differ, and `rows` is the number of member rows held.
  abbrev pub IsSound : Cache A → Type 0
  IsSound c = IsUnique c.entries × (c.rows ≡ weight members_of c.entries)

  abbrev pub IsBounded : Cache A → Type 0
  IsBounded c = IsSound c × (length c.entries ≤ cache_max_entries) × (c.rows ≤ cache_max_rows)

  pub drop_cases {ℓ} :
      (P : Cache A → Type ℓ) (key : Units) (c : Cache A)
      → (get key c.entries ≡ none → P c)
      → ((e : Entry A)
          → get key c.entries ≡ some e
          → P (record c { rows = c.rows - members_of e; entries = delete key c.entries }))
      → P (drop_key key c)
  unfolding drop_key
  drop_cases P key c absent present = elim (Option-cases (get key c.entries)) [
    | inl h ↦ rw (h, drop_key) (absent h)
    | inr (e, h) ↦ rw (h, drop_key) (present e h)
  ]

  pub drop_key-IsSound : (key : Units) (c : Cache A) → IsSound c → IsSound (drop_key key c)
  drop_key-IsSound key c (u, rows) =
      drop_cases IsSound key c (λ h. (u, rows))
        λ e h. (
          delete-IsUnique key c.entries u,
          omega (arith, weight-delete members_of key e c.entries u h),
        )

  drop_key-IsBounded : (key : Units) (c : Cache A) → IsBounded c → IsBounded (drop_key key c)
  drop_key-IsBounded key c (s, n, r) =
      drop_cases IsBounded key c (λ h. (s, n, r))
        λ e h. (
          (
            delete-IsUnique key c.entries s.0,
            omega (arith, s.1, weight-delete members_of key e c.entries s.0 h),
          ),
          omega (arith, length-delete-le key c.entries),
          omega arith,
        )

  length-drop_first :
      (k : Units) (c : Cache A)
      → first_key c.entries ≡ some k
      → length (drop_key k c).entries < length c.entries
  length-drop_first k c h =
      drop_cases (λ c'. length c'.entries < length c.entries) k c
        (λ none_there. there_is (first_key-get c.entries k h) none_there)
        (λ e there. length-delete-lt k c.entries e there)
    where
      there_is :
          (e : Entry A) × (get k c.entries ≡ some e)
          → get k c.entries ≡ none
          → length c.entries < length c.entries
      there_is (e, present) absent = cc

  evict_loop-IsBounded :
      (fuel : ℕ) (c : Cache A) → length c.entries ≤ fuel → IsSound c → IsBounded (evict_loop fuel c)
  unfolding evict_loop
  evict_loop-IsBounded zero c le s =
      (s, omega arith, omega (arith, s.1, weight_empty members_of c.entries le))
  evict_loop-IsBounded (suc fuel) c le s = elim (Bool-cases (is_over c)) [
    | inl over ↦ elim (Option-cases (first_key c.entries)) [
      | inl gone ↦
          rw (over, gone, evict_loop)
            (
              s,
              omega (arith, ap length (first_key-none c.entries gone)),
              omega (arith, s.1, ap (weight members_of) (first_key-none c.entries gone)),
            )
      | inr (k, first) ↦
          rw (over, first, evict_loop)
            (evict_loop-IsBounded fuel (drop_key k c) (omega (arith, length-drop_first k c first))
              (drop_key-IsSound k c s))
    ]
    | inr fits ↦ rw (fits, evict_loop) (s, ground arith, ground arith)
  ]

  pub get-drop_key :
      (key j : Units) (c : Cache A)
      → get j (drop_key key c).entries ≡ (if key == j then none else get j c.entries)
  get-drop_key key j c =
      drop_cases (λ c'. get j c'.entries ≡ (if key == j then none else get j c.entries)) key c
        (λ absent. ground (arith, ==_iff key j, absent)) (λ e there. get-delete key j c.entries)

  -- A hit moves its entry to the end.
  touch-IsBounded :
      (key : Units) (hit : Entry A) (c : Cache A)
      → IsBounded c
      → get key c.entries ≡ some hit
      → IsBounded (record c { entries = set key hit (delete key c.entries) })
  touch-IsBounded key hit c ((u, rows), n, r) h =
      rw (set_absent key hit (delete key c.entries) (rw get-delete (ground (arith, ==_refl key)))) (
        (
          subst IsUnique
              (set_absent key hit (delete key c.entries)
                (rw get-delete (ground (arith, ==_refl key))))
              (set-IsUnique key hit _ (delete-IsUnique key c.entries u)),
          omega (
            arith,
            rows,
            weight-append members_of (delete key c.entries) ((key, hit) ∷ []),
            weight-delete members_of key hit c.entries u h,
          ),
        ),
        omega (
          arith,
          length-append (delete key c.entries) ((key, hit) ∷ []),
          length-delete-lt key c.entries hit h,
        ),
        omega arith,
      )

  pub insert-IsSound :
      (now : ℕ) (key : Units) (value : CachedResult A) (c : Cache A)
      → get key c.entries ≡ none
      → IsSound c
      → IsSound (insert now key value c)
  insert-IsSound now key value c absent (u, rows) = (
    set-IsUnique key _ c.entries u,
    rw (set_absent key (record { value = value; expires_at = now + cache_ttl_ms }) c.entries absent)
        (omega (
          arith,
          weight-append members_of c.entries
              ((key, record { value = value; expires_at = now + cache_ttl_ms }) ∷ []),
        )),
  )

  store-IsBounded :
      (now : ℕ) (key : Units) (value : CachedResult A) (project_id gen : ℕ) (c : Cache A)
      → IsBounded c
      → IsBounded (store now key value project_id gen c)
  unfolding store evict
  store-IsBounded now key value project_id gen c b =
      elim (Bool-cases (gen == generation project_id c)) [
        | inl current ↦ elim (Bool-cases (ltb cache_max_rows (length value.members))) [
          | inl large ↦ rw (current, large) (drop_key-IsBounded key c b)
          | inr small ↦
              rw (current, small)
                (evict_loop-IsBounded _ _ (omega arith) (
                  insert-IsSound now key value (drop_key key c)
                    (rw get-drop_key (ground (arith, ==_refl key))) (drop_key-IsSound key c b.0)))
        ]
        | inr stale ↦ rw (stale) b
      ]

  read-IsBounded :
      (now : ℕ) (key : Units) (c : Cache A) → IsBounded c → IsBounded (read now key c).1
  unfolding read
  read-IsBounded now key c b = elim (Option-cases (get key c.entries)) [
    | inl h ↦ rw (h, read) b
    | inr (hit, h) ↦ elim (Bool-cases (leb hit.expires_at now)) [
      | inl expired ↦ rw (h, expired, read) (drop_key-IsBounded key c b)
      | inr live ↦ rw (h, live, read) (touch-IsBounded key hit c b h)
    ]
  ]

  drop_prefixed-IsBounded :
      (prefix : Units) (keys : List Units) (c : Cache A)
      → IsBounded c
      → IsBounded (drop_prefixed prefix keys c)
  unfolding drop_prefixed
  drop_prefixed-IsBounded prefix [] c b = b
  drop_prefixed-IsBounded prefix (key ∷ keys) c b = elim (Bool-cases (starts_with prefix key)) [
    | inl own ↦
        rw (own, drop_prefixed)
          (drop_prefixed-IsBounded prefix keys (drop_key key c) (drop_key-IsBounded key c b))
    | inr other ↦ rw (other, drop_prefixed) (drop_prefixed-IsBounded prefix keys c b)
  ]

  step-IsBounded : (call : Call A) (c : Cache A) → IsBounded c → IsBounded (step call c)
  unfolding step clear_project
  step-IsBounded (reads now key) c b = read-IsBounded now key c b
  step-IsBounded (stores now key value p gen) c b = store-IsBounded now key value p gen c b
  step-IsBounded (clears p) c b = drop_prefixed-IsBounded _ _ _ b

  -- Every run of calls keeps the keys distinct, `rows` equal to the member rows that the entries
  -- hold, at most 200 entries and at most 50,000 rows, from a cache where that holds.
  pub run-IsBounded : (calls : List (Call A)) (c : Cache A) → IsBounded c → IsBounded (run calls c)
  unfolding run
  run-IsBounded [] c b = b
  run-IsBounded (call ∷ calls) c b = run-IsBounded calls (step call c) (step-IsBounded call c b)
