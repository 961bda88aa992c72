-- ===== src/Segments/Cache/Fresh.antt =====
-- packages/server/src/segments/cache.ts: a `get` after a `set`.
use lyraflow.Prelude.{
  ℕ, zero, suc, ◌+◌, ◌≤◌, ◌<◌, ◌≡◌, refl, ap, ◌∙◌, subst, ◌≢◌, inl, inr, true, false, none, some,
  [], ◌∷◌, ◌++◌, arith, ltb, leb, Bool-cases, length, ==_iff, ==_refl, ==_cases, nat_eq, string_eq,
}
use lyraflow.Prelude.Orders.{Units}
use lyraflow.Prelude.Decimal.{units_eq}
use lyraflow.JsMap.{JsMap, get, delete, first_key}
use lyraflow.JsMap.Unique.{IsUnique}
use lyraflow.JsMap.Weights.{weight, set_absent, delete_first}
use lyraflow.Segments.Cache.{
  cache_max_rows, cache_ttl_ms, CachedResult, Entry, Cache, members_of, generation, drop_key, read,
  is_over, evict_loop, evict, insert, store,
}
use lyraflow.Segments.Cache.Bounds.{
  drop_cases, IsSound, drop_key-IsSound, insert-IsSound, get-drop_key,
}

module _ {A : Type 0} where
  get-last :
      (key : Units) (e : Entry A) (m : JsMap Units (Entry A))
      → IsUnique (m ++ (key, e) ∷ [])
      → get key (m ++ (key, e) ∷ []) ≡ some e
  unfolding get
  get-last key e [] u = rw (==_refl key) refl
  get-last key e ((k, x) ∷ m) (new, u) = elim (==_cases k key) [
    | inl same ↦ cc (new, get-last key e m u, same)
    | inr other ↦ ground (arith, ==_iff k key, get-last key e m u)
  ]

  drop_key-first :
      (k : Units) (x : Entry A) (m : JsMap Units (Entry A)) (c : Cache A)
      → c.entries ≡ (k, x) ∷ m
      → IsUnique c.entries
      → (drop_key k c).entries ≡ m
  unfolding get
  drop_key-first k x m c h u =
      drop_cases (λ c'. c'.entries ≡ m) k c (λ absent. elim (first absent) [ ])
        (λ e there. ap (delete k) h ∙ delete_first k x m (subst IsUnique h u))
    where
      first : get k c.entries ≢ none
      first absent = ground (arith, ==_refl k, h, absent, ap (get k) h)

  -- The newest entry survives an eviction, if its rows alone fit.
  evict_loop-newest :
      (fuel : ℕ) (key : Units) (e : Entry A) (m : JsMap Units (Entry A)) (c : Cache A)
      → c.entries ≡ m ++ (key, e) ∷ []
      → IsSound c
      → members_of e ≤ cache_max_rows
      → get key (evict_loop fuel c).entries ≡ some e
  unfolding evict_loop first_key
  evict_loop-newest zero key e m c at_end (u, rows) fits =
      rw at_end (get-last key e m (subst IsUnique at_end u))
  evict_loop-newest (suc fuel) key e m c at_end (u, rows) fits = elim (Bool-cases (is_over c)) [
    | inl over ↦ shrink (λ n d same s. evict_loop-newest fuel key e n d same s fits) m at_end over
    | inr small ↦ rw (small, evict_loop) (rw at_end (get-last key e m (subst IsUnique at_end u)))
  ]
    where
      shrink :
          ((n : JsMap Units (Entry A)) (d : Cache A)
            → d.entries ≡ n ++ (key, e) ∷ []
            → IsSound d
            → get key (evict_loop fuel d).entries ≡ some e)
          → (n : JsMap Units (Entry A)) → c.entries ≡ n ++ (key, e) ∷ []
          → is_over c ≡ true
          → get key (evict_loop (suc fuel) c).entries ≡ some e
      shrink smaller [] same over =
          ground (arith, ap length same, ap (weight members_of) same, rows)
      shrink smaller ((k, x) ∷ n) same over =
          let oldest : first_key c.entries ≡ some k = ap first_key same in
          rw (over, oldest, evict_loop)
            (smaller n (drop_key k c) (drop_key-first k x _ c same u)
              (drop_key-IsSound k c (u, rows)))

  -- What is stored at the current generation, with no more rows than the cache may hold, is what a
  -- read of its key returns until it expires, whatever had to be evicted, from a cache whose keys
  -- differ and whose row count is right.
  pub read-store :
      (now later : ℕ) (key : Units) (value : CachedResult A) (p gen : ℕ) (c : Cache A)
      → IsSound c
      → gen ≡ generation p c
      → length value.members ≤ cache_max_rows
      → later < now + cache_ttl_ms
      → (read later key (store now key value p gen c)).0 ≡ some value
  unfolding read store evict
  read-store now later key value p gen c s current fits soon =
      rw ((==_iff gen (generation p c)).1 current, small) (rw kept (rw not_expired refl))
    where
      added : Entry A
      added = record { value = value; expires_at = now + cache_ttl_ms }

      gone : get key (drop_key key c).entries ≡ none
      gone = rw get-drop_key (ground (arith, ==_refl key))

      kept : get key (evict (insert now key value (drop_key key c))).entries ≡ some added
      kept =
          evict_loop-newest _ key added (drop_key key c).entries _
            (set_absent key added (drop_key key c).entries gone)
            (insert-IsSound now key value (drop_key key c) gone (drop_key-IsSound key c s)) fits

      not_expired : leb (now + cache_ttl_ms) later ≡ false
      not_expired = ground arith

      small : ltb cache_max_rows (length value.members) ≡ false
      small = ground arith
