-- ===== src/Auth/ProjectCache/Answers.antt =====
-- packages/server/src/auth/project-cache.ts: what a lookup answers while an entry is held, and while
-- Postgres fails.
use lyraflow.Prelude.{
  ℕ, ◌+◌, ◌<◌, ◌≡◌, ap, inl, inr, Option, none, some, List, arith, if◌then◌else◌, Bool-cases,
  is_some, get_or, drop, ==_refl, nat_eq, string_eq,
}
use lyraflow.Prelude.Orders.{Units}
use lyraflow.Prelude.Decimal.{units_eq, decimal_inj}
use lyraflow.JsMap.{get}
use lyraflow.JsMap.Laws.{get-set, get-delete}
use lyraflow.Auth.ProjectCache.{
  Project, Entry, Config, negative_ttl, Hit, ProjectCache, Credential, by_write_key, by_server_key,
  by_id, cache_key, hit_of, read, put, store, serve, begin_lookup, failed, returned, finish, lookup,
}

-- No two credentials share an entry.
pub cache_key_inj : (a b : Credential) → cache_key a ≡ cache_key b → a ≡ b
unfolding cache_key
cache_key_inj (by_write_key k) (by_write_key l) h = cc
cache_key_inj (by_server_key k) (by_server_key l) h = cc
cache_key_inj (by_id m) (by_id n) h = ap by_id (decimal_inj m n (ap (drop 2) h))
cache_key_inj (by_write_key k) (by_server_key l) h = ground (arith, ap (λ s. get_or s 0 0) h)
cache_key_inj (by_write_key k) (by_id n) h = ground (arith, ap (λ s. get_or s 0 0) h)
cache_key_inj (by_server_key k) (by_write_key l) h = ground (arith, ap (λ s. get_or s 0 0) h)
cache_key_inj (by_server_key k) (by_id n) h = ground (arith, ap (λ s. get_or s 0 0) h)
cache_key_inj (by_id m) (by_write_key l) h = ground (arith, ap (λ s. get_or s 0 0) h)
cache_key_inj (by_id m) (by_server_key l) h = ground (arith, ap (λ s. get_or s 0 0) h)

served_failed :
    (later : ℕ) (key : Units) (hit : Hit) (c : ProjectCache) (ws : List (Units × Option Hit))
    → (finish later key
        (some hit)
        failed
        (serve key (some hit) c).0
        (record (serve key (some hit) c).1 { waiting = ws })).0
      ≡ returned hit.value
served_failed later key hit c ws = elim (Bool-cases hit.is_fresh) [
  | inl fresh ↦ simp fresh
  | inr stale ↦ simp stale
]

-- A failing query never fails the lookup of a credential whose project is cached, however old the
-- entry: the answer is the entry's.
pub lookup_failed :
    (o : Config) (now later : ℕ) (credential : Credential) (e : Entry) (c : ProjectCache)
    → get (cache_key credential) c.positive ≡ some e
    → (lookup o now later credential failed c).0 ≡ returned e.value
unfolding lookup read
lookup_failed o now later credential e c held =
    rw (held, lookup)
      (served_failed later (cache_key credential) (hit_of now o.ttl_ms e) _ c.waiting)

-- The answer that a query stores is what the next lookup of the credential returns, with no query,
-- while it is within its time to live: the shorter one, for the answer that there is no project.
pub begin_lookup-store :
    (o : Config) (now later : ℕ) (credential : Credential) (value : Option Project)
    (c : ProjectCache)
    → later < now + (if is_some value then o.ttl_ms else negative_ttl o)
    → (begin_lookup o later credential (store now (cache_key credential) value c)).0 ≡ some value
unfolding begin_lookup read store put
begin_lookup-store o now later credential (some p) c soon =
    rw (get-set, ==_refl (cache_key credential)) (ground arith)
begin_lookup-store o now later credential none c soon =
    rw (get-set, get-delete, ==_refl (cache_key credential)) (ground arith)
