-- ===== src/Segments/Cache.antt =====
-- packages/server/src/segments/cache.ts: `SegmentCache`, which keeps results of segment queries for a
-- short time. `A` is a member row, which the cache only counts. The clock is an argument of each call,
-- one reading for each, since every method is synchronous. Keys are texts, as their code units.
mod Tests
pub mod Bounds
pub mod Drops
pub mod Clears
pub mod Fresh
use lyraflow.Prelude.Orders.{Units}
use lyraflow.Prelude.Decimal.{tagged, starts_with, units_eq}
use lyraflow.JsMap.{JsMap, get, set, delete, first_key}
use lyraflow.Prelude.{
  ℕ, zero, suc, ◌+◌, ◌-◌, Bool, not, ◌||◌, Option, none, some, List, [], ◌∷◌, map, ltb, leb,
  if◌then◌else◌, get_or_else, length, ◌==◌, nat_eq, string_eq,
}

abbrev pub cache_max_entries : ℕ
cache_max_entries = 200

abbrev pub cache_max_rows : ℕ
cache_max_rows = 50000

abbrev pub cache_ttl_ms : ℕ
cache_ttl_ms = 30000

pub record CachedResult (A : Type 0) : Type 0 where
  pub count : ℕ
  pub members : List A
  pub as_of : Units

pub record Entry (A : Type 0) : Type 0 where
  pub value : CachedResult A
  pub expires_at : ℕ

pub record Cache (A : Type 0) : Type 0 where
  pub entries : JsMap Units (Entry A)
  pub rows : ℕ
  pub generations : JsMap ℕ ℕ

module _ {A : Type 0} where
  abbrev pub members_of : Entry A → ℕ
  members_of e = length e.value.members

  unfoldable pub size : Cache A → ℕ
  size c = length c.entries

  unfoldable pub generation : ℕ → Cache A → ℕ
  generation project_id c = get_or_else (get project_id c.generations) 0

  abbrev pub drop_found : Units → Option (Entry A) → Cache A → Cache A
  drop_found key none c = c
  drop_found key (some existing) c = record c {
    rows = c.rows - members_of existing;
    entries = delete key c.entries;
  }

  -- `#drop`
  unfoldable pub drop_key : Units → Cache A → Cache A
  drop_key key c = drop_found key (get key c.entries) c

  abbrev pub found : ℕ → Units → Option (Entry A) → Cache A → Option (CachedResult A) × Cache A
  found now key none c = (none, c)
  found now key (some hit) c =
      if leb hit.expires_at now
      then (none, drop_key key c)
      else (some hit.value, record c { entries = set key hit (delete key c.entries) })

  -- `get`
  unfoldable pub read : ℕ → Units → Cache A → Option (CachedResult A) × Cache A
  read now key c = found now key (get key c.entries) c

  abbrev pub is_over : Cache A → Bool
  is_over c = ltb cache_max_entries (length c.entries) || ltb cache_max_rows c.rows

  -- The loop of `#evict`; the fuel is the number of entries, and each turn drops one.
  unfoldable pub evict_loop : ℕ → Cache A → Cache A
  evict_loop zero c = c
  evict_loop (suc fuel) c =
      if is_over c
      then elim (first_key c.entries) [
        | none ↦ c
        | some oldest ↦ evict_loop fuel (drop_key oldest c)
      ]
      else c

  unfoldable pub evict : Cache A → Cache A
  evict c = evict_loop (length c.entries) c

  abbrev pub insert : ℕ → Units → CachedResult A → Cache A → Cache A
  insert now key value c = record c {
    entries = set key (record { value = value; expires_at = now + cache_ttl_ms }) c.entries;
    rows = c.rows + length value.members;
  }

  -- `set`
  unfoldable pub store : ℕ → Units → CachedResult A → ℕ → ℕ → Cache A → Cache A
  store now key value project_id gen c =
      if not (gen == generation project_id c)
      then c
      else if ltb cache_max_rows (length value.members)
      then drop_key key c
      else evict (insert now key value (drop_key key c))

  -- The loop of `clearProject`, over the keys that the map held when it began.
  unfoldable pub drop_prefixed : Units → List Units → Cache A → Cache A
  drop_prefixed prefix [] c = c
  drop_prefixed prefix (key ∷ keys) c =
      drop_prefixed prefix keys (if starts_with prefix key then drop_key key c else c)

  unfoldable pub clear_project : ℕ → Cache A → Cache A
  clear_project project_id c =
      drop_prefixed (tagged project_id []) (map (λ b. b.0) c.entries)
        (record c { generations = set project_id (generation project_id c + 1) c.generations })

  abbrev pub empty_cache : Cache A
  empty_cache = record { entries = []; rows = 0; generations = [] }

-- The calls that the routes make.
pub data Call (A : Type 0) : Type 0 where
  reads : ℕ → Units → Call A
  stores : ℕ → Units → CachedResult A → ℕ → ℕ → Call A
  clears : ℕ → Call A

module _ {A : Type 0} where
  unfoldable pub step : Call A → Cache A → Cache A
  step (reads now key) c = (read now key c).1
  step (stores now key value project_id gen) c = store now key value project_id gen c
  step (clears project_id) c = clear_project project_id c

  unfoldable pub run : List (Call A) → Cache A → Cache A
  run [] c = c
  run (call ∷ calls) c = run calls (step call c)
