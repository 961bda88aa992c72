-- ===== src/Auth/ProjectCache.antt =====
-- packages/server/src/auth/project-cache.ts: `ProjectCache`, which answers which project a credential
-- names. A lookup awaits one query, so lookups interleave: `waiting` holds the cache key of each
-- query that is awaited and the entry that was read before it. Postgres is not modelled: what a query
-- answers is an argument, a row, no row, or a failure. The clock is an argument of each step. Texts
-- are their code units, and instants are numbers.
mod Tests
pub mod Bounds
pub mod Scan
pub mod Answers
use lyraflow.Prelude.Orders.{Units}
use lyraflow.Prelude.Decimal.{decimal, units_eq}
use lyraflow.JsMap.{JsMap, get, set, delete, first_key}
use lyraflow.Prelude.{
  ℕ, zero, suc, ◌+◌, ◌-◌, ◌*◌, min, Bool, Option, none, some, List, [], ◌∷◌, ◌++◌, ltb, leb,
  if◌then◌else◌, length, get_elem?, nat_eq, string_eq,
}

pub record Project : Type 0 where
  pub id : ℕ
  pub slug : Units
  pub retention_months : ℕ
  pub monthly_event_quota : Option ℕ
  pub disabled_at : Option ℕ
  pub deleting_at : Option ℕ
  pub server_key_hash : Units

pub record Entry : Type 0 where
  pub value : Option Project
  pub fetched_at : ℕ

abbrev pub max_positive_entries : ℕ
max_positive_entries = 1000

abbrev pub max_negative_entries : ℕ
max_negative_entries = 128

-- The constructor's arguments.
pub record Config : Type 0 where
  pub ttl_ms : ℕ
  pub negative_ttl_ms : ℕ

-- `#negativeTtlMs`: never longer than the positive one.
abbrev pub negative_ttl : Config → ℕ
negative_ttl o = min o.ttl_ms o.negative_ttl_ms

abbrev pub Entries : Type 0
Entries = JsMap Units Entry

-- What `#read` returns.
pub record Hit : Type 0 where
  pub value : Option Project
  pub is_fresh : Bool

pub record ProjectCache : Type 0 where
  pub positive : Entries
  pub negative : Entries
  pub queries : ℕ
  pub waiting : List (Units × Option Hit)

pub record CacheStats : Type 0 where
  pub queries : ℕ
  pub positive_entries : ℕ
  pub negative_entries : ℕ

unfoldable pub stats : ProjectCache → CacheStats
stats c = record {
  queries = c.queries;
  positive_entries = length c.positive;
  negative_entries = length c.negative;
}

unfoldable pub invalidate : ProjectCache → ProjectCache
invalidate c = record c { positive = []; negative = [] }

-- What a lookup is made by: `byWriteKey`, `byServerKey`, `byId`.
pub data Credential : Type 0 where
  by_write_key by_server_key : Units → Credential
  by_id : ℕ → Credential

-- `w:${key}`, `s:${key}`, `i:${id}`
unfoldable pub cache_key : Credential → Units
cache_key (by_write_key key) = 119 ∷ 58 ∷ key
cache_key (by_server_key key) = 115 ∷ 58 ∷ key
cache_key (by_id id) = 105 ∷ 58 ∷ decimal id

-- A hit moves its entry to the end.
abbrev pub touch : Units → Entry → Entries → Entries
touch key entry m = set key entry (delete key m)

abbrev pub hit_of : ℕ → ℕ → Entry → Hit
hit_of now ttl entry = record { value = entry.value; is_fresh = ltb now (entry.fetched_at + ttl) }

abbrev pub read_both :
    Config → ℕ → Units → Option Entry → Option Entry → ProjectCache → Option Hit × ProjectCache
read_both o now key (some entry) n c =
    (some (hit_of now o.ttl_ms entry), record c { positive = touch key entry c.positive })
read_both o now key none (some entry) c =
    (some (hit_of now (negative_ttl o) entry), record c { negative = touch key entry c.negative })
read_both o now key none none c = (none, c)

-- `#read`
unfoldable pub read : Config → ℕ → Units → ProjectCache → Option Hit × ProjectCache
read o now key c = read_both o now key (get key c.positive) (get key c.negative) c

-- The loop of `#store`; the fuel is the number of entries, and each turn deletes one.
unfoldable pub trim : ℕ → ℕ → Entries → Entries
trim zero cap m = m
trim (suc fuel) cap m =
    if leb cap (length m)
    then elim (first_key m) [ none ↦ m | some oldest ↦ trim fuel cap (delete oldest m) ]
    else m

-- The map of one kind after an entry of that kind is stored.
unfoldable pub put : ℕ → ℕ → Units → Option Project → Entries → Entries
put cap now key value m =
    let rest = delete key m in
    set key (record { value = value; fetched_at = now }) (trim (length rest) cap rest)

unfoldable pub store : ℕ → Units → Option Project → ProjectCache → ProjectCache
store now key (some project) c = record c {
  positive = put max_positive_entries now key (some project) c.positive;
  negative = delete key c.negative;
}
store now key none c = record c {
  positive = delete key c.positive;
  negative = put max_negative_entries now key none c.negative;
}

abbrev pub serve : Units → Option Hit → ProjectCache → Option (Option Project) × ProjectCache
serve key none c =
    (none, record c { queries = c.queries + 1; waiting = c.waiting ++ (key, none) ∷ [] })
serve key (some hit) c =
    if hit.is_fresh
    then (some hit.value, c)
    else (none, record c { queries = c.queries + 1; waiting = c.waiting ++ (key, some hit) ∷ [] })

-- `#lookup` up to its first await: the answer, if the entry is fresh, or a query that is awaited.
unfoldable pub begin_lookup :
    Config → ℕ → Credential → ProjectCache → Option (Option Project) × ProjectCache
begin_lookup o now credential c =
    let (hit, touched) = read o now (cache_key credential) c in
    serve (cache_key credential) hit touched

-- A row of the table as the driver gives it: a `bigint` is the text of its digits.
pub record Row : Type 0 where
  pub id : Units
  pub slug : Units
  pub retention_months : ℕ
  pub monthly_event_quota : Option Units
  pub disabled_at : Option ℕ
  pub deleting_at : Option ℕ
  pub server_key_hash : Units

unfoldable pub digits_after : ℕ → Units → ℕ
digits_after n [] = n
digits_after n (c ∷ s) = digits_after (n * 10 + (c - 48)) s

-- `Number` of a text of digits.
unfoldable pub number_of : Units → ℕ
number_of s = digits_after 0 s

abbrev pub quota_of : Option Units → Option ℕ
quota_of none = none
quota_of (some text) = some (number_of text)

abbrev pub project_of : Option Row → Option Project
project_of none = none
project_of (some row) = some (record {
  id = number_of row.id;
  slug = row.slug;
  retention_months = row.retention_months;
  monthly_event_quota = quota_of row.monthly_event_quota;
  disabled_at = row.disabled_at;
  deleting_at = row.deleting_at;
  server_key_hash = row.server_key_hash;
})

-- How the query of a lookup ends: with `rows[0]`, or not.
pub data Answer : Type 0 where
  answered : Option Row → Answer
  failed : Answer

-- How the lookup ends.
pub data Ending : Type 0 where
  returned : Option Project → Ending
  thrown : Ending

-- The rest of `#lookup`.
abbrev pub conclude : ℕ → Units → Option Hit → Answer → ProjectCache → Ending × ProjectCache
conclude now key hit (answered row) c =
    (returned (project_of row), store now key (project_of row) c)
conclude now key none failed c = (thrown, c)
conclude now key (some hit) failed c = (returned hit.value, c)

abbrev pub finish :
    ℕ → Units → Option Hit → Answer → Option (Option Project) → ProjectCache → Ending × ProjectCache
finish now key hit answer (some value) c = (returned value, c)
finish now key hit answer none c = conclude now key hit answer c

-- `#lookup` with nothing in between: it begins at the first instant and its query, if one is needed,
-- ends at the second.
unfoldable pub lookup : Config → ℕ → ℕ → Credential → Answer → ProjectCache → Ending × ProjectCache
lookup o now later credential answer c =
    let key = cache_key credential in
    let (hit, touched) = read o now key c in
    let (served, queried) = serve key hit touched in
    finish later key hit answer served (record queried { waiting = c.waiting })

abbrev pub end_at :
    ℕ
    → Option (Units × Option Hit)
    → List (Units × Option Hit)
    → Answer
    → ProjectCache
    → Option Ending × ProjectCache
end_at now none rest answer c = (none, c)
end_at now (some (key, hit)) rest answer c =
    let (ending, stored) = conclude now key hit answer (record c { waiting = rest }) in
    (some ending, stored)

abbrev pub without : ℕ → List (Units × Option Hit) → List (Units × Option Hit)
without i [] = []
without zero (w ∷ ws) = ws
without (suc i) (w ∷ ws) = w ∷ without i ws

-- The query at place `i` of those awaited ends.
unfoldable pub end_lookup : ℕ → ℕ → Answer → ProjectCache → Option Ending × ProjectCache
end_lookup now i answer c = end_at now (get_elem? c.waiting i) (without i c.waiting) answer c

-- What the event loop can interleave.
pub data Event : Type 0 where
  begins : ℕ → Credential → Event
  ends : ℕ → ℕ → Answer → Event
  invalidates : Event

unfoldable pub step : Config → Event → ProjectCache → ProjectCache
step o (begins now credential) c = (begin_lookup o now credential c).1
step o (ends now i answer) c = (end_lookup now i answer c).1
step o invalidates c = invalidate c

unfoldable pub run : Config → List Event → ProjectCache → ProjectCache
run o [] c = c
run o (e ∷ es) c = run o es (step o e c)
