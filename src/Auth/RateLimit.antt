-- ===== src/Auth/RateLimit.antt =====
-- packages/server/src/auth/rate-limit.ts: the limiter in front of `POST /v1/auth/login`.
-- `#hits` is a map from a namespace to a map from a key to its attempt times. A method takes the
-- clock as an argument: the `Date.now()` calls of one synchronous call are one reading. The test
-- `t > now - windowMs` is written `now < t + windowMs`, since `-` on ℕ stops at 0.
mod Tests
pub mod Evict
pub mod Live
pub mod Record
pub mod Lockout
use Prim.Native.Char.{code}
use mathlib.Core.Option
use lyraflow.Prelude.{
  ℕ, zero, suc, ◌+◌, ◌-◌, String, Bool, true, false, not, Option, none, some, List, [], ◌∷◌, ◌++◌,
  length, filter, drop, ltb, ◌==◌, if◌then◌else◌, get_or_else, ◌*◌, ◌&&◌, nat_eq, string_eq,
}
use lyraflow.JsMap.{JsMap, get, set, delete, first_key}

pub record Config : Type 0 where
  pub max_attempts : ℕ
  pub window_ms : ℕ
  pub max_keys : ℕ
  pub max_namespaces : ℕ

-- The defaults of the constructor.
abbrev pub login_config : Config
login_config = record {
  max_attempts = 10;
  window_ms = 15 * 60_000;
  max_keys = 4096;
  max_namespaces = 32;
}

abbrev pub Namespace : Type 0
Namespace = JsMap String (List ℕ)

abbrev pub Hits : Type 0
Hits = JsMap String Namespace

-- What stands before the first `:`, if there is one.
before_colon : String → Option String
before_colon String.[] = none
before_colon (String.◌∷◌ c s) =
    let rest = Option.map (String.◌∷◌ c) (before_colon s) in
    if code c == b':' then some "" else rest

pub namespace_of : String → String
unfolding before_colon
namespace_of key = get_or_else (before_colon key) key

-- The eviction in `#namespace`: the namespace created last is never the one that goes.
drop_oldest : String → Option String → Hits → Hits
drop_oldest name none hits = hits
drop_oldest name (some oldest) hits = if oldest == name then hits else delete oldest hits

-- `#namespace`: finds or creates the map of the key's namespace, and keeps the outer map bounded.
create : Config → String → Hits → Hits
create c name hits =
    let grown = set name [] hits in
    if ltb c.max_namespaces (length grown) then drop_oldest name (first_key grown) grown else grown

pub namespace : Config → String → Hits → Hits
namespace c name hits = elim (get name hits) [ some ns ↦ hits | none ↦ create c name hits ]

-- The attempts inside the window.
pub recent : Config → ℕ → List ℕ → List ℕ
recent c now times = filter (λ t. ltb now (t + c.window_ms)) times

-- The map that `#namespace` returns.
pub found : String → Hits → Namespace
found name hits = get_or_else (get name hits) []

abbrev put_nonempty : String → List ℕ → Namespace → Namespace
put_nonempty key [] ns = ns
put_nonempty key (t ∷ ts) ns = set key (t ∷ ts) ns

-- `#live`: prunes the key's attempts and moves the key to the young end.
pub live : Config → ℕ → String → Hits → List ℕ × Hits
live c now key hits =
    let name = namespace_of key in
    let held = namespace c name hits in
    let ns = found name held in
    let kept = recent c now (get_or_else (get key ns) []) in
    (kept, set name (put_nonempty key kept (delete key ns)) held)

-- `check`; `every` stops at the first key that is at the limit.
pub check : Config → ℕ → List String → Hits → Bool × Hits
check c now [] hits = (true, hits)
check c now (key ∷ keys) hits =
    let (kept, hits') = live c now key hits in
    let rest = check c now keys hits' in
    if ltb (length kept) c.max_attempts then rest else (false, hits')

-- The first entry other than `just` that is under the limit.
first_under : Config → ℕ → String → Namespace → Option String
first_under c now just [] = none
first_under c now just ((k, times) ∷ ns) =
    if not (k == just) && ltb (length (recent c now times)) c.max_attempts
    then some k
    else first_under c now just ns

-- The first entry other than `just`.
first_other : String → Namespace → Option String
first_other just [] = none
first_other just ((k, times) ∷ ns) = if k == just then first_other just ns else some k

pub victim : Config → ℕ → String → Namespace → Option String
victim c now just ns = elim (first_under c now just ns) [
  | some k ↦ some k
  | none ↦ first_other just ns
]

-- The loop of `#evict`; each round deletes an entry, so the map's size is enough fuel.
pub evict_loop : ℕ → Config → ℕ → String → Namespace → Namespace
evict_loop zero c now just ns = ns
evict_loop (suc fuel) c now just ns = elim (ltb c.max_keys (length ns)) [
  | false ↦ ns
  | true ↦ elim (victim c now just ns) [
    | none ↦ ns
    | some k ↦ evict_loop fuel c now just (delete k ns)
  ]
]

pub evict : Config → ℕ → String → Namespace → Namespace
evict c now just ns = evict_loop (length ns) c now just ns

-- `kept.splice(0, kept.length - maxAttempts)` when there are too many.
pub newest : Config → List ℕ → List ℕ
newest c times =
    if ltb c.max_attempts (length times) then drop (length times - c.max_attempts) times else times

-- The body of the loop in `record`.
pub record_key : Config → ℕ → String → Hits → Hits
record_key c now key hits =
    let name = namespace_of key in
    let (kept, hits') = live c now key (namespace c name hits) in
    let ns = set key (newest c (kept ++ now ∷ [])) (delete key (found name hits')) in
    set name (evict c now key ns) hits'

pub record_keys : Config → ℕ → List String → Hits → Hits
record_keys c now [] hits = hits
record_keys c now (key ∷ keys) hits = record_keys c now keys (record_key c now key hits)

pub reset : List String → Hits → Hits
reset [] hits = hits
reset (key ∷ keys) hits = elim (get (namespace_of key) hits) [
  | none ↦ reset keys hits
  | some ns ↦ reset keys (set (namespace_of key) (delete key ns) hits)
]
