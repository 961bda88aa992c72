-- ===== src/Sdk/Queue.antt =====
-- packages/sdk-browser/src/queue.ts: `EventQueue`, one per tab, over a `localStorage` entry that the
-- tabs of a site share. `Date.parse` is a parameter, `none` for NaN; an instant is a number of
-- milliseconds since the earliest one that a JavaScript `Date` can hold, so that none is negative.
-- `t < now - MAX` is written `t + MAX < now`. What `JSON.parse` gives back is a `Stored`: the code
-- looks at two fields of each element only. A call takes the clock and whether storage takes writes.
mod Tests
pub mod Bounds
pub mod Tabs
use lyraflow.Sdk.Json.{Fields, serialises_fields, reread_fields}
use lyraflow.Prelude.{
  ℕ, ◌+◌, ◌-◌, ◌*◌, String, Bool, true, false, not, ◌&&◌, ◌||◌, Option, none, some, List, [], ◌∷◌,
  ◌++◌, map, ltb, if◌then◌else◌, is_some, length, take, drop, filter, all, ◌==◌, nat_eq, string_eq,
}

abbrev pub max_queue_events : ℕ
max_queue_events = 500

abbrev pub max_event_age_ms : ℕ
max_event_age_ms = 23 * 60 * 60 * 1000

pub record QueuedEvent : Type 0 where
  pub message_id : String
  pub timestamp : String
  pub body : Fields

-- A field of a parsed object: a string, or anything else, undefined included.
pub data Field : Type 0 where
  text : String → Field
  other : Field

-- An element of a parsed array: null and primitives, or an object.
pub data Element : Type 0 where
  primitive : Element
  object : (message_id timestamp : Field) (body : Fields) → Element

-- What is under the storage key.
pub data Stored : Type 0 where
  absent : Stored
  unreadable : Stored
  not_array : Stored
  array : List Element → Stored

-- The tab's own state.
pub record EventQueue : Type 0 where
  pub events : List QueuedEvent
  pub persist : Bool
  pub expired : ℕ
  pub corrupt : ℕ

-- `JSON.parse(JSON.stringify(e))`
abbrev pub element_of : QueuedEvent → Element
element_of e = object (text e.message_id) (text e.timestamp) (reread_fields e.body)

-- `JSON.stringify(events)` returns.
abbrev pub serialisable : List QueuedEvent → Bool
serialisable es = all (λ e. serialises_fields e.body) es

abbrev pub ids : List QueuedEvent → List String
ids = map (λ e. e.message_id)

pub contains : String → List String → Bool
contains i [] = false
contains i (j ∷ js) = j == i || contains i js

pub data Age : Type 0 where
  corrupted stale plausible : Age

-- What `#prune` does with one event of the given age.
abbrev pub sift_one : Age → QueuedEvent → EventQueue → EventQueue
sift_one corrupted e q = record q { corrupt = q.corrupt + 1 }
sift_one stale e q = record q { expired = q.expired + 1 }
sift_one plausible e q = record q { events = q.events ++ e ∷ [] }

abbrev pub newest : List QueuedEvent → List QueuedEvent
newest es = if ltb max_queue_events (length es) then drop (length es - max_queue_events) es else es

-- `writeStore`: a refused write leaves what was there, and so do events that cannot be serialised.
pub write_store : Bool → List QueuedEvent → Stored → Stored
write_store true es s = if serialisable es then array (map element_of es) else s
write_store false es s = s

pub flush_store : Bool → EventQueue → Stored → Stored
flush_store writable q s = if q.persist then write_store writable q.events s else s

module _ (date_parse : String → Option ℕ) where
  -- `isQueuedEventShape`, with the event that passes.
  shaped : Element → Option QueuedEvent
  shaped (object (text i) (text t) body) =
      if not (i == "") && is_some (date_parse t)
      then some (record { message_id = i; timestamp = t; body = body })
      else none
  shaped _ = none

  abbrev keep_some : Option QueuedEvent → List QueuedEvent → List QueuedEvent
  keep_some none es = es
  keep_some (some e) es = e ∷ es

  pub shaped_events : List Element → List QueuedEvent
  shaped_events [] = []
  shaped_events (x ∷ xs) = keep_some (shaped x) (shaped_events xs)

  -- `readStore`
  pub read_store : Stored → List QueuedEvent
  read_store absent = []
  read_store unreadable = []
  read_store not_array = []
  read_store (array xs) = shaped_events xs

  pub age : ℕ → QueuedEvent → Age
  age now e = elim (date_parse e.timestamp) [
    | none ↦ corrupted
    | some t ↦
        if ltb (t + max_event_age_ms) now || ltb (now + max_event_age_ms) t
        then stale
        else plausible
  ]

  -- The loop of `#prune`.
  pub sift : ℕ → List QueuedEvent → EventQueue → EventQueue
  sift now [] q = q
  sift now (e ∷ es) q = sift now es (sift_one (age now e) e q)

  -- `#prune`
  pub prune : ℕ → EventQueue → EventQueue
  prune now q =
      let q' = sift now q.events (record q { events = [] }) in
      record q' { events = newest q'.events }

  -- The constructor.
  pub open_queue : Bool → ℕ → Stored → EventQueue
  open_queue persist now s = prune now (record {
    events = if persist then read_store s else [];
    persist = persist;
    expired = 0;
    corrupt = 0;
  })

  -- `#mergeStored`: what is stored first, then what only this tab knows. `seen` is not extended.
  pub merge_stored : Stored → EventQueue → EventQueue
  merge_stored s q =
      let held = read_store s in
      if q.persist
      then record q {
        events = held ++ filter (λ e. not (contains e.message_id (ids held))) q.events;
      }
      else q

  pub add : ℕ → Bool → QueuedEvent → EventQueue × Stored → EventQueue × Stored
  add now writable e (q, s) =
      let merged = merge_stored s q in
      let q' = prune now (record merged { events = merged.events ++ e ∷ [] }) in
      (q', flush_store writable q' s)

  pub peek : ℕ → ℕ → EventQueue → List QueuedEvent × EventQueue
  peek now n q = let q' = prune now q in (take n q'.events, q')

  pub remove : ℕ → Bool → List String → EventQueue × Stored → EventQueue × Stored
  remove now writable sent (q, s) =
      let merged = merge_stored s q in
      let kept = filter (λ e. not (contains e.message_id sent)) merged.events in
      let q' = prune now (record merged { events = kept }) in (q', flush_store writable q' s)

  pub size : ℕ → EventQueue → ℕ × EventQueue
  size now q = let q' = prune now q in (length q'.events, q')
