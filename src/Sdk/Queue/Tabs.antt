-- ===== src/Sdk/Queue/Tabs.antt =====
-- packages/sdk-browser/src/queue.ts: two tabs over one storage entry, and what is read back from it.
use lyraflow.Prelude.{
  ℕ, ◌≤◌, ◌<◌, String, ◌≡◌, refl, ◌∙◌, ◌≢◌, ◌⊎◌, inl, inr, Bool, true, false, not, ◌||◌, Option,
  List, [], ◌∷◌, ◌++◌, map, Memᴰ, arith, Bool-cases, is_some, if◌then◌else◌, length, filter,
  length-append, length-filter-le, All, All-append, All-filter, ==_iff, mem-append_left,
  mem-append_right, mem-filter, nat_eq, string_eq,
}
use lyraflow.Sdk.Queue.{
  max_queue_events, QueuedEvent, EventQueue, Element, Stored, absent, unreadable, not_array, array,
  primitive, object, text, other, element_of, ids, contains, shaped, shaped_events, read_store,
  write_store, serialisable, newest, prune, merge_stored, flush_store, add, remove,
}
use lyraflow.Sdk.Json.{reread_fields}
use lyraflow.Sdk.Json.Laws.{HaveJson, reread_fields-HaveJson, HaveJson-reread_fields}
use lyraflow.Sdk.Queue.Bounds.{
  IsPlausible, is_plausible, age_complete, prune-events, All-newest, sift-persist,
}

contains-append :
    (i : String) (xs ys : List String) → contains i (xs ++ ys) ≡ (contains i xs || contains i ys)
unfolding contains
contains-append i [] ys = refl
contains-append i (x ∷ xs) ys = ground (arith, contains-append i xs ys)

newest_of_fits : (es : List QueuedEvent) → length es ≤ max_queue_events → newest es ≡ es
newest_of_fits es h = ground arith

-- An event as storage keeps it: its id and timestamp, and of its other fields what JSON has.
abbrev pub as_stored : QueuedEvent → QueuedEvent
as_stored e = record e { body = reread_fields e.body }

-- What is read after a write that storage takes.
abbrev pub after_write : List QueuedEvent → List QueuedEvent → List QueuedEvent
after_write es before = if serialisable es then map as_stored es else before

-- An event whose other fields are JSON already is kept as it is.
as_stored-HaveJson : (e : QueuedEvent) → HaveJson e.body → as_stored e ≡ e
as_stored-HaveJson e h = rw (reread_fields-HaveJson e.body h) refl

-- What storage keeps of an event is JSON, so that another write keeps it as it is.
pub as_stored_twice : (e : QueuedEvent) → as_stored (as_stored e) ≡ as_stored e
as_stored_twice e = as_stored-HaveJson (as_stored e) (HaveJson-reread_fields e.body)

module _ (date_parse : String → Option ℕ) where
  mem-prune :
      (now : ℕ) (q : EventQueue) (x : QueuedEvent)
      → Memᴰ x q.events
      → IsPlausible date_parse now x
      → length q.events ≤ max_queue_events
      → Memᴰ x (prune date_parse now q).events
  mem-prune now q x m p fits =
      rw
        (
          prune-events date_parse now q,
          newest_of_fits (filter (is_plausible date_parse now) q.events)
              (omega (arith, length-filter-le (is_plausible date_parse now) q.events)),
        )
        (mem-filter (is_plausible date_parse now) q.events m
          (rw (age_complete date_parse now x p, is_plausible)))

  All-prune :
      (P : QueuedEvent → Type 0) (now : ℕ) (q : EventQueue)
      → All P q.events
      → All P (prune date_parse now q).events
  All-prune P now q h =
      rw (prune-events date_parse now q)
        (All-newest date_parse P _ (All-filter P (is_plausible date_parse now) q.events h))

  mem-merge_stored :
      (s : Stored) (q : EventQueue) (x : QueuedEvent)
      → q.persist ≡ true
      → Memᴰ x (read_store date_parse s)
        ⊎ (Memᴰ x q.events × (contains x.message_id (ids (read_store date_parse s)) ≡ false))
      → Memᴰ x (merge_stored date_parse s q).events
  unfolding merge_stored
  mem-merge_stored s q x on (inl m) = rw (on, merge_stored) (mem-append_left _ _ m)
  mem-merge_stored s q x on (inr (m, new)) =
      rw (on, merge_stored)
        (mem-append_right (read_store date_parse s) _ (mem-filter _ q.events m (rw new)))

  -- An event that another tab has stored, or that only this tab holds, is in the queue after this
  -- tab's `add`, while it is within the age window, the queue persists and the two tabs' events
  -- leave room under the cap.
  pub mem-add :
      (now : ℕ) (writable : Bool) (e x : QueuedEvent) (q : EventQueue) (s : Stored)
      → q.persist ≡ true
      → Memᴰ x (read_store date_parse s)
        ⊎ (Memᴰ x q.events × (contains x.message_id (ids (read_store date_parse s)) ≡ false))
      → IsPlausible date_parse now x
      → length (merge_stored date_parse s q).events < max_queue_events
      → Memᴰ x (add date_parse now writable e (q, s)).0.events
  unfolding add
  mem-add now writable e x q s on held fresh fits =
      mem-prune now _ x (mem-append_left _ (e ∷ []) (mem-merge_stored s q x on held)) fresh
        (omega (arith, length-append (merge_stored date_parse s q).events (e ∷ [])))

  -- An event that another tab has stored, or that only this tab holds, is in the queue after this
  -- tab's `remove` of other events, while it is within the age window, the queue persists and the
  -- two tabs' events fit the cap.
  pub mem-remove :
      (now : ℕ) (writable : Bool) (sent : List String) (x : QueuedEvent) (q : EventQueue)
      (s : Stored)
      → q.persist ≡ true
      → Memᴰ x (read_store date_parse s)
        ⊎ (Memᴰ x q.events × (contains x.message_id (ids (read_store date_parse s)) ≡ false))
      → IsPlausible date_parse now x
      → contains x.message_id sent ≡ false
      → length (merge_stored date_parse s q).events ≤ max_queue_events
      → Memᴰ x (remove date_parse now writable sent (q, s)).0.events
  unfolding remove
  mem-remove now writable sent x q s on held fresh kept fits =
      mem-prune now _ x (mem-filter _ _ (mem-merge_stored s q x on held) (rw kept)) fresh (
        omega (
          arith,
          length-filter-le (λ (e : QueuedEvent). not (contains e.message_id sent))
              (merge_stored date_parse s q).events,
        ))

  -- After `remove`, no event in the queue has an id that was sent.
  pub remove-sent :
      (now : ℕ) (writable : Bool) (sent : List String) (q : EventQueue) (s : Stored)
      → All
          (λ e. contains e.message_id sent ≡ false)
          (remove date_parse now writable sent (q, s)).0.events
  unfolding remove
  remove-sent now writable sent q s =
      All-prune (λ e. contains e.message_id sent ≡ false) now _
        (unsent (merge_stored date_parse s q).events)
    where
      unsent :
          (es : List QueuedEvent)
          → All
              (λ e. contains e.message_id sent ≡ false)
              (filter (λ e. not (contains e.message_id sent)) es)
      unsent [] = tt
      unsent (e ∷ es) = ground (arith, unsent es)

  -- What can be written and read back: the id is not empty and the timestamp parses.
  abbrev pub IsShaped : QueuedEvent → Type 0
  IsShaped e = (e.message_id ≢ "") × (is_some (date_parse e.timestamp) ≡ true)

  shaped_events-element_of :
      (es : List QueuedEvent)
      → All IsShaped es
      → shaped_events date_parse (map element_of es) ≡ map as_stored es
  unfolding shaped_events shaped
  shaped_events-element_of [] h = refl
  shaped_events-element_of (e ∷ es) h =
      ground (arith, ==_iff e.message_id "", shaped_events-element_of es h.1)

  shaped_events-IsShaped : (xs : List Element) → All IsShaped (shaped_events date_parse xs)
  unfolding shaped_events shaped
  shaped_events-IsShaped [] = tt
  shaped_events-IsShaped (primitive ∷ xs) = shaped_events-IsShaped xs
  shaped_events-IsShaped (object (text i) (text t) body ∷ xs) =
      ground (arith, ==_iff i "", shaped_events-IsShaped xs)
  shaped_events-IsShaped (object (text i) other body ∷ xs) = shaped_events-IsShaped xs
  shaped_events-IsShaped (object other t body ∷ xs) = shaped_events-IsShaped xs

  -- Storage is adversarial: whatever it holds, what is read back has the shape of an event.
  pub read_store-IsShaped : (s : Stored) → All IsShaped (read_store date_parse s)
  unfolding read_store
  read_store-IsShaped absent = tt
  read_store-IsShaped unreadable = tt
  read_store-IsShaped not_array = tt
  read_store-IsShaped (array xs) = shaped_events-IsShaped xs

  merge_stored-IsShaped :
      (s : Stored) (q : EventQueue)
      → All IsShaped q.events
      → All IsShaped (merge_stored date_parse s q).events
  unfolding merge_stored
  merge_stored-IsShaped s q h = elim (Bool-cases q.persist) [
    | inl on ↦
        rw (on, merge_stored)
          (All-append IsShaped _ _ (read_store-IsShaped s) (All-filter IsShaped _ q.events h))
    | inr off ↦ rw (off, merge_stored) h
  ]

  persist-prune : (now : ℕ) (q : EventQueue) → (prune date_parse now q).persist ≡ q.persist
  unfolding prune
  persist-prune now q = sift-persist date_parse now q.events (record q { events = [] })

  persist-merge_stored :
      (s : Stored) (q : EventQueue) → (merge_stored date_parse s q).persist ≡ q.persist
  unfolding merge_stored
  persist-merge_stored s q = ground arith

  read_store-flush_store :
      (q : EventQueue) (s : Stored)
      → q.persist ≡ true
      → All IsShaped q.events
      → read_store date_parse (flush_store true q s)
        ≡ after_write q.events (read_store date_parse s)
  unfolding read_store flush_store write_store
  read_store-flush_store q s on h = elim (Bool-cases (serialisable q.events)) [
    | inl fits ↦ rw (on, flush_store, fits) (shaped_events-element_of q.events h)
    | inr refused ↦ rw (on, flush_store, refused) refl
  ]

  -- After an `add` or a `remove` with persistence on and storage that takes writes, what is read back
  -- from storage is this tab's queue with each event as JSON keeps it, where every event of the queue
  -- can be serialised, and what was there before where one cannot; the tab's own events and the one
  -- added are to have an id and a timestamp that parses.
  pub read_store-calls :
      (now : ℕ) (e : QueuedEvent) (sent : List String) (q : EventQueue) (s : Stored)
      → q.persist ≡ true
      → All IsShaped q.events
      → IsShaped e
      → (read_store date_parse (add date_parse now true e (q, s)).1
          ≡ after_write (add date_parse now true e (q, s)).0.events (read_store date_parse s))
        × (read_store date_parse (remove date_parse now true sent (q, s)).1
            ≡ after_write
                (remove date_parse now true sent (q, s)).0.events
                (read_store date_parse s))
  unfolding add remove
  read_store-calls now e sent q s on h he = (
    read_store-flush_store _ s (persist-prune now _ ∙ persist-merge_stored s q ∙ on)
        (All-prune IsShaped now _ (All-append IsShaped _ (e ∷ []) merged (he, tt))),
    read_store-flush_store _ s (persist-prune now _ ∙ persist-merge_stored s q ∙ on)
        (All-prune IsShaped now _ (All-filter IsShaped _ _ merged)),
  )
    where
      merged : All IsShaped (merge_stored date_parse s q).events
      merged = merge_stored-IsShaped s q h
