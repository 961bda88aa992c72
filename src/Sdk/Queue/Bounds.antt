-- ===== src/Sdk/Queue/Bounds.antt =====
-- packages/sdk-browser/src/queue.ts: `#prune`, and the age and number of events after every call.
use lyraflow.Prelude.{
  length-take, ℕ, ◌+◌, ◌-◌, ◌≤◌, min, String, ◌≡◌, refl, sym, ap, ◌∙◌, inl, inr, Bool, true, false,
  Option, none, some, List, [], ◌∷◌, ◌++◌, arith, ltb, if◌then◌else◌, Bool-cases, length, filter,
  length-append, length-drop, All, All-drop, nat_eq, string_eq,
}
use mathlib.Core.List.{append-nil, append_assoc}
use lyraflow.Sdk.Queue.{
  max_queue_events, max_event_age_ms, QueuedEvent, EventQueue, Stored, Age, corrupted, stale,
  plausible, age, sift_one, sift, newest, prune, open_queue, add, peek, remove, size,
}

module _ (date_parse : String → Option ℕ) where
  -- The timestamp parses, to an instant at most 23 hours behind or ahead of `now`.
  abbrev pub IsPlausible : ℕ → QueuedEvent → Type 0
  IsPlausible now e =
      (t : ℕ) × (date_parse e.timestamp ≡ some t)
      × (now ≤ t + max_event_age_ms)
      × (t ≤ now + max_event_age_ms)

  abbrev pub is_plausible : ℕ → QueuedEvent → Bool
  is_plausible now e = elim (age date_parse now e) [ plausible ↦ true | _ ↦ false ]

  pub age_sound : (now : ℕ) (e : QueuedEvent) → age date_parse now e ≡ plausible → IsPlausible now e
  unfolding age
  age_sound now e h = parsed (date_parse e.timestamp) refl
    where
      parsed : (o : Option ℕ) → date_parse e.timestamp ≡ o → IsPlausible now e
      parsed none p = ground arith
      parsed (some t) p = (t, p, ground arith, ground arith)

  pub age_complete :
      (now : ℕ) (e : QueuedEvent) → IsPlausible now e → age date_parse now e ≡ plausible
  unfolding age
  age_complete now e (t, p, lo, hi) = ground arith

  -- What the loop of `#prune` keeps, in order.
  pub sift-events :
      (now : ℕ) (es : List QueuedEvent) (q : EventQueue)
      → (sift date_parse now es q).events ≡ q.events ++ filter (is_plausible now) es
  unfolding sift
  sift-events now [] q = sym (append-nil q.events)
  sift-events now (e ∷ es) q =
      sift-events now es (sift_one (age date_parse now e) e q) ∙ one (age date_parse now e)
    where
      one :
          (a : Age)
          → (sift_one a e q).events ++ filter (is_plausible now) es
            ≡ q.events
              ++ (if elim a [ plausible ↦ true | _ ↦ false ]
                  then e ∷ filter (is_plausible now) es
                  else filter (is_plausible now) es)
      one corrupted = refl
      one stale = refl
      one plausible = append_assoc q.events (e ∷ []) (filter (is_plausible now) es)

  -- Each event is kept, expired or corrupt, and counted as that.
  pub sift_counts :
      (now : ℕ) (es : List QueuedEvent) (q : EventQueue)
      → length (sift date_parse now es q).events
          + (sift date_parse now es q).expired
          + (sift date_parse now es q).corrupt
        ≡ length q.events + q.expired + q.corrupt + length es
  unfolding sift
  sift_counts now [] q = omega arith
  sift_counts now (e ∷ es) q =
      omega (
        arith,
        sift_counts now es (sift_one (age date_parse now e) e q),
        one (age date_parse now e),
      )
    where
      one :
          (a : Age)
          → length (sift_one a e q).events + (sift_one a e q).expired + (sift_one a e q).corrupt
            ≡ length q.events + q.expired + q.corrupt + 1
      one corrupted = omega arith
      one stale = omega arith
      one plausible = omega (arith, length-append q.events (e ∷ []))

  pub sift-persist :
      (now : ℕ) (es : List QueuedEvent) (q : EventQueue)
      → (sift date_parse now es q).persist ≡ q.persist
  unfolding sift
  sift-persist now [] q = refl
  sift-persist now (e ∷ es) q =
      sift-persist now es (sift_one (age date_parse now e) e q) ∙ one (age date_parse now e)
    where
      one : (a : Age) → (sift_one a e q).persist ≡ q.persist
      one corrupted = refl
      one stale = refl
      one plausible = refl

  -- `#prune` keeps the newest 500 of the plausible events, in order.
  pub prune-events :
      (now : ℕ) (q : EventQueue)
      → (prune date_parse now q).events ≡ newest (filter (is_plausible now) q.events)
  unfolding prune
  prune-events now q = ap newest (sift-events now q.events (record q { events = [] }))

  length-newest : (es : List QueuedEvent) → length (newest es) ≡ min (length es) max_queue_events
  length-newest es = ground (arith, length-drop (length es - max_queue_events) es)

  All-IsPlausible :
      (now : ℕ) (es : List QueuedEvent) → All (IsPlausible now) (filter (is_plausible now) es)
  All-IsPlausible now [] = tt
  All-IsPlausible now (e ∷ es) = ground (arith, age_sound now e, All-IsPlausible now es)

  pub All-newest : (P : QueuedEvent → Type 0) (es : List QueuedEvent) → All P es → All P (newest es)
  All-newest P es h = elim (Bool-cases (ltb max_queue_events (length es))) [
    | inl over ↦ rw over (All-drop P _ es h)
    | inr fits ↦ rw fits h
  ]

  -- At most 500 events, none outside the age window or without a timestamp that parses.
  abbrev pub IsBounded : ℕ → EventQueue → Type 0
  IsBounded now q = All (IsPlausible now) q.events × (length q.events ≤ max_queue_events)

  pub prune-IsBounded : (now : ℕ) (q : EventQueue) → IsBounded now (prune date_parse now q)
  prune-IsBounded now q = rw (prune-events now q) (
    All-newest (IsPlausible now) _ (All-IsPlausible now q.events),
    omega (arith, length-newest (filter (is_plausible now) q.events)),
  )

  pub length-peek-le : (now n : ℕ) (q : EventQueue) → length (peek date_parse now n q).0 ≤ n
  unfolding peek
  length-peek-le now n q = omega (arith, length-take n (prune date_parse now q).events)

  -- Every call leaves the queue within its bounds, whatever the storage holds and whatever it was
  -- given: opening, adding, peeking, removing and asking for the size.
  pub calls-IsBounded :
      (now n : ℕ) (persist writable : Bool) (e : QueuedEvent) (sent : List String) (q : EventQueue)
      (s : Stored)
      → IsBounded now (open_queue date_parse persist now s)
        × IsBounded now (add date_parse now writable e (q, s)).0
        × IsBounded now (peek date_parse now n q).1
        × IsBounded now (remove date_parse now writable sent (q, s)).0
        × IsBounded now (size date_parse now q).1
  unfolding open_queue add peek remove size
  calls-IsBounded now n persist writable e sent q s = (
    prune-IsBounded now _,
    prune-IsBounded now _,
    prune-IsBounded now _,
    prune-IsBounded now _,
    prune-IsBounded now _,
  )

  -- Every event that `#prune` meets is kept, or counted as expired or as corrupt, or was one of the
  -- oldest beyond the 500 newest.
  pub prune_counts :
      (now : ℕ) (q : EventQueue)
      → let q' = prune date_parse now q in
        length q'.events
          + (q'.expired + q'.corrupt)
          + (length (filter (is_plausible now) q.events) - max_queue_events)
        ≡ q.expired + q.corrupt + length q.events
  unfolding prune
  prune_counts now q = omega (
    arith,
    sift_counts now q.events (record q { events = [] }),
    ap length (sift-events now q.events (record q { events = [] })),
    length-newest (sift date_parse now q.events (record q { events = [] })).events,
  )
