-- ===== src/Sdk/Queue/Tests.antt =====
-- packages/sdk-browser/src/queue.ts: concrete runs of the queue. The parser of the tests reads three
-- texts and no other.
use lyraflow.Prelude.{
  ℕ, String, ◌≡◌, refl, inl, true, false, Option, none, some, [], ◌∷◌, Memᴰ, arith, if◌then◌else◌,
  ◌==◌, ==_iff, nat_eq, string_eq,
}
use lyraflow.Sdk.Json.{
  missing, not_finite, refused, null, date, string, empty, field, serialises, reread,
}
use lyraflow.Sdk.Queue.{
  QueuedEvent, EventQueue, Stored, unreadable, array, primitive, object, text, other, ids, contains,
  shaped, shaped_events, read_store, write_store, age, sift, prune, open_queue, merge_stored,
  flush_store, add, peek, remove, size,
}
use lyraflow.Sdk.Queue.Bounds.{IsPlausible, IsBounded, calls-IsBounded}
use lyraflow.Sdk.Queue.Tabs.{as_stored, after_write, mem-add, read_store-calls}

-- What a run computes with.
queue : Unit {0}
unfolding contains shaped shaped_events read_store write_store age sift prune open_queue
    merge_stored flush_store add peek remove size
queue = tt

abbrev parse : String → Option ℕ
parse s =
    if s == "t1"
    then some 1000
    else if s == "t2"
    then some 100000000
    else if s == "t3"
    then some 100000500
    else none

abbrev event : String → String → QueuedEvent
event i t = record { message_id = i; timestamp = t; body = empty }

-- Another tab has stored A1, next to an old event and to what is no event at all.
abbrev shared : Stored
shared = array (
    primitive
    ∷ object (text "A1") (text "t2") empty
    ∷ object (text "A0") (text "t1") empty
    ∷ object (text "") (text "t2") empty
    ∷ object (text "A9") (text "never") empty
    ∷ object other (text "t2") empty
    ∷ [])

abbrev mine : EventQueue
mine = record { events = event "B1" "t2" ∷ []; persist = true; expired = 0; corrupt = 0 }

two_tabs :
    (ids (add parse 100001000 true (event "B2" "t3") (mine, shared)).0.events
      ≡ "A1" ∷ "B1" ∷ "B2" ∷ [])
    × ((add parse 100001000 true (event "B2" "t3") (mine, shared)).0.expired ≡ 1)
unfolding queue
two_tabs = (refl, refl)

opened : ids (open_queue parse true 100001000 shared).events ≡ "A1" ∷ []
unfolding queue
opened = refl

refused_write : (add parse 100001000 false (event "B2" "t3") (mine, unreadable)).1 ≡ unreadable
unfolding queue
refused_write = refl

calls-IsBounded_example : IsBounded parse 100001000 (peek parse 100001000 3 mine).1
calls-IsBounded_example =
    (calls-IsBounded parse 100001000 3 true true (event "B2" "t3") ("B1" ∷ []) mine shared).2

stored_A1 : Memᴰ (event "A1" "t2") (read_store parse shared)
unfolding queue
stored_A1 = Memᴰ.head refl

IsPlausible-A1 : IsPlausible parse 100001000 (event "A1" "t2")
IsPlausible-A1 = (100000000, refl, omega arith, omega arith)

mem-add_example :
    Memᴰ (event "A1" "t2") (add parse 100001000 true (event "B2" "t3") (mine, shared)).0.events
unfolding queue
mem-add_example =
    mem-add parse 100001000 true (event "B2" "t3") (event "A1" "t2") mine shared refl
      (inl stored_A1) IsPlausible-A1 (omega arith)

-- An event with an invalid number, a date and a property that is undefined.
abbrev rich : QueuedEvent
rich = record (event "B2" "t3") {
  body =
      field "price" not_finite
        (field "at" (date (some "2026-08-01T00:00:00.000Z")) (field "coupon" missing empty));
}

-- What storage keeps of it: JSON has neither the number nor the undefined property.
kept :
    (as_stored rich).body
    ≡ field "price" null (field "at" (string "2026-08-01T00:00:00.000Z") empty)
unfolding reread
kept = refl

-- A BigInt in one event leaves storage as it was.
not_written :
    (add parse 100001000 true (record rich { body = field "n" refused empty }) (mine, shared)).1
    ≡ shared
unfolding queue serialises
not_written = refl

read_store-calls_example :
    read_store parse (add parse 100001000 true rich (mine, shared)).1
    ≡ after_write (add parse 100001000 true rich (mine, shared)).0.events (read_store parse shared)
read_store-calls_example =
    (read_store-calls parse 100001000 rich [] mine shared refl
      ((ground (arith, ==_iff {K = String} "B1" ""), refl), tt)
      (ground (arith, ==_iff {K = String} "B2" ""), refl)).0
