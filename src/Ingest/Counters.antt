-- ===== src/Ingest/Counters.antt =====
-- packages/server/src/ingest/counters.ts: `IngestCounters`, which adds up outcomes by project and
-- month and folds them into Postgres. A flush awaits one statement for each project-month, so the
-- event loop interleaves it with records and with other flushes: `running` holds what each running
-- flush has still to write, the statement it awaits first. `rows` is the table `ingest_counters`,
-- which the statement's ON CONFLICT clause adds to; a statement that fails writes nothing. `onError`
-- is the caller's, and what it throws is swallowed. The clock is an argument of each call, as the
-- text that `toISOString` gives. Numbers do not reach the size at which a double loses units.
mod Tests
pub mod Changes
pub mod Kept
pub mod Totals
use lyraflow.Prelude.Orders.{Units}
use lyraflow.Prelude.Decimal.{tagged, units_eq}
use lyraflow.JsMap.{JsMap, get, set}
use lyraflow.Prelude.{
  ℕ, zero, suc, ◌+◌, Bool, true, false, Option, none, some, List, [], ◌∷◌, ◌++◌, map, get_or_else,
  take, nat_eq, string_eq,
}

pub data Kind : Type 0 where
  accepted rejected throttled over_quota bot : Kind

pub record Tally : Type 0 where
  pub accepted : ℕ
  pub rejected : ℕ
  pub throttled : ℕ
  pub over_quota : ℕ
  pub bot : ℕ

abbrev pub empty_tally : Tally
empty_tally = record { accepted = 0; rejected = 0; throttled = 0; over_quota = 0; bot = 0 }

-- `tally[kind]`
abbrev pub count_of : Kind → Tally → ℕ
count_of accepted t = t.accepted
count_of rejected t = t.rejected
count_of throttled t = t.throttled
count_of over_quota t = t.over_quota
count_of bot t = t.bot

-- `tally[kind] += n`
abbrev pub bump : Kind → ℕ → Tally → Tally
bump accepted n t = record t { accepted = t.accepted + n }
bump rejected n t = record t { rejected = t.rejected + n }
bump throttled n t = record t { throttled = t.throttled + n }
bump over_quota n t = record t { over_quota = t.over_quota + n }
bump bot n t = record t { bot = t.bot + n }

abbrev pub plus : Tally → Tally → Tally
plus t u = record {
  accepted = t.accepted + u.accepted;
  rejected = t.rejected + u.rejected;
  throttled = t.throttled + u.throttled;
  over_quota = t.over_quota + u.over_quota;
  bot = t.bot + u.bot;
}

pub record Entry : Type 0 where
  pub project_id : ℕ
  pub month : Units
  pub tally : Tally

abbrev pub Tallies : Type 0
Tallies = JsMap Units Entry

pub record Counters : Type 0 where
  pub tallies : Tallies
  pub totals : Tally
  pub running : List (List Entry)
  pub rows : Tallies

-- `currentMonth`, at the instant whose ISO text is given.
unfoldable pub current_month : Units → Units
current_month iso = take 7 iso ++ 45 ∷ 48 ∷ 49 ∷ []

unfoldable pub fresh : ℕ → Units → Entry
fresh project_id month = record { project_id = project_id; month = month; tally = empty_tally }

-- `#getOrCreate`, then a change of the tally that it returns, which stands in the map.
unfoldable pub change : (Tally → Tally) → ℕ → Units → Tallies → Tallies
change f project_id month m =
    let entry = get_or_else (get (tagged project_id month) m) (fresh project_id month) in
    set (tagged project_id month) (record entry { tally = f entry.tally }) m

unfoldable pub record_events : Units → ℕ → Kind → ℕ → Counters → Counters
record_events iso project_id kind n c = record c {
  tallies = change (bump kind n) project_id (current_month iso) c.tallies;
  totals = bump kind n c.totals;
}

-- `?.tally ?? 0`
abbrev pub count_in : Kind → Option Entry → ℕ
count_in kind none = 0
count_in kind (some entry) = count_of kind entry.tally

-- What a map of entries says of a project-month.
unfoldable pub look : Kind → ℕ → Units → Tallies → ℕ
look kind project_id month m = count_in kind (get (tagged project_id month) m)

unfoldable pub persisted_accepted : Units → ℕ → Counters → ℕ
persisted_accepted iso project_id c = look accepted project_id (current_month iso) c.rows

unfoldable pub pending_accepted : Units → ℕ → Counters → ℕ
pending_accepted iso project_id c = look accepted project_id (current_month iso) c.tallies

abbrev pub values : Tallies → List Entry
values m = map (λ b. b.1) m

-- `flush` up to its first await.
abbrev take_pending : Tallies → Counters → Counters
take_pending [] c = c
take_pending (b ∷ m) c = record c { tallies = []; running = c.running ++ (values (b ∷ m)) ∷ [] }

unfoldable pub begin_flush : Counters → Counters
begin_flush c = take_pending c.tallies c

-- The statement of an entry has settled: written, or folded back into the pending tallies.
unfoldable pub write_entry : Bool → Entry → Counters → Counters
write_entry true e c = record c { rows = change (λ t. plus t e.tally) e.project_id e.month c.rows }
write_entry false e c = record c {
  tallies = change (λ t. plus t e.tally) e.project_id e.month c.tallies;
}

abbrev pub behind :
    List Entry → Option (Entry × List (List Entry)) → Option (Entry × List (List Entry))
behind f none = none
behind f (some (e, rest)) = some (e, f ∷ rest)

-- The statement that the flush at place `i` awaits settles; a flush that has written its last
-- entry stays as an empty list.
unfoldable pub advance : ℕ → List (List Entry) → Option (Entry × List (List Entry))
advance i [] = none
advance zero ([] ∷ fs) = none
advance zero ((e ∷ es) ∷ fs) = some (e, es ∷ fs)
advance (suc i) (f ∷ fs) = behind f (advance i fs)

unfoldable pub settle : ℕ → Bool → Counters → Counters
settle i ok c = elim (advance i c.running) [
  | none ↦ c
  | some (e, rest) ↦ write_entry ok e (record c { running = rest })
]

-- What the event loop can interleave.
pub data Event : Type 0 where
  records : Units → ℕ → Kind → ℕ → Event
  flushes : Event
  settles : ℕ → Bool → Event

unfoldable pub step : Event → Counters → Counters
step (records iso project_id kind n) c = record_events iso project_id kind n c
step flushes c = begin_flush c
step (settles i ok) c = settle i ok c

unfoldable pub run : List Event → Counters → Counters
run [] c = c
run (e ∷ es) c = run es (step e c)

-- A counter in a process that has just started, over a table.
abbrev pub started : Tallies → Counters
started rows = record { tallies = []; totals = empty_tally; running = []; rows = rows }
