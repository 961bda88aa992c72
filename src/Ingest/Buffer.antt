-- ===== src/Ingest/Buffer.antt =====
-- packages/server/src/ingest/buffer.ts: `IngestBuffer`, which holds accepted rows until they are
-- inserted. What the event loop interleaves is a list of events. `insert` is the caller's: it throws
-- at once, or returns a promise that settles later. `written` and `lost` record what became of
-- each row whose batch has settled; the code keeps them as the batches' outcomes only.
mod Tests
pub mod Laws
pub mod Drain
pub mod Written
use lyraflow.Prelude.{
  ℕ, ◌+◌, Bool, true, false, Option, none, some, List, [], ◌∷◌, ◌++◌, leb, if◌then◌else◌, length,
  ◌==◌, nat_eq, string_eq,
}

pub record Options : Type 0 where
  pub flush_rows : ℕ
  pub max_rows : ℕ

-- How a settled batch ended.
pub data Outcome : Type 0 where
  flushed dropped : Outcome

-- What the call of `insert` (or of `onRecord` before it) does before its first await.
pub data InsertStart : Type 0 where
  awaits throws : InsertStart

pub record Batch (A : Type 0) : Type 0 where
  pub id : ℕ
  pub rows : List A

pub record Buffer (A : Type 0) : Type 0 where
  pub rows : List A
  pub draining : Bool
  pub in_flight : List (Batch A)
  pub next_id : ℕ
  pub written : List A
  pub lost : List A

pub record DrainResult : Type 0 where
  pub flushed : ℕ
  pub dropped : ℕ

-- What the event loop can interleave.
pub data Event (A : Type 0) : Type 0 where
  adds : A → InsertStart → Event A
  flushes : InsertStart → Event A
  settles : ℕ → Outcome → Event A
  drains : InsertStart → Event A

module _ {A : Type 0} where
  -- `#inFlightRowCount`
  abbrev pub row_count : List (Batch A) → ℕ
  row_count [] = 0
  row_count (b ∷ bs) = length b.rows + row_count bs

  pub depth : Buffer A → ℕ
  depth b = length b.rows + row_count b.in_flight

  abbrev pub log : Outcome → List A → Buffer A → Buffer A
  log flushed rows b = record b { written = b.written ++ rows }
  log dropped rows b = record b { lost = b.lost ++ rows }

  -- The batch that takes the queued rows, and its insert up to the first await.
  abbrev begin_batch : InsertStart → List A → Buffer A → Buffer A
  begin_batch start [] b = b
  begin_batch awaits (r ∷ rows) b = record b {
    rows = [];
    in_flight = b.in_flight ++ record { id = b.next_id; rows = r ∷ rows } ∷ [];
    next_id = b.next_id + 1;
  }
  begin_batch throws (r ∷ rows) b =
      log dropped (r ∷ rows) (record b { rows = []; next_id = b.next_id + 1 })

  -- `#flushBatch`
  pub flush_batch : InsertStart → Buffer A → Buffer A
  flush_batch start b = begin_batch start b.rows b

  pub add : Options → InsertStart → A → Buffer A → Bool × Buffer A
  add o start row b =
      if b.draining
      then (false, b)
      else if leb o.max_rows (depth b)
      then (false, b)
      else let queued = record b { rows = b.rows ++ row ∷ [] } in
        (true, if leb o.flush_rows (length queued.rows) then flush_batch start queued else queued)

  pub find : ℕ → List (Batch A) → Option (Batch A)
  find i [] = none
  find i (b ∷ bs) = if b.id == i then some b else find i bs

  pub remove : ℕ → List (Batch A) → List (Batch A)
  remove i [] = []
  remove i (b ∷ bs) = if b.id == i then bs else b ∷ remove i bs

  -- The rest of `#flushBatch`, when the insert of batch `i` has settled.
  pub settle : ℕ → Outcome → Buffer A → Buffer A
  settle i outcome b = elim (find i b.in_flight) [
    | none ↦ b
    | some batch ↦ log outcome batch.rows (record b { in_flight = remove i b.in_flight })
  ]

  -- `drain` up to its first await: refuse new rows, stop the timer, flush what is queued.
  pub begin_drain : InsertStart → Buffer A → Buffer A
  begin_drain start b = flush_batch start (record b { draining = true })

  -- The rows of the final batch that `drain` counts though its insert threw at once.
  pub thrown : InsertStart → Buffer A → List A
  thrown awaits b = []
  thrown throws b = b.rows

  pub settle_all : List (ℕ × Outcome) → Buffer A → Buffer A
  settle_all [] b = b
  settle_all ((i, outcome) ∷ es) b = settle_all es (settle i outcome b)

-- How batch `i` settled before the deadline, if it did.
pub outcome_of : ℕ → List (ℕ × Outcome) → Option Outcome
outcome_of i [] = none
outcome_of i ((j, outcome) ∷ es) = if j == i then some outcome else outcome_of i es

-- One arm of the loop in `drain`: only a batch that settled as flushed counts as flushed.
abbrev tally : Option Outcome → ℕ → DrainResult → DrainResult
tally (some flushed) n r = record r { flushed = r.flushed + n }
tally (some dropped) n r = record r { dropped = r.dropped + n }
tally none n r = record r { dropped = r.dropped + n }

module _ {A : Type 0} where
  pub count_batches : List (ℕ × Outcome) → List (Batch A) → DrainResult → DrainResult
  count_batches es [] r = r
  count_batches es (b ∷ bs) r = count_batches es bs (tally (outcome_of b.id es) (length b.rows) r)

  -- `drain`: the batches are those in flight once the queue is flushed, and `es` is what settles
  -- before the deadline.
  pub drain : InsertStart → List (ℕ × Outcome) → Buffer A → DrainResult × Buffer A
  drain start es b =
      let waiting = begin_drain start b in
      (
        count_batches es waiting.in_flight
            (record { flushed = 0; dropped = length (thrown start b) }),
        settle_all es waiting,
      )

  pub step : Options → Event A → Buffer A → Buffer A
  step o (adds row start) b = (add o start row b).1
  step o (flushes start) b = flush_batch start b
  step o (settles i outcome) b = settle i outcome b
  step o (drains start) b = begin_drain start b

  pub run : Options → List (Event A) → Buffer A → Buffer A
  run o [] b = b
  run o (e ∷ es) b = run o es (step o e b)

  -- The row that a step accepts, if any: the callers' 202s.
  pub accepted : Options → Event A → Buffer A → List A
  accepted o (adds row start) b = if (add o start row b).0 then row ∷ [] else []
  accepted o (flushes start) b = []
  accepted o (settles i outcome) b = []
  accepted o (drains start) b = []

  pub all_accepted : Options → List (Event A) → Buffer A → List A
  all_accepted o [] b = []
  all_accepted o (e ∷ es) b = accepted o e b ++ all_accepted o es (step o e b)
