-- ===== src/Ingest/Buffer/Written.antt =====
-- `drain` of packages/server/src/ingest/buffer.ts: its count of flushed rows and the rows written.
use lyraflow.Prelude.{
  ℕ, ◌+◌, ◌<◌, ◌≡◌, refl, ap, ◌≢◌, true, Option, none, some, List, [], ◌∷◌, ◌++◌, arith, length,
  length-append, nat_eq, string_eq,
}
use lyraflow.Ingest.Buffer.{
  Outcome, flushed, dropped, InsertStart, awaits, throws, Batch, Buffer, DrainResult, begin_batch,
  flush_batch, find, remove, settle, begin_drain, thrown, settle_all, outcome_of, tally,
  count_batches, drain,
}

-- The rows of a batch that settled as flushed before the deadline.
abbrev gain : Option Outcome → ℕ → ℕ
gain (some flushed) n = n
gain (some dropped) n = 0
gain none n = 0

flushed-tally :
    (o : Option Outcome) (n : ℕ) (r : DrainResult) → (tally o n r).flushed ≡ r.flushed + gain o n
flushed-tally none n r = omega arith
flushed-tally (some flushed) n r = refl
flushed-tally (some dropped) n r = omega arith

module _ {A : Type 0} where
  -- The ids of the batches in flight are distinct and below the next one.
  abbrev pub IsFresh : ℕ → List (Batch A) → Type 0
  IsFresh n [] = Unit
  IsFresh n (b ∷ bs) = (b.id < n) × (find b.id bs ≡ none) × IsFresh n bs

  find-append :
      (i : ℕ) (bs : List (Batch A)) (c : Batch A)
      → find i bs ≡ none
      → c.id ≢ i
      → find i (bs ++ c ∷ []) ≡ none
  unfolding find
  find-append i [] c h ne = ground arith
  find-append i (b ∷ bs) c h ne = ground (arith, find-append i bs c)

  IsFresh-concat :
      (n : ℕ) (bs : List (Batch A)) (rows : List A)
      → IsFresh n bs
      → IsFresh (n + 1) (bs ++ record { id = n; rows = rows } ∷ [])
  unfolding find
  IsFresh-concat n [] rows h = (omega arith, refl, tt)
  IsFresh-concat n (b ∷ bs) rows (lt, new, h) = (
    omega arith,
    find-append b.id bs (record { id = n; rows = rows }) new (omega arith),
    IsFresh-concat n bs rows h,
  )

  find-remove-none :
      (i j : ℕ) (bs : List (Batch A)) → find j bs ≡ none → find j (remove i bs) ≡ none
  unfolding find remove
  find-remove-none i j [] h = h
  find-remove-none i j (b ∷ bs) h = ground (arith, find-remove-none i j bs)

  IsFresh-remove : (n i : ℕ) (bs : List (Batch A)) → IsFresh n bs → IsFresh n (remove i bs)
  unfolding remove
  IsFresh-remove n i [] h = tt
  IsFresh-remove n i (b ∷ bs) (lt, new, h) =
      ground (arith, IsFresh-remove n i bs h, find-remove-none i b.id bs)

  abbrev found_rows : Option (Batch A) → ℕ
  found_rows none = 0
  found_rows (some b) = length b.rows

  abbrev found_list : Option (Batch A) → List A
  found_list none = []
  found_list (some b) = b.rows

  remove-none : (i : ℕ) (bs : List (Batch A)) → find i bs ≡ none → remove i bs ≡ bs
  unfolding find remove
  remove-none i [] h = refl
  remove-none i (b ∷ bs) h = ground (arith, remove-none i bs)

  flushed_rows : List (ℕ × Outcome) → List (Batch A) → ℕ
  flushed_rows es [] = 0
  flushed_rows es (b ∷ bs) = gain (outcome_of b.id es) (length b.rows) + flushed_rows es bs

  count_batches-flushed :
      (es : List (ℕ × Outcome)) (bs : List (Batch A)) (r : DrainResult)
      → (count_batches es bs r).flushed ≡ r.flushed + flushed_rows es bs
  unfolding count_batches flushed_rows
  count_batches-flushed es [] r = omega arith
  count_batches-flushed es (b ∷ bs) r = omega (
    arith,
    count_batches-flushed es bs (tally (outcome_of b.id es) (length b.rows) r),
    flushed-tally (outcome_of b.id es) (length b.rows) r,
  )

  flushed_rows-nil : (bs : List (Batch A)) → flushed_rows [] bs ≡ 0
  unfolding flushed_rows outcome_of
  flushed_rows-nil [] = refl
  flushed_rows-nil (b ∷ bs) = omega (arith, flushed_rows-nil bs)

  flushed_rows_other :
      (i : ℕ) (o : Outcome) (es : List (ℕ × Outcome)) (bs : List (Batch A))
      → find i bs ≡ none
      → flushed_rows ((i, o) ∷ es) bs ≡ flushed_rows es bs
  unfolding flushed_rows outcome_of find
  flushed_rows_other i o es [] h = refl
  flushed_rows_other i o es (b ∷ bs) h = ground (arith, flushed_rows_other i o es bs)

  flushed_rows-cons :
      (n i : ℕ) (o : Outcome) (es : List (ℕ × Outcome)) (bs : List (Batch A))
      → IsFresh n bs
      → flushed_rows ((i, o) ∷ es) bs
        ≡ gain (some o) (found_rows (find i bs)) + flushed_rows es (remove i bs)
  unfolding flushed_rows outcome_of find remove
  flushed_rows-cons n i flushed es [] h = omega arith
  flushed_rows-cons n i dropped es [] h = omega arith
  flushed_rows-cons n i flushed es (b ∷ bs) (lt, new, h) = ground (
    arith,
    flushed_rows-cons n i flushed es bs h,
    flushed_rows_other i flushed es bs,
    flushed_rows_other b.id flushed es bs,
  )
  flushed_rows-cons n i dropped es (b ∷ bs) (lt, new, h) = ground (
    arith,
    flushed_rows-cons n i dropped es bs h,
    flushed_rows_other i dropped es bs,
    flushed_rows_other b.id dropped es bs,
  )

  settle-written :
      (i : ℕ) (o : Outcome) (b : Buffer A)
      → length (settle i o b).written
        ≡ length b.written + gain (some o) (found_rows (find i b.in_flight))
  unfolding settle
  settle-written i flushed b =
      ground (arith, length-append b.written (found_list (find i b.in_flight)))
  settle-written i dropped b = ground arith

  settle-in_flight :
      (i : ℕ) (o : Outcome) (b : Buffer A) → (settle i o b).in_flight ≡ remove i b.in_flight
  unfolding settle
  settle-in_flight i flushed b = ground (arith, remove-none i b.in_flight)
  settle-in_flight i dropped b = ground (arith, remove-none i b.in_flight)

  settle_all-written :
      (n : ℕ) (es : List (ℕ × Outcome)) (b : Buffer A)
      → IsFresh n b.in_flight
      → length (settle_all es b).written ≡ length b.written + flushed_rows es b.in_flight
  unfolding settle_all
  settle_all-written n [] b h = omega (arith, flushed_rows-nil b.in_flight)
  settle_all-written n ((i, o) ∷ es) b h = omega (
    arith,
    settle_all-written n es (settle i o b)
        (rw (settle-in_flight i o b) (IsFresh-remove n i b.in_flight h)),
    settle-written i o b,
    flushed_rows-cons n i o es b.in_flight h,
    ap (flushed_rows es) (settle-in_flight i o b),
  )

  IsFresh-begin_drain :
      (start : InsertStart) (b : Buffer A)
      → IsFresh b.next_id b.in_flight
      → IsFresh (b.next_id + 1) (begin_drain start b).in_flight
  unfolding begin_drain flush_batch
  IsFresh-begin_drain start b h = started start b.rows
    where
      older : (n : ℕ) (bs : List (Batch A)) → IsFresh n bs → IsFresh (n + 1) bs
      older n [] f = tt
      older n (c ∷ bs) (lt, new, f) = (omega arith, new, older n bs f)

      started :
          (s : InsertStart) (rows : List A)
          → IsFresh (b.next_id + 1) (begin_batch s rows (record b { draining = true })).in_flight
      started s [] = older b.next_id b.in_flight h
      started awaits (r ∷ rows) = IsFresh-concat b.next_id b.in_flight (r ∷ rows) h
      started throws (r ∷ rows) = older b.next_id b.in_flight h

  written-begin_drain :
      (start : InsertStart) (b : Buffer A) → (begin_drain start b).written ≡ b.written
  unfolding begin_drain flush_batch
  written-begin_drain start b = started start b.rows
    where
      started :
          (s : InsertStart) (rows : List A)
          → (begin_batch s rows (record b { draining = true })).written ≡ b.written
      started s [] = refl
      started awaits (r ∷ rows) = refl
      started throws (r ∷ rows) = refl

  -- What `drain` reports as flushed is exactly the number of rows whose insert succeeded before
  -- the deadline, where the ids of the batches in flight are distinct and below `next_id`.
  pub drain-written :
      (start : InsertStart) (es : List (ℕ × Outcome)) (b : Buffer A)
      → IsFresh b.next_id b.in_flight
      → length (drain start es b).1.written ≡ length b.written + (drain start es b).0.flushed
  unfolding drain
  drain-written start es b h = omega (
    arith,
    settle_all-written (b.next_id + 1) es (begin_drain start b) (IsFresh-begin_drain start b h),
    count_batches-flushed es (begin_drain start b).in_flight
        (record { flushed = 0; dropped = length (thrown start b) }),
    ap length (written-begin_drain start b),
  )
