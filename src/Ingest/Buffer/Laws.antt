-- ===== src/Ingest/Buffer/Laws.antt =====
-- packages/server/src/ingest/buffer.ts: the memory that the buffer takes, and where its rows are.
use lyraflow.Prelude.{
  ℕ, ◌+◌, ◌≤◌, ◌≡◌, refl, ap, inl, inr, true, some, List, [], ◌∷◌, ◌++◌, arith, Option-cases,
  length, length-append, nat_eq, string_eq,
}
use lyraflow.Ingest.Buffer.{
  Options, Outcome, flushed, dropped, InsertStart, awaits, throws, Batch, Buffer, row_count, depth,
  log, begin_batch, flush_batch, add, find, remove, settle, begin_drain, Event, adds, flushes,
  settles, drains, step, run, accepted, all_accepted,
}

module _ {A : Type 0} where
  pub row_count-append :
      (bs cs : List (Batch A)) → row_count (bs ++ cs) ≡ row_count bs + row_count cs
  row_count-append [] cs = omega arith
  row_count-append (b ∷ bs) cs = omega (arith, row_count-append bs cs)

  row_count-remove :
      (i : ℕ) (bs : List (Batch A)) (b : Batch A)
      → find i bs ≡ some b
      → row_count (remove i bs) + length b.rows ≡ row_count bs
  unfolding find remove
  row_count-remove i [] b h = cc
  row_count-remove i (x ∷ bs) b h = ground (arith, row_count-remove i bs b)

  begin_batch-depth-le :
      (start : InsertStart) (rows : List A) (b : Buffer A)
      → b.rows ≡ rows
      → depth (begin_batch start rows b) ≤ depth b
  unfolding depth
  begin_batch-depth-le start [] b h = omega arith
  begin_batch-depth-le awaits (r ∷ rows) b h = omega (
    arith,
    row_count-append b.in_flight (record { id = b.next_id; rows = r ∷ rows } ∷ []),
    ap length h,
  )
  begin_batch-depth-le throws (r ∷ rows) b h = omega arith

  depth-flush_batch-le :
      (start : InsertStart) (b : Buffer A) → depth (flush_batch start b) ≤ depth b
  unfolding flush_batch
  depth-flush_batch-le start b = begin_batch-depth-le start b.rows b refl

  depth_queued :
      (row : A) (b : Buffer A) → depth (record b { rows = b.rows ++ row ∷ [] }) ≡ depth b + 1
  unfolding depth
  depth_queued row b = omega (arith, length-append b.rows (row ∷ []))

  depth-add-le :
      (o : Options) (start : InsertStart) (row : A) (b : Buffer A)
      → depth b ≤ o.max_rows
      → depth (add o start row b).1 ≤ o.max_rows
  unfolding add
  depth-add-le o start row b h = ground (
    arith,
    depth-flush_batch-le start (record b { rows = b.rows ++ row ∷ [] }),
    depth_queued row b,
  )

  pub settle_cases {ℓ} :
      (P : Buffer A → Type ℓ) (i : ℕ) (outcome : Outcome) (b : Buffer A)
      → P b
      → ((batch : Batch A)
          → find i b.in_flight ≡ some batch
          → P (log outcome batch.rows (record b { in_flight = remove i b.in_flight })))
      → P (settle i outcome b)
  unfolding settle
  settle_cases P i outcome b missing present = elim (Option-cases (find i b.in_flight)) [
    | inl e ↦ rw (e, settle) missing
    | inr (batch, e) ↦ rw (e, settle) (present batch e)
  ]

  depth-log :
      (outcome : Outcome) (rows : List A) (b : Buffer A) → depth (log outcome rows b) ≡ depth b
  unfolding depth
  depth-log flushed rows b = refl
  depth-log dropped rows b = refl

  depth-settle-le :
      (i : ℕ) (outcome : Outcome) (b : Buffer A) → depth (settle i outcome b) ≤ depth b
  unfolding depth
  depth-settle-le i outcome b =
      settle_cases (λ b'. depth b' ≤ depth b) i outcome b (omega arith)
        λ batch e. omega (
          arith,
          row_count-remove i b.in_flight batch e,
          depth-log outcome batch.rows (record b { in_flight = remove i b.in_flight }),
        )

  depth-step-le :
      (o : Options) (e : Event A) (b : Buffer A)
      → depth b ≤ o.max_rows
      → depth (step o e b) ≤ o.max_rows
  unfolding step begin_drain depth
  depth-step-le o (adds row start) b h = depth-add-le o start row b h
  depth-step-le o (flushes start) b h = omega (arith, depth-flush_batch-le start b)
  depth-step-le o (settles i outcome) b h = omega (arith, depth-settle-le i outcome b)
  depth-step-le o (drains start) b h =
      omega (arith, depth-flush_batch-le start (record b { draining = true }))

  -- However the event loop interleaves adds, flushes, settlements and a drain, a buffer that starts
  -- within `maxRows` rows, queued and in flight together, never holds more.
  pub depth-run-le :
      (o : Options) (es : List (Event A)) (b : Buffer A)
      → depth b ≤ o.max_rows
      → depth (run o es b) ≤ o.max_rows
  unfolding run
  depth-run-le o [] b h = h
  depth-run-le o (e ∷ es) b h = depth-run-le o es (step o e b) (depth-step-le o e b h)

  -- A weight of rows, summed over every place that a row can be in.
  module _ (w : A → ℕ) where
    abbrev pub total : List A → ℕ
    total [] = 0
    total (x ∷ xs) = w x + total xs

    abbrev pub total_batches : List (Batch A) → ℕ
    total_batches [] = 0
    total_batches (b ∷ bs) = total b.rows + total_batches bs

    abbrev pub holdings : Buffer A → ℕ
    holdings b = total b.rows + total_batches b.in_flight + total b.written + total b.lost

    total-append : (xs ys : List A) → total (xs ++ ys) ≡ total xs + total ys
    total-append [] ys = omega arith
    total-append (x ∷ xs) ys = omega (arith, total-append xs ys)

    total_batches-append :
        (xs ys : List (Batch A)) → total_batches (xs ++ ys) ≡ total_batches xs + total_batches ys
    total_batches-append [] ys = omega arith
    total_batches-append (x ∷ xs) ys = omega (arith, total_batches-append xs ys)

    total_batches-remove :
        (i : ℕ) (bs : List (Batch A)) (b : Batch A)
        → find i bs ≡ some b
        → total_batches (remove i bs) + total b.rows ≡ total_batches bs
    unfolding find remove
    total_batches-remove i [] b h = cc
    total_batches-remove i (x ∷ bs) b h = ground (arith, total_batches-remove i bs b)

    holdings-begin_batch :
        (start : InsertStart) (rows : List A) (b : Buffer A)
        → b.rows ≡ rows
        → holdings (begin_batch start rows b) ≡ holdings b
    holdings-begin_batch start [] b h = refl
    holdings-begin_batch awaits (r ∷ rows) b h = omega (
      arith,
      total_batches-append b.in_flight (record { id = b.next_id; rows = r ∷ rows } ∷ []),
      ap total h,
    )
    holdings-begin_batch throws (r ∷ rows) b h =
        omega (arith, total-append b.lost (r ∷ rows), ap total h)

    holdings-flush_batch :
        (start : InsertStart) (b : Buffer A) → holdings (flush_batch start b) ≡ holdings b
    unfolding flush_batch
    holdings-flush_batch start b = holdings-begin_batch start b.rows b refl

    holdings-log :
        (outcome : Outcome) (rows : List A) (b : Buffer A)
        → holdings (log outcome rows b) ≡ holdings b + total rows
    holdings-log flushed rows b = omega (arith, total-append b.written rows)
    holdings-log dropped rows b = omega (arith, total-append b.lost rows)

    holdings-settle :
        (i : ℕ) (outcome : Outcome) (b : Buffer A) → holdings (settle i outcome b) ≡ holdings b
    holdings-settle i outcome b =
        settle_cases (λ b'. holdings b' ≡ holdings b) i outcome b refl
          λ batch e. omega (
            arith,
            total_batches-remove i b.in_flight batch e,
            holdings-log outcome batch.rows (record b { in_flight = remove i b.in_flight }),
          )

    holdings-step :
        (o : Options) (e : Event A) (b : Buffer A)
        → holdings (step o e b) ≡ holdings b + total (accepted o e b)
    unfolding step begin_drain accepted add
    holdings-step o (adds row start) b = ground (
      arith,
      holdings-flush_batch start (record b { rows = b.rows ++ row ∷ [] }),
      total-append b.rows (row ∷ []),
    )
    holdings-step o (flushes start) b = omega (arith, holdings-flush_batch start b)
    holdings-step o (settles i outcome) b = omega (arith, holdings-settle i outcome b)
    holdings-step o (drains start) b =
        omega (arith, holdings-flush_batch start (record b { draining = true }))

    -- No row is lost, made up or counted twice: whatever a row weighs, the rows queued, in flight,
    -- written and lost weigh what the rows accepted weigh, after every interleaving.
    pub holdings-run :
        (o : Options) (es : List (Event A)) (b : Buffer A)
        → holdings (run o es b) ≡ holdings b + total (all_accepted o es b)
    unfolding run all_accepted
    holdings-run o [] b = omega arith
    holdings-run o (e ∷ es) b = omega (
      arith,
      holdings-run o es (step o e b),
      holdings-step o e b,
      total-append (accepted o e b) (all_accepted o es (step o e b)),
    )
