-- ===== src/Ingest/Buffer/Drain.antt =====
-- `drain` of packages/server/src/ingest/buffer.ts: what the count that it returns means.
use lyraflow.Prelude.{
  ℕ, ◌+◌, ◌≡◌, refl, ap, ◌∙◌, true, Option, none, some, List, [], ◌∷◌, arith, length, nat_eq,
  string_eq,
}
use lyraflow.Ingest.Buffer.{
  Options, Outcome, flushed, dropped, InsertStart, awaits, throws, Batch, Buffer, DrainResult,
  row_count, depth, begin_batch, flush_batch, add, settle, begin_drain, thrown, outcome_of, tally,
  count_batches, drain, Event, adds, flushes, settles, drains, step, accepted, all_accepted,
}
use lyraflow.Ingest.Buffer.Laws.{row_count-append, settle_cases}

module _ {A : Type 0} where
  count_batches-total :
      (es : List (ℕ × Outcome)) (bs : List (Batch A)) (r : DrainResult)
      → (count_batches es bs r).flushed + (count_batches es bs r).dropped
        ≡ r.flushed + r.dropped + row_count bs
  unfolding count_batches
  count_batches-total es [] r = omega arith
  count_batches-total es (b ∷ bs) r = omega (
    arith,
    count_batches-total es bs (tally (outcome_of b.id es) (length b.rows) r),
    one (outcome_of b.id es),
  )
    where
      one :
          (o : Option Outcome)
          → (tally o (length b.rows) r).flushed + (tally o (length b.rows) r).dropped
            ≡ r.flushed + r.dropped + length b.rows
      one none = omega arith
      one (some flushed) = omega arith
      one (some dropped) = omega arith

  begin_batch_waiting :
      (start : InsertStart) (rows : List A) (b : Buffer A)
      → b.rows ≡ rows
      → row_count (begin_batch start rows b).in_flight + length (thrown start b) ≡ depth b
  unfolding depth thrown
  begin_batch_waiting awaits [] b h = omega (arith, ap length h)
  begin_batch_waiting throws [] b h = omega (arith, ap length h)
  begin_batch_waiting awaits (r ∷ rows) b h = omega (
    arith,
    row_count-append b.in_flight (record { id = b.next_id; rows = r ∷ rows } ∷ []),
    ap length h,
  )
  begin_batch_waiting throws (r ∷ rows) b h = omega arith

  -- Every row that the buffer holds when `drain` is called is counted once, as flushed or as
  -- dropped, whatever settles before the deadline and even when the last insert throws at once.
  pub drain-total :
      (start : InsertStart) (es : List (ℕ × Outcome)) (b : Buffer A)
      → (drain start es b).0.flushed + (drain start es b).0.dropped ≡ depth b
  unfolding drain begin_drain flush_batch thrown depth
  drain-total awaits es b = omega (
    arith,
    count_batches-total es (begin_drain awaits b).in_flight (record { flushed = 0; dropped = 0 }),
    begin_batch_waiting awaits b.rows (record b { draining = true }) refl,
  )
  drain-total throws es b = omega (
    arith,
    count_batches-total es (begin_drain throws b).in_flight
        (record { flushed = 0; dropped = length b.rows }),
    begin_batch_waiting throws b.rows (record b { draining = true }) refl,
  )

  draining-begin_batch :
      (start : InsertStart) (rows : List A) (b : Buffer A)
      → (begin_batch start rows b).draining ≡ b.draining
  draining-begin_batch start [] b = refl
  draining-begin_batch awaits (r ∷ rows) b = refl
  draining-begin_batch throws (r ∷ rows) b = refl

  draining-settle :
      (i : ℕ) (outcome : Outcome) (b : Buffer A) → (settle i outcome b).draining ≡ b.draining
  draining-settle i flushed b =
      settle_cases (λ b'. b'.draining ≡ b.draining) i flushed b refl (λ batch e. refl)
  draining-settle i dropped b =
      settle_cases (λ b'. b'.draining ≡ b.draining) i dropped b refl (λ batch e. refl)

  refused_when_draining :
      (o : Options) (es : List (Event A)) (b : Buffer A)
      → b.draining ≡ true
      → all_accepted o es b ≡ []
  unfolding all_accepted accepted add step begin_drain flush_batch
  refused_when_draining o [] b h = refl
  refused_when_draining o (adds row start ∷ es) b h = ground (arith, refused_when_draining o es b)
  refused_when_draining o (flushes start ∷ es) b h =
      refused_when_draining o es (flush_batch start b) (draining-begin_batch start b.rows b ∙ h)
  refused_when_draining o (settles i outcome ∷ es) b h =
      refused_when_draining o es (settle i outcome b) (draining-settle i outcome b ∙ h)
  refused_when_draining o (drains start ∷ es) b h =
      refused_when_draining o es (begin_drain start b)
        (draining-begin_batch start b.rows (record b { draining = true }))

  -- Once a drain has begun no row is accepted, whatever follows.
  pub all_accepted-begin_drain :
      (o : Options) (start : InsertStart) (es : List (Event A)) (b : Buffer A)
      → all_accepted o es (begin_drain start b) ≡ []
  unfolding begin_drain flush_batch
  all_accepted-begin_drain o start es b =
      refused_when_draining o es (begin_drain start b)
        (draining-begin_batch start b.rows (record b { draining = true }))
