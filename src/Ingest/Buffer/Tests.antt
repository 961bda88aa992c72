-- ===== src/Ingest/Buffer/Tests.antt =====
-- packages/server/src/ingest/buffer.ts: concrete runs of the buffer.
use lyraflow.Prelude.{
  ℕ, ◌+◌, ◌≤◌, ◌≡◌, refl, false, List, [], ◌∷◌, arith, length, nat_eq, string_eq,
}
use lyraflow.Ingest.Buffer.{
  Options, flushed, dropped, awaits, throws, Buffer, depth, flush_batch, add, find, remove, settle,
  begin_drain, thrown, settle_all, outcome_of, count_batches, drain, Event, adds, settles, step,
  run, accepted, all_accepted,
}
use lyraflow.Ingest.Buffer.Laws.{total, holdings, holdings-run, depth-run-le}
use lyraflow.Ingest.Buffer.Drain.{drain-total}
use lyraflow.Ingest.Buffer.Written.{drain-written}

-- What a run computes with.
buffer : Unit {0}
unfolding depth flush_batch add find remove settle begin_drain thrown settle_all outcome_of
    count_batches drain step run accepted all_accepted
buffer = tt

abbrev small : Options
small = record { flush_rows = 2; max_rows = 3 }

abbrev empty : Buffer ℕ
empty = record { rows = []; draining = false; in_flight = []; next_id = 0; written = []; lost = [] }

-- Two rows detach into a batch, a third is queued, a fourth is refused until the batch settles.
abbrev busy : List (Event ℕ)
busy =
    adds 7 awaits
    ∷ adds 8 awaits
    ∷ adds 9 awaits
    ∷ adds 10 awaits
    ∷ settles 0 flushed
    ∷ adds 11 throws
    ∷ []

busy-run : run small busy empty ≡ record {
  rows = [];
  draining = false;
  in_flight = [];
  next_id = 2;
  written = 7 ∷ 8 ∷ [];
  lost = 9 ∷ 11 ∷ [];
}
unfolding buffer
busy-run = refl

abbrev waiting : Buffer ℕ
waiting = record {
  rows = 5 ∷ [];
  draining = false;
  in_flight = record { id = 0; rows = 3 ∷ 4 ∷ [] } ∷ record { id = 1; rows = 6 ∷ [] } ∷ [];
  next_id = 2;
  written = [];
  lost = [];
}

drain_run :
    (drain awaits ((1, flushed) ∷ (0, dropped) ∷ []) waiting).0
    ≡ record { flushed = 1; dropped = 3 }
unfolding buffer
drain_run = refl

holdings-run_example :
    holdings (λ n. n) (run small busy empty)
    ≡ holdings (λ n. n) empty + total (λ n. n) (all_accepted small busy empty)
holdings-run_example = holdings-run (λ n. n) small busy empty

depth-run-le_example : depth (run small busy waiting) ≤ 4
unfolding buffer
depth-run-le_example =
    depth-run-le (record { flush_rows = 2; max_rows = 4 }) busy waiting (omega arith)

drain-total_example :
    (drain throws ((1, flushed) ∷ []) waiting).0.flushed
      + (drain throws ((1, flushed) ∷ []) waiting).0.dropped
    ≡ depth waiting
drain-total_example = drain-total throws ((1, flushed) ∷ []) waiting

drain-written_example :
    length (drain awaits ((1, flushed) ∷ []) waiting).1.written
    ≡ length waiting.written + (drain awaits ((1, flushed) ∷ []) waiting).0.flushed
unfolding buffer
drain-written_example =
    drain-written awaits ((1, flushed) ∷ []) waiting (omega arith, refl, (omega arith, refl, tt))
