-- ===== src/Ingest/Counters/Kept.antt =====
-- packages/server/src/ingest/counters.ts: the counts in memory, in the running flushes and in the table,
-- over a run.
use lyraflow.Prelude.{
  ℕ, zero, suc, ◌+◌, ◌≡◌, refl, ap, ◌∙◌, inl, inr, Bool, true, false, ◌&&◌, Option, none, some,
  List, [], ◌∷◌, ◌++◌, arith, if◌then◌else◌, Option-cases, ◌==◌, ==_iff, nat_eq, string_eq,
}
use lyraflow.Prelude.Orders.{Units}
use lyraflow.Prelude.Decimal.{tagged, units_eq}
use lyraflow.JsMap.{get}
use lyraflow.JsMap.Unique.{IsUnique}
use lyraflow.Ingest.Counters.{
  Kind, empty_tally, count_of, count_in, bump, plus, Entry, Tallies, Counters, current_month,
  record_events, look, values, take_pending, begin_flush, write_entry, advance, behind, settle,
  Event, records, flushes, settles, step, run,
}
use lyraflow.Ingest.Counters.Changes.{
  tagged-eq, share, count_of-plus, count_of-bump, look-change, IsKeyed, IsKept, change-IsKeyed,
  change-IsUnique,
}

write_entry-IsKept : (ok : Bool) (e : Entry) (c : Counters) → IsKept c → IsKept (write_entry ok e c)
unfolding write_entry
write_entry-IsKept true e c h = h
write_entry-IsKept false e c (u, k) =
    (change-IsUnique _ _ _ c.tallies u, change-IsKeyed _ _ _ c.tallies k)

pub settle_cases {ℓ} :
    (P : Counters → Type ℓ) (i : ℕ) (ok : Bool) (c : Counters)
    → P c
    → ((e : Entry) (rest : List (List Entry))
        → advance i c.running ≡ some (e, rest)
        → P (write_entry ok e (record c { running = rest })))
    → P (settle i ok c)
unfolding settle
settle_cases P i ok c idle one = elim (Option-cases (advance i c.running)) [
  | inl none_left ↦ rw (none_left, settle) idle
  | inr ((e, rest), some_left) ↦ rw (some_left, settle) (one e rest some_left)
]

begin_flush-IsKept : (c : Counters) → IsKept c → IsKept (begin_flush c)
unfolding begin_flush
begin_flush-IsKept c h = go c.tallies
  where
    go : (m : Tallies) → IsKept (take_pending m c)
    go [] = h
    go (b ∷ m) = (tt, tt)

pub step-IsKept : (e : Event) (c : Counters) → IsKept c → IsKept (step e c)
unfolding step record_events
step-IsKept (records iso p kind n) c (u, k) =
    (change-IsUnique _ _ _ c.tallies u, change-IsKeyed _ _ _ c.tallies k)
step-IsKept flushes c h = begin_flush-IsKept c h
step-IsKept (settles i ok) c h =
    settle_cases IsKept i ok c h λ e rest left. write_entry-IsKept ok e _ h

module _ (kind : Kind) (p : ℕ) (m : Units) where
  unfoldable pub weigh : List Entry → ℕ
  weigh [] = 0
  weigh (e ∷ es) = share kind p m e.project_id e.month e.tally + weigh es

  -- What the running flushes have still to write.
  unfoldable pub in_flight : List (List Entry) → ℕ
  in_flight [] = 0
  in_flight (f ∷ fs) = weigh f + in_flight fs

  weigh-values : (es : Tallies) → IsUnique es → IsKeyed es → weigh (values es) ≡ look kind p m es
  unfolding weigh look get
  weigh-values [] u hs = refl
  weigh-values ((k, e) ∷ es) (new, u) (h, hs) =
      rw (h, tagged-eq) (ground (arith, weigh-values es u hs, ap (count_in kind) new, alone))
    where
      alone : (e.project_id == p && e.month == m) ≡ true → look kind p m es ≡ 0
      alone same = ap (count_in kind) (
          ap (λ j. get j es)
            (ground (
              arith,
              h,
              tagged-eq e.project_id p e.month m,
              ==_iff (tagged e.project_id e.month) (tagged p m),
            ))
          ∙ new)

  in_flight-append :
      (fs gs : List (List Entry)) → in_flight (fs ++ gs) ≡ in_flight fs + in_flight gs
  unfolding in_flight
  in_flight-append [] gs = omega arith
  in_flight-append (f ∷ fs) gs = omega (arith, in_flight-append fs gs)

  in_flight-advance :
      (i : ℕ) (fs rest : List (List Entry)) (e : Entry)
      → advance i fs ≡ some (e, rest)
      → in_flight rest + share kind p m e.project_id e.month e.tally ≡ in_flight fs
  unfolding in_flight advance weigh
  in_flight-advance i [] rest e h = cc
  in_flight-advance zero ([] ∷ fs) rest e h = cc
  in_flight-advance zero ((x ∷ es) ∷ fs) rest e h = ground (arith, h)
  in_flight-advance (suc i) (f ∷ fs) rest e h =
      later (advance i fs) (λ x kept. in_flight-advance i fs kept x) h
    where
      later :
          (o : Option (Entry × List (List Entry)))
          → ((x : Entry) (kept : List (List Entry))
              → o ≡ some (x, kept)
              → in_flight kept + share kind p m x.project_id x.month x.tally ≡ in_flight fs)
          → behind f o ≡ some (e, rest)
          → in_flight rest + share kind p m e.project_id e.month e.tally ≡ weigh f + in_flight fs
      later none all_kept h = cc
      later (some (x, kept)) all_kept h = ground (arith, all_kept x kept refl, h)

  -- What the table, the pending tallies and the running flushes hold of a project-month.
  unfoldable pub held : Counters → ℕ
  held c = look kind p m c.rows + (look kind p m c.tallies + in_flight c.running)

  -- What an event records of that kind in that project-month.
  unfoldable pub recorded : Event → ℕ
  recorded (records iso q k n) =
      if q == p && current_month iso == m then count_of kind (bump k n empty_tally) else 0
  recorded flushes = 0
  recorded (settles i ok) = 0

  unfoldable pub all_recorded : List Event → ℕ
  all_recorded [] = 0
  all_recorded (e ∷ es) = recorded e + all_recorded es

  held-write_entry :
      (ok : Bool) (e : Entry) (c : Counters)
      → held (write_entry ok e c) ≡ held c + share kind p m e.project_id e.month e.tally
  unfolding held write_entry
  held-write_entry true e c = omega (
    arith,
    look-change kind (λ t. plus t e.tally) (count_of kind e.tally) p e.project_id m e.month c.rows
        (λ t. count_of-plus kind t e.tally),
  )
  held-write_entry false e c = omega (
    arith,
    look-change kind (λ t. plus t e.tally) (count_of kind e.tally) p e.project_id m e.month
        c.tallies (λ t. count_of-plus kind t e.tally),
  )

  held-begin_flush : (c : Counters) → IsKept c → held (begin_flush c) ≡ held c
  unfolding begin_flush held look get in_flight
  held-begin_flush c h = go c.tallies refl h
    where
      empty : look kind p m [] ≡ 0
      empty = refl

      go :
          (es : Tallies)
          → c.tallies ≡ es
          → IsUnique es × IsKeyed es
          → held (take_pending es c) ≡ held c
      go [] same h = refl
      go (b ∷ es) same (u, hs) = rw same (
          omega (
            arith,
            weigh-values (b ∷ es) u hs,
            in_flight-append c.running (values (b ∷ es) ∷ []),
            empty,
          ))

  held-step : (e : Event) (c : Counters) → IsKept c → held (step e c) ≡ held c + recorded e
  unfolding step held recorded record_events
  held-step (records iso q k n) c h = omega (
    arith,
    look-change kind (bump k n) (count_of kind (bump k n empty_tally)) p q m (current_month iso)
        c.tallies (count_of-bump kind k n),
  )
  held-step flushes c h = omega (arith, held-begin_flush c h)
  held-step (settles i ok) c h =
      settle_cases (λ c'. held c' ≡ held c + 0) i ok c (omega arith)
        λ e rest left. omega (
          arith,
          held-write_entry ok e (record c { running = rest }),
          in_flight-advance i c.running rest e left,
        )

  -- Under every interleaving of records, flushes and statements that succeed or fail, what the
  -- table, the pending tallies and the running flushes hold of a kind in a project-month is what
  -- they held before and what was recorded since: no outcome is lost or counted twice. The pending
  -- tallies are a map whose entries stand under their own keys, as they are in a new process.
  pub held-run :
      (es : List Event) (c : Counters) → IsKept c → held (run es c) ≡ held c + all_recorded es
  unfolding run all_recorded
  held-run [] c h = omega arith
  held-run (e ∷ es) c h = omega (arith, held-run es (step e c) (step-IsKept e c h), held-step e c h)
