-- ===== src/Funnels/Levels/Steps.antt =====
-- packages/core/src/funnels/levels.ts: what `summarise` says of each step, by its place among the steps.
use lyraflow.Prelude.{
  ℕ, ◌+◌, ◌-◌, ◌≤◌, max, ◌≡◌, refl, ap, ◌∙◌, inl, inr, false, none, some, List, [], ◌∷◌, ◌++◌,
  arith, leb, Bool-cases, length, get_elem?, get_or, nat_eq, string_eq,
}
use lyraflow.Funnels.Spine.{FunnelStep, StepPlacement, funnel_spine}
use lyraflow.Funnels.Spine.Placements.{
  count_required, count_optional, placed, get_elem?-placements, length-required,
  count_required-append,
}
use lyraflow.Funnels.Levels.{
  LevelRow, StepResult, Totals, zeros, add_rows, suffix_sum, rate, spine_result, step_result,
  step_results, summarise,
}
use lyraflow.Funnels.Levels.Reached.{reached, get_or-at_least}

get_elem?-step_results :
    (al : List ℕ) (t : Totals) (ps : List StepPlacement) (i : ℕ) (before : List FunnelStep)
    (step : FunnelStep) (after : List FunnelStep)
    → get_elem? (step_results al t ps i (before ++ step ∷ after)) (length before)
      ≡ some (step_result al t (i + length before) step (get_elem? ps (i + length before)))
unfolding step_results
get_elem?-step_results al t ps i [] step after =
    ap (λ j. some (step_result al t j step (get_elem? ps j))) (omega arith)
get_elem?-step_results al t ps i (x ∷ before) step after =
    get_elem?-step_results al t ps (i + 1) before step after
    ∙ ap (λ j. some (step_result al t j step (get_elem? ps j))) (omega arith)

-- The array and the totals that `summarise` works with.
abbrev pub zero_totals : List FunnelStep → Totals
zero_totals steps = record {
  stopped_at = zeros (length (funnel_spine steps).required + 2);
  optional_totals = zeros (length (funnel_spine steps).optional);
  continued_totals = zeros (length (funnel_spine steps).optional);
  partial = 0;
}

abbrev pub totals_of : List LevelRow → List FunnelStep → Totals
totals_of rows steps = add_rows (length (funnel_spine steps).required) rows (zero_totals steps)

abbrev pub at_least_of : List LevelRow → List FunnelStep → List ℕ
at_least_of rows steps =
    suffix_sum (totals_of rows steps).stopped_at (length (funnel_spine steps).required)
      (zeros (length (funnel_spine steps).required + 2))

pub at_least-reached :
    (k : ℕ) (rows : List LevelRow) (steps : List FunnelStep)
    → 1 ≤ k
    → k ≤ count_required steps
    → get_or (at_least_of rows steps) k 0 ≡ reached k rows
at_least-reached k rows steps above le =
    get_or-at_least (length (funnel_spine steps).required) k rows _ refl above
      (omega (arith, length-required steps))

pub get_elem?-summarise :
    (rows : List LevelRow) (before : List FunnelStep) (step : FunnelStep) (after : List FunnelStep)
    → get_elem? (summarise rows (before ++ step ∷ after)).steps (length before)
      ≡ some (
          step_result
            (at_least_of rows (before ++ step ∷ after))
            (totals_of rows (before ++ step ∷ after))
            (length before)
            step
            (some (placed (length before) (count_required before) (count_optional before) step)))
unfolding summarise
get_elem?-summarise rows before step after =
    get_elem?-step_results _ _ (funnel_spine (before ++ step ∷ after)).placements 0 before step
      after
    ∙ ap
        (λ j. some (
          step_result (at_least_of rows (before ++ step ∷ after))
            (totals_of rows (before ++ step ∷ after)) j step
            (get_elem? (funnel_spine (before ++ step ∷ after)).placements j)))
        (omega arith)
    ∙ ap
        (λ p. some (
          step_result (at_least_of rows (before ++ step ∷ after))
            (totals_of rows (before ++ step ∷ after)) (length before) step p))
        (get_elem?-placements before step after)

abbrev spine_step : ℕ → FunnelStep → ℕ → ℕ → ℕ → StepResult
spine_step i step people previous entered = record {
  index = i + 1;
  event = step.event;
  people = people;
  from_previous = rate people previous;
  from_start = rate people entered;
  optional = none;
}

spine_step_same :
    (i : ℕ) (step : FunnelStep) {a b c d e f : ℕ}
    → a ≡ b
    → c ≡ d
    → e ≡ f
    → spine_step i step a c e ≡ spine_step i step b d f
spine_step_same i step hab hcd hef = rw (hab, hcd, hef) refl

required_result :
    (al : List ℕ) (t : Totals) (i r o : ℕ) (step : FunnelStep)
    → step.is_optional ≡ false
    → step_result al t i step (some (placed i r o step)) ≡ spine_result al i step (r + 1)
required_result al t i r o step req = rw req refl

rank-le :
    (before : List FunnelStep) (step : FunnelStep) (after : List FunnelStep)
    → step.is_optional ≡ false
    → count_required before + 1 ≤ count_required (before ++ step ∷ after)
unfolding count_required
rank-le before step after req = ground (arith, count_required-append before (step ∷ after))

ranked :
    (rows : List LevelRow) (before : List FunnelStep) (step : FunnelStep) (after : List FunnelStep)
    → step.is_optional ≡ false
    → spine_result
        (at_least_of rows (before ++ step ∷ after))
        (length before)
        step
        (count_required before + 1)
      ≡ spine_step
          (length before)
          step
          (reached (count_required before + 1) rows)
          (reached (max 1 (count_required before)) rows)
          (reached 1 rows)
ranked rows before step after req =
    let steps = before ++ step ∷ after in
    let enough = rank-le before step after req in
    spine_step_same (length before) step
      (at_least-reached (count_required before + 1) rows steps (omega arith) enough)
      (elim (Bool-cases (leb (count_required before + 1) 1)) [
        | inl first ↦
            let one : max 1 (count_required before) ≡ count_required before + 1 = ground arith in
            rw (first, one)
              (at_least-reached (count_required before + 1) rows steps (omega arith) enough)
        | inr later ↦
            let same : max 1 (count_required before) ≡ count_required before + 1 - 1 =
              ground arith in
            rw (later, same)
              (at_least-reached (count_required before + 1 - 1) rows steps (ground arith)
                (omega (arith, enough)))
      ])
      (at_least-reached 1 rows steps (omega arith) (omega (arith, enough)))

-- The step after the given ones, if it is required, has as its people those who got as far as its rank
-- among the required steps, and it is rated against those who got as far as the rank before it, or
-- against itself if it is the first, and against those who entered.
pub summarise_required :
    (rows : List LevelRow) (before : List FunnelStep) (step : FunnelStep) (after : List FunnelStep)
    → step.is_optional ≡ false
    → get_elem? (summarise rows (before ++ step ∷ after)).steps (length before)
      ≡ some (record {
        index = length before + 1;
        event = step.event;
        people = reached (count_required before + 1) rows;
        from_previous =
            rate
              (reached (count_required before + 1) rows)
              (reached (max 1 (count_required before)) rows);
        from_start = rate (reached (count_required before + 1) rows) (reached 1 rows);
        optional = none;
      })
summarise_required rows before step after req =
    get_elem?-summarise rows before step after
    ∙ ap some (
        required_result _ (totals_of rows (before ++ step ∷ after)) (length before)
          (count_required before) (count_optional before) step req
        ∙ ranked rows before step after req)
