-- ===== src/Funnels/Levels/Branches.antt =====
-- packages/core/src/funnels/levels.ts: what `summarise` says of an optional step.
use lyraflow.Prelude.{
  ℕ, ◌+◌, ◌≤◌, ◌<◌, ◌≡◌, refl, ap, ◌∙◌, true, some, List, [], ◌∷◌, ◌++◌, arith, length, get_elem?,
  nat_eq, string_eq,
}
use lyraflow.Funnels.Spine.{FunnelStep, funnel_spine}
use lyraflow.Funnels.Spine.Placements.{
  count_required, count_optional, placed, length-optional, count_required-append,
}
use lyraflow.Funnels.Levels.{
  LevelRow, subtract, StepResult, Totals, zeros, rate, branch_result, step_result, summarise,
}
use lyraflow.Funnels.Levels.Reached.{
  reached, branch_people, get_or-optional_totals, get_or-continued_totals,
}
use lyraflow.Funnels.Levels.Arrays.{get_or-zeros, length-zeros}
use lyraflow.Funnels.Levels.Steps.{zero_totals, totals_of, at_least-reached, get_elem?-summarise}

optional_result :
    (al : List ℕ) (t : Totals) (i r o : ℕ) (step : FunnelStep)
    → step.is_optional ≡ true
    → step_result al t i step (some (placed i r o step))
      ≡ branch_result al t i step r (record { index = o; level = r + 1 })
optional_result al t i r o step opt = rw opt refl

abbrev branch_step : ℕ → FunnelStep → ℕ → ℕ → ℕ → ℕ → StepResult
branch_step i step people branch_point entered continued = record {
  index = i + 1;
  event = step.event;
  people = people;
  from_previous = rate people branch_point;
  from_start = rate people entered;
  optional = some (record { skipped = subtract branch_point people; continued = continued });
}

branch_step_same :
    (i : ℕ) (step : FunnelStep) {a b c d e f g h : ℕ}
    → a ≡ b
    → c ≡ d
    → e ≡ f
    → g ≡ h
    → branch_step i step a c e g ≡ branch_step i step b d f h
branch_step_same i step hab hcd hef hgh = rw (hab, hcd, hef, hgh) refl

count_optional-lt :
    (before : List FunnelStep) (step : FunnelStep) (after : List FunnelStep)
    → step.is_optional ≡ true
    → count_optional before < count_optional (before ++ step ∷ after)
unfolding count_optional
count_optional-lt [] step after opt = ground arith
count_optional-lt (x ∷ before) step after opt =
    omega (arith, count_optional-lt before step after opt)

count_required-le :
    (before : List FunnelStep) (step : FunnelStep) (after : List FunnelStep)
    → count_required before ≤ count_required (before ++ step ∷ after)
count_required-le before step after = omega (arith, count_required-append before (step ∷ after))

-- The step after the given ones, if it is optional and a required step comes before it, has as its
-- people the sum of what the rows say reached its branch; those it skips are the rest of the people who
-- got as far as the required step before it, against whom it is rated.
pub summarise_optional :
    (rows : List LevelRow) (before : List FunnelStep) (step : FunnelStep) (after : List FunnelStep)
    → step.is_optional ≡ true
    → 1 ≤ count_required before
    → get_elem? (summarise rows (before ++ step ∷ after)).steps (length before)
      ≡ some (record {
        index = length before + 1;
        event = step.event;
        people = branch_people (λ r. r.optional_reached) (count_optional before) rows;
        from_previous =
            rate
              (branch_people (λ r. r.optional_reached) (count_optional before) rows)
              (reached (count_required before) rows);
        from_start =
            rate
              (branch_people (λ r. r.optional_reached) (count_optional before) rows)
              (reached 1 rows);
        optional = some (record {
          skipped =
              subtract
                (reached (count_required before) rows)
                (branch_people (λ r. r.optional_reached) (count_optional before) rows);
          continued = branch_people (λ r. r.optional_continued) (count_optional before) rows;
        });
      })
summarise_optional rows before step after opt some_required =
    get_elem?-summarise rows before step after
    ∙ ap some (
        optional_result _ (totals_of rows steps) (length before) (count_required before)
          (count_optional before) step opt
        ∙ branch_step_same (length before) step
            (omega (
              arith,
              get_or-optional_totals (length (funnel_spine steps).required) (count_optional before)
                  rows (zero_totals steps) (omega (arith, in_range)),
              get_or-zeros (length (funnel_spine steps).optional) (count_optional before),
            ))
            (ground (
              arith,
              at_least-reached (count_required before) rows steps some_required
                  (count_required-le before step after),
            ))
            (at_least-reached 1 rows steps (omega arith)
              (omega (arith, count_required-le before step after)))
            (omega (
              arith,
              get_or-continued_totals (length (funnel_spine steps).required) (count_optional before)
                  rows (zero_totals steps) (omega (arith, in_range)),
              get_or-zeros (length (funnel_spine steps).optional) (count_optional before),
            )))
  where
    steps : List FunnelStep
    steps = before ++ step ∷ after

    in_range : count_optional before < length (zeros (length (funnel_spine steps).optional))
    in_range = omega (
      arith,
      count_optional-lt before step after opt,
      length-optional steps,
      length-zeros (length (funnel_spine steps).optional),
    )
