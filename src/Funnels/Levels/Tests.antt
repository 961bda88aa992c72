-- ===== src/Funnels/Levels/Tests.antt =====
-- Runs of packages/core/src/funnels at concrete inputs.
use lyraflow.Prelude.{
  ◌≡◌, refl, true, false, none, some, List, [], ◌∷◌, map, arith, get_elem?, nat_eq, string_eq,
}
use lyraflow.Funnels.Spine.{FunnelStep, funnel_spine, place_all}
use lyraflow.Funnels.Spine.Placements.{count_required, count_optional}
use lyraflow.Funnels.Levels.{
  LevelRow, subtract, rate, zeros, add_at, set_at, add_each, add_rows, suffix_sum, step_results,
  summarise,
}
use lyraflow.Funnels.Levels.Reached.{reached, branch_people}
use lyraflow.Funnels.Levels.Steps.{summarise_required}
use lyraflow.Funnels.Levels.Branches.{summarise_optional}

abbrev visit : FunnelStep
visit = record { event = "visit"; is_optional = false }

abbrev coupon : FunnelStep
coupon = record { event = "coupon"; is_optional = true }

abbrev buy : FunnelStep
buy = record { event = "buy"; is_optional = false }

-- Ten people stopped at the visit, four of them with a coupon, and five bought, three with one.
abbrev histogram : List LevelRow
histogram =
    record {
      level = 1;
      people = 10;
      partial = 2;
      optional_reached = some (4 ∷ []);
      optional_continued = some (0 ∷ []);
    }
    ∷ record {
      level = 2;
      people = 5;
      partial = 0;
      optional_reached = some (3 ∷ []);
      optional_continued = some (3 ∷ []);
    }
    ∷ record {
      level = 0;
      people = 100;
      partial = 9;
      optional_reached = none;
      optional_continued = none;
    }
    ∷ []

counts :
    map (λ r. r.people) (summarise histogram (visit ∷ coupon ∷ buy ∷ [])).steps ≡ 15 ∷ 7 ∷ 5 ∷ []
unfolding summarise funnel_spine place_all zeros add_at set_at add_each add_rows suffix_sum
    step_results
counts = refl

summarise_required_example :
    get_elem? (summarise histogram (visit ∷ coupon ∷ buy ∷ [])).steps 2
    ≡ some (record {
      index = 3;
      event = "buy";
      people = 5;
      from_previous = rate 5 15;
      from_start = rate 5 15;
      optional = none;
    })
unfolding reached count_required
summarise_required_example = summarise_required histogram (visit ∷ coupon ∷ []) buy [] refl

summarise_optional_example :
    get_elem? (summarise histogram (visit ∷ coupon ∷ buy ∷ [])).steps 1
    ≡ some (record {
      index = 2;
      event = "coupon";
      people = 7;
      from_previous = rate 7 15;
      from_start = rate 7 15;
      optional = some (record { skipped = subtract 15 7; continued = 3 });
    })
unfolding reached count_required count_optional branch_people
summarise_optional_example =
    summarise_optional histogram (visit ∷ []) coupon (buy ∷ []) refl (omega arith)
