-- ===== src/Funnels/Validate/Tests.antt =====
-- Runs of packages/core/src/funnels/validate.ts.
use lyraflow.Prelude.Decimal.{units_eq}
use lyraflow.Prelude.Texts.{codes}
use lyraflow.Segments.Syntax.{FilterNode, AnyValueClause, SetOperator}
use lyraflow.Segments.Validate.{validate_tree, check, walk, count_behaviour_nodes, tally_behaviors}
use lyraflow.Funnels.Syntax.{FunnelStep, FunnelDefinition}
use lyraflow.Funnels.Validate.{
  validate_funnel, count_audiences, optional_count, first_optional, validate_range, range_too_long,
}
use lyraflow.Funnels.Validate.Caps.{
  HasShape, WithinCaps, behaviors_of_all, required_count, validate_funnel_iff,
  validate_funnel-required_count,
}
use lyraflow.Prelude.{
  ℕ, ◌≤◌, ◌≡◌, refl, ◌↔◌, true, false, none, some, [], ◌∷◌, arith, All, nat_eq, string_eq,
}

abbrev visit : FunnelStep ℕ
visit = record { event = codes "visit"; where_ = []; audience = none; optional = false }

abbrev coupon : FunnelStep ℕ
coupon = record {
  event = codes "coupon";
  where_ = [];
  audience = some (
      FilterNode.trait
        (record { key = codes "plan"; clause = AnyValueClause.presence SetOperator.is_set }));
  optional = true;
}

abbrev buy : FunnelStep ℕ
buy = record { event = codes "buy"; where_ = []; audience = none; optional = false }

abbrev shop : FunnelDefinition ℕ
shop = record { steps = visit ∷ coupon ∷ buy ∷ []; window_seconds = 3600; segment_id = none }

runs :
    (validate_funnel shop ≡ none)
    × ((validate_funnel (record shop { steps = coupon ∷ buy ∷ [] }) ≡ some first_optional)
        × (validate_range (record { since = 0; until = 7776000001 }) ≡ some range_too_long))
unfolding validate_funnel optional_count count_audiences validate_tree check walk validate_range
    count_behaviour_nodes tally_behaviors
runs = (refl, (refl, refl))

validate_funnel_iff_example : (validate_funnel shop ≡ none) ↔ (
    HasShape shop
    × (All (λ s. WithinCaps s.audience) shop.steps × (behaviors_of_all shop.steps ≤ 25)))
validate_funnel_iff_example = validate_funnel_iff shop

validate_funnel-required_count_example : 2 ≤ required_count shop.steps
validate_funnel-required_count_example = validate_funnel-required_count shop runs.0 (omega arith)
