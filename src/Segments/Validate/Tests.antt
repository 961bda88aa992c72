-- ===== src/Segments/Validate/Tests.antt =====
-- Runs of packages/core/src/segments/validate.ts.
use lyraflow.Prelude.Decimal.{decimal, print, units_eq, units_beq}
use lyraflow.Prelude.Texts.{codes}
use lyraflow.Segments.Syntax.{
  ComparisonOperator, Scalar, Comparison, Window, Aggregate, GroupOp, FilterNode, FilterNodes,
  SegmentQuery,
}
use lyraflow.Segments.Validate.{
  too_deep, failure, validate_tree, check, walk, cost_warnings, warn, node_warnings, ever_warning,
  any_event_warning,
}
use lyraflow.Segments.Validate.Counts.{nodes_in, levels_below, behaviors_in}
use lyraflow.Segments.Validate.Caps.{validate_tree_iff}
use lyraflow.Segments.Validate.Costs.{behaviors_at, costs_of_all, cost_warnings_lem}
use lyraflow.Prelude.{
  ℕ, zero, suc, ◌≤◌, ◌<◌, ◌≡◌, refl, ◌↔◌, none, some, [], ◌∷◌, map, nat_eq, string_eq,
}

-- Any event, ever: both warnings.
abbrev anything : FilterNode ℕ
anything = FilterNode.behavior (record {
  identity = 1;
  event = codes "*";
  where_ = [];
  aggregate = Aggregate.count;
  window = Window.ever;
  comparison = Comparison.single ComparisonOperator.ge (Scalar.number 1);
})

-- `not` around `not` and so on around the behaviour.
nested : ℕ → FilterNode ℕ
nested zero = anything
nested (suc n) = FilterNode.negation (nested n)

abbrev deep : SegmentQuery ℕ
deep = record { filter = nested 10 }

abbrev shallow : SegmentQuery ℕ
shallow = record { filter = nested 9 }

results : (validate_tree shallow ≡ none) × (validate_tree deep ≡ some (failure too_deep))
unfolding validate_tree check walk nested
results = (refl, refl)

validate_tree_iff_example : (validate_tree shallow ≡ none) ↔ (
    (levels_below (nested 9) < 10) × ((nodes_in (nested 9) ≤ 100) × (behaviors_in (nested 9) ≤ 25)))
validate_tree_iff_example = validate_tree_iff shallow

-- The second child of a group is what is named.
abbrev pair : SegmentQuery ℕ
pair = record {
  filter = FilterNode.group GroupOp.and (
      FilterNodes.cons (nested 0)
        (FilterNodes.cons (FilterNode.negation anything) FilterNodes.nil));
}

named :
    map (λ w. w.path) (cost_warnings pair)
    ≡ codes "filter.children[0]"
      ∷ codes "filter.children[0]"
      ∷ codes "filter.children[1].child"
      ∷ codes "filter.children[1].child"
      ∷ []
unfolding cost_warnings warn node_warnings walk nested codes units_beq decimal print ever_warning
    any_event_warning
named = refl

cost_warnings_lem_example :
    cost_warnings pair ≡ costs_of_all (codes "filter") (behaviors_at pair.filter)
cost_warnings_lem_example = cost_warnings_lem pair
