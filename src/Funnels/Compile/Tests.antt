-- ===== src/Funnels/Compile/Tests.antt =====
-- Runs of packages/core/src/funnels/compile.ts on a funnel with an optional step that has an audience.
use lyraflow.Segments.Samples.{clock, hostile}
use lyraflow.Segments.Operators.{
  is_numeric, operator_text, context_name, event_column, lifecycle_name, text_test, set_expr,
  flag_text, relative_test, as_date,
}
use lyraflow.Segments.Predicates.{
  tree_expr, trait_expr, compare, text_expr, boolean_expr, context_expr, behavior_expr,
  relative_expr, where_predicate, add_instant, lifecycle_expr, tree_exprs,
}
use lyraflow.Segments.Behaviour.{
  behaviour_cte, where_parts, sort_columns, attributes_of, attribute_columns, aggregate_expr,
  window_start, bound_part, condition, aggregates, widest, scan_bound, pass_text, behaviour_pass,
}
use lyraflow.Segments.Base.{
  base_cte, column_of, merge_function, device_merges, merges, latest_columns, first_columns,
  base_text,
}
use lyraflow.Funnels.Spine.{funnel_spine, place_all}
use lyraflow.Prelude.Orders.{Units}
use lyraflow.Prelude.Decimal.{decimal, units_eq, units_beq, print, tagged, starts_with}
use lyraflow.Prelude.Texts.{codes, join}
use lyraflow.JsMap.{get, set, delete, first_key}
use lyraflow.Identity.Resolve.{
  is_safe_identifier, resolved_person_expr, resolved_person_alias, first_stage, resolved_comment,
  two_stages,
}
use lyraflow.Privacy.Suppression.{not_suppressed_expr, suppression_never, not_suppressed_text}
use lyraflow.Segments.Syntax.{ComparisonOperator, Scalar, Comparison, AnyValueClause, FilterNode}
use lyraflow.Segments.Validate.{
  validate_tree, check, walk, count_behaviour_nodes, tally_behaviors, failure, any_event_warning,
  ever_warning, node_warnings, warn, cost_warnings, walk_children,
}
use lyraflow.Segments.Params.{
  Params, Result, ok, throw, new_params, unsafe_identifier, add_value, add, lift, param_name,
  ch_type, placeholder,
}
use lyraflow.Segments.Params.Bound.{IsPositional, Extends, names_below}
use lyraflow.Segments.Params.Dates.{
  ch_date_time, replace_first, is_designator, ends_in_zone, carries_a_zone, is_date_only, zoned,
  window_ms, string_of, lifecycle_instant,
}
use lyraflow.Segments.Replace.{in_tree, in_trees}
use lyraflow.Segments.Compile.{
  CompiledQuery, compile_segment, compile_sql, collect_behaviors, traits_cte, bounded_trait_map,
  member_projection, traits_text, projection, tail_of, query_text, collect_all,
}
use lyraflow.Funnels.Syntax.{FunnelStep, FunnelDefinition}
use lyraflow.Funnels.Validate.{
  Range, validate_funnel, validate_range, optional_count, count_audiences, too_many_steps,
  window_too_long, first_optional, last_optional, too_many_optional, bad_audience,
  too_many_behaviors, empty_range, range_too_long, is_high_volume, volume_warning, range_warning,
  step_warnings, funnel_cost_warnings,
}
use lyraflow.Funnels.Chains.{
  byte_length, bytes_after, unit_bytes, before_branch, branch_chain, full_chain, window_funnel,
  branch_selects, full_selects, per_person, histogram_text, query_too_long, count_text, page_text,
  ids_text, members_text,
}
use lyraflow.Funnels.People.{optional_counts, continued_counts}
use lyraflow.Funnels.Compile.{
  compile_funnel, unless_refused, funnel_sql, add_date, gates, event_placeholder, step_condition,
  later_conditions, all_conditions, pass_and_shape, spine_of, within_size,
}
use lyraflow.Funnels.Compile.Replaced.{IsInjective, in_funnel}
use lyraflow.Funnels.Compile.Injection.{compile_funnel-in_funnel}
use lyraflow.Funnels.Compile.Bound.{
  FunnelReason, compile_funnel-throws, compile_funnel-IsPositional,
}
use lyraflow.Prelude.{
  ℕ, ◌≤◌, ◌≡◌, refl, inl, inr, Bool, true, false, none, some, [], ◌∷◌, arith, Bool-cases, ◌==◌,
  ==_iff, nat_eq, string_eq,
}

abbrev visit : FunnelStep ℕ
visit = record { event = codes "visit"; where_ = []; audience = none; optional = false }

abbrev coupon : FunnelStep ℕ
coupon = record {
  event = codes "coupon";
  where_ = [];
  audience = some (
      FilterNode.trait (record {
        key = codes "plan";
        clause =
            AnyValueClause.compares
              (Comparison.single ComparisonOperator.eq (Scalar.text (codes "pro")));
      }));
  optional = true;
}

abbrev shop : FunnelDefinition ℕ
shop = record { steps = visit ∷ coupon ∷ visit ∷ []; window_seconds = 3600; segment_id = none }

abbrev week : Range
week = record { since = 1000000000; until = 1604800000 }

star-other : (t : Units) → (t == codes "*") ≡ false → (codes "*" == t) ≡ false
star-other t other = ground (arith, ==_iff t (codes "*"), ==_iff (codes "*") t, other)

hostile-IsInjective : IsInjective hostile
unfolding codes units_beq
hostile-IsInjective s t = elim (Bool-cases (s == codes "*")) [
  | inl star ↦ elim (Bool-cases (t == codes "*")) [
    | inl also ↦ rw (star, also) refl
    | inr other ↦ rw ((==_iff s (codes "*")).0 star, other, star-other t other) refl
  ]
  | inr plain ↦ elim (Bool-cases (t == codes "*")) [
    | inl star ↦ rw ((==_iff t (codes "*")).0 star, plain) refl
    | inr other ↦ rw (plain, other) refl
  ]
]

abbrev nothing : CompiledQuery × Params ℕ
nothing = (record { sql = []; warnings = [] }, new_params)

abbrev value_of : Result (CompiledQuery × Params ℕ) → CompiledQuery × Params ℕ
value_of (ok x) = x
value_of (throw e) = nothing

abbrev run : Units → FunnelDefinition ℕ → Result (CompiledQuery × Params ℕ)
run db def = compile_funnel clock db 1700000000 4 def week none none new_params

abbrev returns : Result (CompiledQuery × Params ℕ) → Bool
returns (ok x) = true
returns (throw e) = false

returns-value_of : (x : Result (CompiledQuery × Params ℕ)) → returns x ≡ true → x ≡ ok (value_of x)
returns-value_of (ok x) h = refl
returns-value_of (throw e) h = cc

-- Both funnels compile, and a database with such a name does not.
runs :
    (returns (run (codes "lyraflow") shop) ≡ true)
    × ((returns (run (codes "lyraflow") (in_funnel hostile shop)) ≡ true)
        × (run (codes "a'b") shop ≡ throw (unsafe_identifier (codes "a'b"))))
unfolding spine_of event_placeholder unless_refused within_size gates step_condition
    later_conditions all_conditions add_date pass_and_shape funnel_sql compile_funnel too_many_steps
    window_too_long first_optional last_optional too_many_optional bad_audience too_many_behaviors
    count_audiences optional_count validate_funnel empty_range range_too_long validate_range
    is_high_volume volume_warning range_warning step_warnings funnel_cost_warnings optional_counts
    continued_counts unit_bytes bytes_after byte_length query_too_long before_branch branch_chain
    full_chain window_funnel branch_selects full_selects per_person count_text page_text ids_text
    members_text histogram_text place_all funnel_spine failure any_event_warning check validate_tree
    tally_behaviors count_behaviour_nodes ever_warning node_warnings warn cost_warnings walk
    walk_children ch_type param_name placeholder lift add_value add replace_first is_designator
    ends_in_zone carries_a_zone is_date_only zoned window_ms string_of lifecycle_instant
    ch_date_time column_of merge_function device_merges merges latest_columns first_columns
    base_text base_cte sort_columns attributes_of attribute_columns aggregate_expr window_start
    bound_part where_parts condition aggregates widest scan_bound pass_text behaviour_pass
    behaviour_cte compare text_expr boolean_expr context_expr behavior_expr relative_expr
    where_predicate trait_expr add_instant lifecycle_expr tree_expr tree_exprs operator_text
    context_name event_column lifecycle_name is_numeric text_test set_expr flag_text relative_test
    as_date bounded_trait_map member_projection traits_text traits_cte projection tail_of query_text
    compile_sql compile_segment collect_behaviors collect_all in_tree in_trees is_safe_identifier
    resolved_person_alias first_stage resolved_comment two_stages resolved_person_expr
    suppression_never not_suppressed_text not_suppressed_expr codes join units_beq print decimal
    tagged starts_with get set delete first_key
runs = (refl, (refl, refl))

no_params : IsPositional {N = ℕ} new_params
unfolding names_below
no_params = refl

compile_funnel-in_funnel_example :
    ((value_of (run (codes "lyraflow") shop)).0.sql
      ≡ (value_of (run (codes "lyraflow") (in_funnel hostile shop))).0.sql)
    × ((value_of (run (codes "lyraflow") shop)).1.next
        ≡ (value_of (run (codes "lyraflow") (in_funnel hostile shop))).1.next)
compile_funnel-in_funnel_example =
    compile_funnel-in_funnel clock (codes "lyraflow") 1700000000 4 hostile hostile-IsInjective shop
      week week none none none new_params new_params (value_of (run (codes "lyraflow") shop))
      (value_of (run (codes "lyraflow") (in_funnel hostile shop))) tt refl
      (returns-value_of (run (codes "lyraflow") shop) runs.0)
      (returns-value_of (run (codes "lyraflow") (in_funnel hostile shop)) runs.1.0)

compile_funnel-IsPositional_example :
    (IsPositional (value_of (run (codes "lyraflow") shop)).1
      × Extends new_params (value_of (run (codes "lyraflow") shop)).1)
    × (byte_length (value_of (run (codes "lyraflow") shop)).0.sql ≤ 230000)
compile_funnel-IsPositional_example =
    compile_funnel-IsPositional clock (codes "lyraflow") 1700000000 4 shop week none none new_params
      (value_of (run (codes "lyraflow") shop)) no_params
      (returns-value_of (run (codes "lyraflow") shop) runs.0)

compile_funnel-throws_example :
    FunnelReason (codes "a'b") shop week (unsafe_identifier (codes "a'b"))
compile_funnel-throws_example =
    compile_funnel-throws clock (codes "a'b") 1700000000 4 shop week none none new_params
      (unsafe_identifier (codes "a'b")) no_params runs.1.1
