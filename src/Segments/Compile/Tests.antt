-- ===== src/Segments/Compile/Tests.antt =====
-- Runs of packages/core/src/segments/compile.ts on a segment of two conditions.
use lyraflow.Prelude.Orders.{Units}
use lyraflow.Prelude.Decimal.{decimal, units_eq, units_beq, print}
use lyraflow.Prelude.Texts.{codes}
use lyraflow.JsMap.{get, set}
use lyraflow.Identity.Resolve.{is_safe_identifier, resolved_person_expr}
use lyraflow.Privacy.Suppression.{not_suppressed_expr}
use lyraflow.Segments.Syntax.{
  ComparisonOperator, Scalar, Comparison, AnyValueClause, Window, Aggregate, TimeUnit, GroupOp,
  FilterNode, FilterNodes, SegmentQuery,
}
use lyraflow.Segments.Validate.{validate_tree, check, walk}
use lyraflow.Segments.Params.{
  Params, Result, ok, throw, new_params, unsafe_identifier, add_value, add, lift, param_name,
}
use lyraflow.Segments.Params.Bound.{IsPositional, Extends, names_below}
use lyraflow.Segments.Samples.{clock, hostile}
use lyraflow.Segments.Params.Dates.{ch_date_time, window_ms}
use lyraflow.Segments.Operators.{is_numeric}
use lyraflow.Segments.Base.{base_cte}
use lyraflow.Segments.Predicates.{tree_expr, trait_expr, behavior_expr, compare}
use lyraflow.Segments.Behaviour.{
  behaviour_cte, behaviour_pass, scan_bound, widest, window_start, bound_part, aggregates,
  condition, where_parts, aggregate_expr,
}
use lyraflow.Segments.Replace.{in_query, in_tree}
use lyraflow.Segments.Compile.{
  CompiledQuery, selects_count, compile_segment, compile_sql, collect_behaviors, traits_cte,
}
use lyraflow.Segments.Compile.Injection.{compile_segment-in_query}
use lyraflow.Segments.Compile.Bound.{Reason, compile_segment-IsPositional, compile_segment-throws}
use lyraflow.Prelude.{ℕ, ◌≡◌, refl, none, [], nat_eq, string_eq}

abbrev loyal : FilterNode ℕ
loyal = FilterNode.trait (record {
  key = codes "plan";
  clause =
      AnyValueClause.compares (Comparison.single ComparisonOperator.eq (Scalar.text (codes "pro")));
})

abbrev active : FilterNode ℕ
active = FilterNode.behavior (record {
  identity = 1;
  event = codes "login";
  where_ = [];
  aggregate = Aggregate.count;
  window = Window.last (record { n = 7; unit = TimeUnit.days });
  comparison = Comparison.single ComparisonOperator.ge (Scalar.number 3);
})

abbrev segment : SegmentQuery ℕ
segment = record {
  filter =
      FilterNode.group GroupOp.and
        (FilterNodes.cons loyal (FilterNodes.cons active FilterNodes.nil));
}

abbrev nothing : CompiledQuery × Params ℕ
nothing = (record { sql = []; warnings = [] }, new_params)

abbrev value_of : Result (CompiledQuery × Params ℕ) → CompiledQuery × Params ℕ
value_of (ok x) = x
value_of (throw e) = nothing

abbrev run : Units → SegmentQuery ℕ → Result (CompiledQuery × Params ℕ)
run db q = compile_segment clock db 1000000000 q 4 selects_count none new_params

-- Both compile, and a database with such a name does not.
compiles :
    (run (codes "lyraflow") segment ≡ ok (value_of (run (codes "lyraflow") segment)))
    × ((run (codes "lyraflow") (in_query hostile segment)
          ≡ ok (value_of (run (codes "lyraflow") (in_query hostile segment))))
        × (run (codes "a'b") segment ≡ throw (unsafe_identifier (codes "a'b"))))
unfolding compile_segment validate_tree check walk compile_sql base_cte add_value add lift
    resolved_person_expr is_safe_identifier codes behaviour_cte collect_behaviors behaviour_pass
    scan_bound widest window_start bound_part ch_date_time window_ms aggregates condition
    where_parts aggregate_expr not_suppressed_expr tree_expr trait_expr behavior_expr compare
    is_numeric get traits_cte in_tree decimal print param_name units_beq set
compiles = (refl, (refl, refl))

compile_segment-in_query_example :
    ((value_of (run (codes "lyraflow") segment)).0.sql
      ≡ (value_of (run (codes "lyraflow") (in_query hostile segment))).0.sql)
    × ((value_of (run (codes "lyraflow") segment)).1.next
        ≡ (value_of (run (codes "lyraflow") (in_query hostile segment))).1.next)
compile_segment-in_query_example =
    compile_segment-in_query clock (codes "lyraflow") 1000000000 hostile segment 4 selects_count
      none none new_params new_params (value_of (run (codes "lyraflow") segment))
      (value_of (run (codes "lyraflow") (in_query hostile segment))) refl refl compiles.0
      compiles.1.0

no_params : IsPositional {N = ℕ} new_params
unfolding names_below
no_params = refl

compile_segment-IsPositional_example :
    IsPositional (value_of (run (codes "lyraflow") segment)).1
    × Extends new_params (value_of (run (codes "lyraflow") segment)).1
compile_segment-IsPositional_example =
    compile_segment-IsPositional clock (codes "lyraflow") 1000000000 segment 4 selects_count none
      new_params (value_of (run (codes "lyraflow") segment)) no_params compiles.0

compile_segment-throws_example : Reason (codes "a'b") segment (unsafe_identifier (codes "a'b"))
compile_segment-throws_example =
    compile_segment-throws clock (codes "a'b") 1000000000 segment 4 selects_count none new_params
      (unsafe_identifier (codes "a'b")) no_params compiles.1.1
