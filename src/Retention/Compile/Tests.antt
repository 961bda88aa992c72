-- ===== src/Retention/Compile/Tests.antt =====
-- Runs of packages/core/src/retention/compile.ts on a report with a predicate.
use lyraflow.Privacy.Suppression.{not_suppressed_expr}
use lyraflow.Identity.Resolve.{is_safe_identifier, resolved_person_expr}
use lyraflow.Segments.Predicates.{text_expr, where_predicate}
use lyraflow.Segments.Behaviour.{where_parts}
use lyraflow.Segments.Params.Dates.{ch_date_time}
use lyraflow.Prelude.Orders.{Units}
use lyraflow.Prelude.Decimal.{units_eq, units_beq}
use lyraflow.Prelude.Texts.{codes}
use lyraflow.Segments.Samples.{clock, hostile}
use lyraflow.Segments.Syntax.{EventColumnField, TextOperator, ColumnClause, WherePredicate}
use lyraflow.Segments.Params.{
  Params, Result, ok, throw, new_params, unsafe_identifier, lift, add_value, add,
}
use lyraflow.Segments.Params.Bound.{IsPositional, Extends, names_below}
use lyraflow.Retention.Validate.{
  RetentionQuery, day, validate_retention, any_event, cohorts_of, validate_between,
}
use lyraflow.Retention.Compile.{
  compile_retention, unless_invalid, add_name, add_parsed, retention_sql,
}
use lyraflow.Retention.Compile.Injection.{in_report, compile_retention-in_report}
use lyraflow.Retention.Compile.Bound.{compile_retention-IsPositional}
use lyraflow.Prelude.{ℕ, ◌≡◌, refl, none, [], ◌∷◌, nat_eq, string_eq}

abbrev report : RetentionQuery ℕ
report = record {
  start_event = codes "$page";
  return_event = codes "*";
  start_where =
      WherePredicate.attribute EventColumnField.path
        (ColumnClause.matches TextOperator.contains (codes "register"))
      ∷ [];
  return_where = [];
  granularity = day;
  periods = 7;
  since = codes "now";
  until = codes "tomorrow";
}

-- The same report over another range.
abbrev other : RetentionQuery ℕ
other = in_report hostile report 14 (codes "") (codes "soon")

abbrev run : Units → RetentionQuery ℕ → Result (Units × Params ℕ)
run db q = compile_retention clock db 1700000000 4 q none new_params

abbrev value_of : Result (Units × Params ℕ) → Units × Params ℕ
value_of (ok x) = x
value_of (throw e) = ([], new_params)

compiles :
    (run (codes "lyraflow") report ≡ ok (value_of (run (codes "lyraflow") report)))
    × ((run (codes "lyraflow") other ≡ ok (value_of (run (codes "lyraflow") other)))
        × (run (codes "a'b") report ≡ throw (unsafe_identifier (codes "a'b"))))
unfolding unless_invalid add_name add_parsed retention_sql compile_retention any_event cohorts_of
    validate_between validate_retention lift add_value add ch_date_time where_parts text_expr
    where_predicate is_safe_identifier resolved_person_expr not_suppressed_expr codes units_beq
compiles = (refl, (refl, refl))

no_params : IsPositional {N = ℕ} new_params
unfolding names_below
no_params = refl

compile_retention-in_report_example :
    ((value_of (run (codes "lyraflow") report)).0 ≡ (value_of (run (codes "lyraflow") other)).0)
    × ((value_of (run (codes "lyraflow") report)).1.next
        ≡ (value_of (run (codes "lyraflow") other)).1.next)
compile_retention-in_report_example =
    compile_retention-in_report clock (codes "lyraflow") 1700000000 4 hostile report 14 (codes "")
      (codes "soon") none new_params new_params (value_of (run (codes "lyraflow") report))
      (value_of (run (codes "lyraflow") other)) refl compiles.0 compiles.1.0

compile_retention-IsPositional_example :
    (validate_retention clock.parse report ≡ none)
    × (IsPositional (value_of (run (codes "lyraflow") report)).1
        × Extends new_params (value_of (run (codes "lyraflow") report)).1)
compile_retention-IsPositional_example =
    compile_retention-IsPositional clock (codes "lyraflow") 1700000000 4 report none new_params
      (value_of (run (codes "lyraflow") report)) no_params compiles.0
