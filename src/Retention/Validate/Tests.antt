-- ===== src/Retention/Validate/Tests.antt =====
-- Runs of packages/core/src/retention/ast.ts, with dates that are the length of their text times an
-- hour.
use lyraflow.Prelude.Orders.{Units}
use lyraflow.Prelude.Texts.{codes}
use lyraflow.Retention.Validate.{
  RetentionQuery, day, week, month, cohorts_of, validate_between, validate_retention, empty_range,
  too_many_cohorts,
}
use lyraflow.Retention.Validate.Caps.{rows_of, IsMeasurable, validate_retention_iff}
use lyraflow.Prelude.{ℕ, ◌*◌, ◌≡◌, refl, ◌↔◌, Option, none, some, [], length}

abbrev hours_of : Units → Option ℕ
hours_of s = some (length s * 3600000)

abbrev report : RetentionQuery ℕ
report = record {
  start_event = codes "signup";
  return_event = codes "*";
  start_where = [];
  return_where = [];
  granularity = day;
  periods = 7;
  since = codes "now";
  until = codes "tomorrow";
}

runs :
    (validate_retention hours_of report ≡ none)
    × ((validate_between week 5 5 ≡ some empty_range)
        × (validate_between day 0 5184000001 ≡ some (too_many_cohorts day 61)))
unfolding validate_retention validate_between cohorts_of codes
runs = (refl, (refl, refl))

-- Sixty days from noon are accepted and have 61 calendar rows; sixty calendar months, of 1,826 days,
-- are refused.
rows :
    (validate_between day 43200000 5227200000 ≡ none)
    × ((rows_of day 43200000 5227200000 ≡ 61)
        × (validate_between month 0 157766400000 ≡ some (too_many_cohorts month 66)))
unfolding validate_between cohorts_of
rows = (refl, (refl, refl))

validate_retention_iff_example :
    (validate_retention hours_of report ≡ none)
    ↔ IsMeasurable day (hours_of (codes "now")) (hours_of (codes "tomorrow"))
validate_retention_iff_example = validate_retention_iff hours_of report
