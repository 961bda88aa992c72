-- ===== src/Retention/Validate.antt =====
-- packages/core/src/retention/ast.ts: a retention query as it is after parsing, and the caps on its
-- range. A `where` that is absent is an empty list.
mod Tests
pub mod Caps
use lyraflow.Prelude.Orders.{Units}
use lyraflow.Prelude.Decimal.{decimal}
use lyraflow.Prelude.Texts.{codes}
use lyraflow.Segments.Syntax.{WherePredicate}
use lyraflow.Prelude.{ℕ, ◌+◌, ◌-◌, ◌/◌, not, Option, none, some, List, [], ◌++◌, ltb, if◌then◌else◌}

pub data Granularity : Type 0 where
  day week month : Granularity

abbrev pub max_cohorts : ℕ
max_cohorts = 60

unfoldable pub any_event : Units
any_event = codes "*"

pub record RetentionQuery (N : Type 0) : Type 0 where
  pub start_event : Units
  pub return_event : Units
  pub start_where : List (WherePredicate N)
  pub return_where : List (WherePredicate N)
  pub granularity : Granularity
  pub periods : ℕ
  pub since : Units
  pub until : Units

pub data Code : Type 0 where
  in_range in_cohorts : Code

pub record RetentionValidationError : Type 0 where
  pub message : Units
  pub code : Code

abbrev pub period_ms : Granularity → ℕ
period_ms day = 86400000
period_ms week = 604800000
period_ms month = 2419200000

unfoldable pub granularity_text : Granularity → Units
granularity_text day = codes "day"
granularity_text week = codes "week"
granularity_text month = codes "month"

-- `Math.ceil(n / d)`
abbrev pub ceil_div : ℕ → ℕ → ℕ
ceil_div n d = (n + (d - 1)) / d

unfoldable pub cohorts_of : Granularity → ℕ → ℕ → ℕ
cohorts_of g since until = ceil_div (until - since) (period_ms g)

unfoldable pub empty_range : RetentionValidationError
empty_range = record { message = codes "`until` must be after `since`"; code = in_range }

unfoldable pub too_many_cohorts : Granularity → ℕ → RetentionValidationError
too_many_cohorts g cohorts = record {
  message =
      codes "that range is "
      ++ decimal cohorts
      ++ codes " "
      ++ granularity_text g
      ++ codes " cohorts, above the limit of "
      ++ decimal max_cohorts;
  code = in_cohorts;
}

-- The two instants, neither of them `NaN`.
unfoldable pub validate_between : Granularity → ℕ → ℕ → Option RetentionValidationError
validate_between g since until =
    if not (ltb since until)
    then some empty_range
    else if ltb max_cohorts (cohorts_of g since until)
    then some (too_many_cohorts g (cohorts_of g since until))
    else none

-- A text that is no date is `NaN`, which is not after anything.
abbrev pub validate_instants : Granularity → Option ℕ → Option ℕ → Option RetentionValidationError
validate_instants g (some since) (some until) = validate_between g since until
validate_instants g none until = some empty_range
validate_instants g (some since) none = some empty_range

-- `validateRetention`, with the reading of dates.
unfoldable pub validate_retention :
    {N : Type 0} → (Units → Option ℕ) → RetentionQuery N → Option RetentionValidationError
validate_retention parse q = validate_instants q.granularity (parse q.since) (parse q.until)
