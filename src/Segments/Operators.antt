-- ===== src/Segments/Operators.antt =====
-- The parts of packages/core/src/segments/predicates.ts that bind no value, and the names that the
-- enumerations of packages/core/src/segments/ast.ts have in SQL.
use lyraflow.Prelude.Orders.{Units}
use lyraflow.Prelude.Texts.{codes}
use lyraflow.Segments.Syntax.{
  ComparisonOperator, TextOperator, SetOperator, BooleanOperator, RelativeOperator, ContextField,
  EventColumnField, LifecycleField, Scalar, Comparison, text, number, single, between,
}
use lyraflow.Prelude.{Bool, true, false, ◌++◌, nat_eq, string_eq}

unfoldable pub operator_text : ComparisonOperator → Units
operator_text ComparisonOperator.eq = codes "="
operator_text ComparisonOperator.ne = codes "!="
operator_text ComparisonOperator.gt = codes ">"
operator_text ComparisonOperator.ge = codes ">="
operator_text ComparisonOperator.lt = codes "<"
operator_text ComparisonOperator.le = codes "<="

unfoldable pub context_name : ContextField → Units
context_name ContextField.country = codes "country"
context_name ContextField.region = codes "region"
context_name ContextField.city = codes "city"
context_name ContextField.device_type = codes "device_type"
context_name ContextField.os = codes "os"
context_name ContextField.browser = codes "browser"
context_name ContextField.referrer = codes "referrer"
context_name ContextField.utm_source = codes "utm_source"
context_name ContextField.utm_medium = codes "utm_medium"
context_name ContextField.utm_campaign = codes "utm_campaign"

unfoldable pub event_column : EventColumnField → Units
event_column (EventColumnField.context_column f) = context_name f
event_column EventColumnField.path = codes "path"
event_column EventColumnField.url = codes "url"
event_column EventColumnField.utm_term = codes "utm_term"
event_column EventColumnField.utm_content = codes "utm_content"

unfoldable pub lifecycle_name : LifecycleField → Units
lifecycle_name LifecycleField.first_seen = codes "first_seen"
lifecycle_name LifecycleField.last_seen = codes "last_seen"

-- Whether a value, or the first of two, is a number.
abbrev pub is_number : {N : Type 0} → Scalar N → Bool
is_number (number n) = true
is_number _ = false

unfoldable pub is_numeric : {N : Type 0} → Comparison (Scalar N) → Bool
is_numeric (single op v) = is_number v
is_numeric (between lo hi) = is_number lo

-- The values of an attribute are texts.
abbrev pub as_scalars : {N : Type 0} → Comparison Units → Comparison (Scalar N)
as_scalars (single op v) = single op (text v)
as_scalars (between lo hi) = between (text lo) (text hi)

unfoldable pub text_test : TextOperator → Units → Units → Units
text_test TextOperator.contains hay needle =
    codes "position(" ++ hay ++ codes ", " ++ needle ++ codes ") > 0"
text_test TextOperator.not_contains hay needle =
    codes "position(" ++ hay ++ codes ", " ++ needle ++ codes ") = 0"
text_test TextOperator.starts_with hay needle =
    codes "startsWith(" ++ hay ++ codes ", " ++ needle ++ codes ")"
text_test TextOperator.not_starts_with hay needle =
    codes "NOT startsWith(" ++ hay ++ codes ", " ++ needle ++ codes ")"
text_test TextOperator.ends_with hay needle =
    codes "endsWith(" ++ hay ++ codes ", " ++ needle ++ codes ")"
text_test TextOperator.not_ends_with hay needle =
    codes "NOT endsWith(" ++ hay ++ codes ", " ++ needle ++ codes ")"

unfoldable pub set_expr : Units → SetOperator → Units
set_expr present SetOperator.is_set = present
set_expr present SetOperator.is_not_set = codes "NOT (" ++ present ++ codes ")"

unfoldable pub flag_text : BooleanOperator → Units
flag_text BooleanOperator.is_true = codes "true"
flag_text BooleanOperator.is_false = codes "false"

unfoldable pub relative_test : RelativeOperator → Units → Units
relative_test RelativeOperator.in_last definite = definite
relative_test RelativeOperator.not_in_last definite = codes "NOT " ++ definite

unfoldable pub as_date : Units → Units
as_date lhs = codes "parseDateTime64BestEffortOrNull(" ++ lhs ++ codes ")"
