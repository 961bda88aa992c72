-- ===== src/Retention/Compile.antt =====
-- packages/core/src/retention/compile.ts: the query that a retention report compiles to.
mod Tests
pub mod Injection
pub mod Bound
use lyraflow.Retention.Texts.{name_filter, base_condition, clause_text, retention_text}
use lyraflow.Prelude.Orders.{Units}
use lyraflow.Prelude.Decimal.{units_eq}
use lyraflow.Prelude.Texts.{codes, join}
use lyraflow.Identity.Resolve.{resolved_person_alias, resolved_person_expr}
use lyraflow.Privacy.Suppression.{not_suppressed_expr}
use lyraflow.Segments.Syntax.{WherePredicate, text}
use lyraflow.Segments.Params.{
  Value, Compiler, pure, fail, lift, ◌>>=◌, add, add_value, string_type, uint32_type,
  date_time_type, invalid_retention,
}
use lyraflow.Segments.Params.Dates.{Platform, ch_date_time}
use lyraflow.Segments.Behaviour.{attribute_columns, where_parts}
use lyraflow.Retention.Validate.{
  Granularity, day, week, month, any_event, RetentionQuery, RetentionValidationError,
  granularity_text, validate_retention,
}
use lyraflow.Prelude.{
  ℕ, ◌+◌, ◌*◌, ◌<◌, min, Bool, true, false, not, ◌||◌, Option, none, some, List, [], ◌∷◌, ◌++◌, map,
  if◌then◌else◌, filter, ◌==◌, nat_eq, string_eq,
}

abbrev pub period_ms_max : Granularity → ℕ
period_ms_max day = 86400000
period_ms_max week = 604800000
period_ms_max month = 2678400000

-- What follows the validator.
unfoldable pub unless_invalid :
    {N A : Type 0} → Option RetentionValidationError → Compiler N A → Compiler N A
unless_invalid (some e) compile = fail (invalid_retention e)
unless_invalid none compile = compile

module _ {N : Type 0} where
  abbrev pub reads_properties : WherePredicate N → Bool
  reads_properties (WherePredicate.attribute field clause) = false
  reads_properties (WherePredicate.property name clause) = true

  unfoldable pub needs_properties : List (WherePredicate N) → Bool
  needs_properties [] = false
  needs_properties (w ∷ ws) = reads_properties w || needs_properties ws

  unfoldable pub predicate_columns : List (WherePredicate N) → List Units
  predicate_columns ws =
      (if needs_properties ws then codes "properties" ∷ codes "properties_num" ∷ [] else [])
      ++ attribute_columns ws

  -- `startName`, `returnName`
  unfoldable pub add_name : Units → Compiler N (Option Units)
  add_name event =
      if event == any_event
      then pure none
      else (do name ← add (text event) string_type; pure (some name))

module _ {N : Type 0} (js : Platform N ℕ) (database : Units) (now : ℕ) (project_id : ℕ) where
  unfoldable pub add_parsed : Option ℕ → Compiler N Units
  add_parsed d = do at ← lift (ch_date_time js d); add (text at) date_time_type

  abbrev pub clause : Option Units → List (WherePredicate N) → Compiler N Units
  clause name ws = do
    parts ← where_parts js now ws
    pure (clause_text (base_condition name ∷ parts))

  -- `scanUntil`, which is `NaN` where `until` is.
  abbrev pub scan_until : RetentionQuery N → Option ℕ → Option ℕ
  scan_until q none = none
  scan_until q (some until) = some (min (until + (q.periods + 1) * period_ms_max q.granularity) now)

  unfoldable pub retention_sql : RetentionQuery N → Option Units → Compiler N Units
  retention_sql q segment = do
    project ← add_value (Value.count project_id) uint32_type
    since ← add_parsed (js.parse q.since)
    until ← add_parsed (js.parse q.until)
    scan_end ← add_parsed (scan_until q (js.parse q.until))
    periods ← add_value (Value.count q.periods) uint32_type
    resolved ← lift (resolved_person_expr database (some (codes "e")))
    kept ← not_suppressed_expr database project_id resolved (codes "e.timestamp")
    start_name ← add_name q.start_event
    return_name ← add_name q.return_event
    start_condition ← clause start_name q.start_where
    return_condition ← clause return_name q.return_where
    pure (
        retention_text (record {
          granularity = q.granularity;
          project = project;
          since = since;
          until = until;
          scan_end = scan_end;
          periods = periods;
          resolved = resolved;
          not_suppressed = kept;
          names = name_filter start_name return_name;
          start_condition = start_condition;
          return_condition = return_condition;
          columns = predicate_columns (q.start_where ++ q.return_where);
          segment = segment;
        }))

  unfoldable pub compile_retention : RetentionQuery N → Option Units → Compiler N Units
  compile_retention q segment =
      unless_invalid (validate_retention js.parse q) (retention_sql q segment)
