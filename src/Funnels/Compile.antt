-- ===== src/Funnels/Compile.antt =====
-- packages/core/src/funnels/compile.ts: the query that a funnel compiles to. The map from events to
-- placeholders and the audiences of the steps are passed along as values.
mod Tests
pub mod Replaced
pub mod Injection
pub mod Binding
pub mod Bound
use lyraflow.Prelude.Orders.{Units}
use lyraflow.Prelude.Decimal.{units_eq}
use lyraflow.Prelude.Texts.{codes, join}
use lyraflow.JsMap.{JsMap, get, set}
use lyraflow.Identity.Resolve.{resolved_person_alias, resolved_person_expr}
use lyraflow.Privacy.Suppression.{not_suppressed_expr}
use lyraflow.Segments.Syntax.{WherePredicate, FilterNode, text}
use lyraflow.Segments.Params.{
  Value, Result, ok, throw, Compiler, pure, fail, lift, ◌>>=◌, add, add_value, string_type,
  uint32_type, date_time_type, invalid_funnel,
}
use lyraflow.Segments.Params.Dates.{Platform, ch_date_time}
use lyraflow.Segments.Base.{base_cte}
use lyraflow.Segments.Behaviour.{attribute_columns, where_parts}
use lyraflow.Segments.Compile.{CompiledQuery, Cursor, selects_persons, compile_segment, traits_cte}
use lyraflow.Funnels.Spine
use lyraflow.Funnels.Spine.{FunnelSpine, StepPlacement, Branch, funnel_spine}
use lyraflow.Funnels.Syntax.{FunnelStep, FunnelDefinition}
use lyraflow.Funnels.Validate.{
  FunnelValidationError, Range, in_steps, query_of, validate_funnel, validate_range,
  funnel_cost_warnings,
}
use lyraflow.Funnels.People.{
  Mode, PeopleSelect, PeopleAt, level_text, level_of, branch_level, branch_predicate, level_at,
  branch_level_at, placed_predicate, level_predicate, position_text, people_after, people_text,
  optional_counts, continued_count, continued_counts, segment_filter, placement_of,
}
use lyraflow.Funnels.Chains.{
  PassParts, max_compiled_query_bytes, byte_length, query_too_long, full_chain, per_person,
  count_text, ids_text, members_text, histogram_text,
}
use lyraflow.Prelude.{
  ℕ, ◌+◌, ◌*◌, ◌<◌, min, Option, none, some, List, [], ◌∷◌, ◌++◌, map, ltb, if◌then◌else◌, get_or,
  drop, nat_eq, string_eq,
}

abbrev pub gate_parts : Option Units → List Units
gate_parts none = []
gate_parts (some gate) = gate ∷ []

abbrev pub joined : Units → List Units → Units
joined part [] = part
joined part (p ∷ parts) = codes "(" ++ join (codes " AND ") (part ∷ p ∷ parts) ++ codes ")"

module _ {N : Type 0} where
  abbrev pub spine_step : FunnelStep N → Spine.FunnelStep
  spine_step s = record { event = ""; is_optional = s.optional }

  -- `funnelSpine`, which reads only whether a step is optional.
  unfoldable pub spine_of : FunnelDefinition N → FunnelSpine
  spine_of def = funnel_spine (map spine_step def.steps)

  -- `definition.steps.flatMap((s) => s.where ?? [])`
  abbrev pub all_predicates : List (FunnelStep N) → List (WherePredicate N)
  all_predicates [] = []
  all_predicates (s ∷ steps) = s.where_ ++ all_predicates steps

  abbrev pub placeholder_from :
      Option Units → Units → JsMap Units Units → Compiler N (Units × JsMap Units Units)
  placeholder_from (some existing) event events = pure (existing, events)
  placeholder_from none event events = do
    a ← add (text event) string_type
    pure (a, set event a events)

  -- `eventPlaceholder`
  unfoldable pub event_placeholder :
      Units → JsMap Units Units → Compiler N (Units × JsMap Units Units)
  event_placeholder event events = placeholder_from (get event events) event events

abbrev pub window_ms_of : {N : Type 0} → FunnelDefinition N → ℕ
window_ms_of def = def.window_seconds * 1000

-- What follows a validator.
unfoldable pub unless_refused :
    {N A : Type 0} → Option FunnelValidationError → Compiler N A → Compiler N A
unless_refused (some e) compile = fail (invalid_funnel e)
unless_refused none compile = compile

-- `finalize`, whose size is that of the text.
unfoldable pub within_size : Units → Option FunnelValidationError
within_size sql =
    if ltb max_compiled_query_bytes (byte_length sql)
    then some (query_too_long (byte_length sql))
    else none

module _ {N : Type 0} (js : Platform N ℕ) (database : Units) (now : ℕ) (project_id : ℕ) where
  abbrev pub gate_of : Units → Option (FilterNode N) → Compiler N (Option Units)
  gate_of resolved none = pure none
  gate_of resolved (some audience) = do
    persons ← compile_segment js database now (query_of audience) project_id selects_persons none
    pure (some (resolved ++ codes " IN (" ++ persons.sql ++ codes ")"))

  -- What the audiences of the steps compile to, `audienceByStep`.
  unfoldable pub gates : Units → List (FunnelStep N) → Compiler N (List (Option Units))
  gates resolved [] = pure []
  gates resolved (s ∷ steps) = do
    gate ← gate_of resolved s.audience
    rest ← gates resolved steps
    pure (gate ∷ rest)

  unfoldable pub step_condition :
      FunnelStep N → Option Units → JsMap Units Units → Compiler N (Units × JsMap Units Units)
  step_condition s gate events = do
    named ← event_placeholder s.event events
    predicates ← where_parts js now s.where_
    pure (joined (codes "event_name = " ++ named.0) (predicates ++ gate_parts gate), named.1)

  -- The conditions of the steps after the first.
  unfoldable pub later_conditions :
      List (FunnelStep N)
      → List (Option Units)
      → JsMap Units Units
      → Compiler N (List Units × JsMap Units Units)
  later_conditions [] gs events = pure ([], events)
  later_conditions (s ∷ steps) gs events = do
    cond ← step_condition s (get_or gs 0 none) events
    rest ← later_conditions steps (drop 1 gs) cond.1
    pure (cond.0 ∷ rest.0, rest.1)

  -- `conditions`; the first bounds the entry.
  unfoldable pub all_conditions :
      Units
      → List (FunnelStep N)
      → List (Option Units)
      → Compiler N (List Units × JsMap Units Units)
  all_conditions until [] gs = pure ([], [])
  all_conditions until (s ∷ steps) gs = do
    cond ← step_condition s (get_or gs 0 none) []
    rest ← later_conditions steps (drop 1 gs) cond.1
    pure ((codes "(" ++ cond.0 ++ codes " AND timestamp < " ++ until ++ codes ")") ∷ rest.0, rest.1)

  unfoldable pub add_date : ℕ → Compiler N Units
  add_date d = do at ← lift (ch_date_time js (some d)); add (text at) date_time_type

  -- What each shape selects from the pass over the events.
  abbrev pub shape :
      Option PeopleAt → PassParts → FunnelSpine → Units → Option Units → Compiler N Units
  shape none parts s boundary segment = do
    optional ← optional_counts s s.optional 0
    continued ← continued_counts parts.conditions s s.optional 0
    pure (histogram_text boundary optional continued (per_person parts s) (segment_filter segment))
  shape (some people) parts s boundary segment = do
    after ← people_after people.select people.cursor
    level ← level_predicate people.mode people.step (placement_of s people.step)
    people_text people.select database project_id (per_person parts s) level
        (segment_filter segment) after

  -- What follows the conditions.
  unfoldable pub pass_and_shape :
      FunnelDefinition N
      → Option Units
      → Option PeopleAt
      → Units
      → Units
      → Units
      → Units
      → List Units
      → Units
      → Compiler N Units
  pass_and_shape def segment people project since scan_end resolved conditions event_list = do
    window ← add_value (Value.count (window_ms_of def)) uint32_type
    boundary ← add_date (js.back now (window_ms_of def))
    kept ← not_suppressed_expr database project_id resolved (codes "e.timestamp")
    shape people
        (record {
          project = project;
          since = since;
          scan_end = scan_end;
          resolved = resolved;
          attributes = attribute_columns (all_predicates def.steps);
          conditions = conditions;
          event_list = event_list;
          window = window;
          not_suppressed = kept;
        })
        (spine_of def) boundary segment

  unfoldable pub funnel_sql :
      FunnelDefinition N → Range → Option Units → Option PeopleAt → Compiler N Units
  funnel_sql def range segment people = do
    project ← add_value (Value.count project_id) uint32_type
    since ← add_date range.since
    until ← add_date range.until
    scan_end ← add_date (min (range.until + window_ms_of def) now)
    resolved ← lift (resolved_person_expr database (some (codes "e")))
    gated ← gates resolved def.steps
    conditions ← all_conditions until def.steps gated
    pass_and_shape def segment people project since scan_end resolved conditions.0
        (join (codes ", ") (map (λ e. e.1) conditions.1))

  unfoldable pub compile_funnel :
      FunnelDefinition N → Range → Option Units → Option PeopleAt → Compiler N CompiledQuery
  compile_funnel def range segment people = unless_refused (validate_funnel def) (
      unless_refused (validate_range range) (do
        sql ← funnel_sql def range segment people
        unless_refused (within_size sql)
            (pure (record { sql = sql; warnings = funnel_cost_warnings def range }))))
