-- ===== src/Funnels/Validate.antt =====
-- packages/core/src/funnels/validate.ts: the caps on a funnel and on the range of a run, and the
-- warnings about its cost. An instant is its milliseconds since 1970.
mod Tests
pub mod Caps
use lyraflow.Prelude.Orders.{Units}
use lyraflow.Prelude.Decimal.{decimal, units_eq}
use lyraflow.Prelude.Texts.{codes}
use lyraflow.Segments.Syntax.{SegmentQuery, FilterNode}
use lyraflow.Segments.Validate.{
  SegmentValidationError, CostWarning, validate_tree, count_behaviour_nodes, cost_warnings,
}
use lyraflow.Funnels.Syntax.{FunnelStep, FunnelDefinition}
use lyraflow.Prelude.{
  ℕ, ◌+◌, ◌-◌, ◌*◌, Bool, false, not, ◌||◌, Option, none, some, List, [], ◌∷◌, ◌++◌, map, ltb, leb,
  if◌then◌else◌, length, get_elem?, filter, ◌==◌, nat_eq, string_eq,
}

abbrev pub max_funnel_steps : ℕ
max_funnel_steps = 8

abbrev pub max_optional_steps : ℕ
max_optional_steps = 2

abbrev pub max_window_seconds : ℕ
max_window_seconds = 2592000

abbrev pub max_range_days : ℕ
max_range_days = 90

abbrev pub ms_per_day : ℕ
ms_per_day = 86400000

abbrev pub max_funnel_behavior_nodes : ℕ
max_funnel_behavior_nodes = 25

pub data Code : Type 0 where
  in_steps in_window in_range in_audience : Code

pub record FunnelValidationError : Type 0 where
  pub message : Units
  pub code : Code

-- What a loop that may throw leaves: the count of behaviours, or the error.
pub data Counted : Type 0 where
  counted : ℕ → Counted
  refused : FunnelValidationError → Counted

pub record Range : Type 0 where
  pub since : ℕ
  pub until : ℕ

unfoldable pub too_many_steps : FunnelValidationError
too_many_steps = record {
  message = codes "a funnel may have at most " ++ decimal max_funnel_steps ++ codes " steps";
  code = in_steps;
}

unfoldable pub window_too_long : FunnelValidationError
window_too_long = record {
  message =
      codes "the conversion window may be at most "
      ++ decimal max_window_seconds
      ++ codes " seconds (30 days)";
  code = in_window;
}

unfoldable pub first_optional : FunnelValidationError
first_optional = record {
  message = codes "the first step of a funnel cannot be optional";
  code = in_steps;
}

unfoldable pub last_optional : FunnelValidationError
last_optional = record {
  message = codes "the last step of a funnel cannot be optional";
  code = in_steps;
}

unfoldable pub too_many_optional : ℕ → FunnelValidationError
too_many_optional n = record {
  message =
      codes "a funnel may have at most "
      ++ decimal max_optional_steps
      ++ codes " optional steps; this one has "
      ++ decimal n;
  code = in_steps;
}

-- The segment's error, which names the step.
unfoldable pub bad_audience : ℕ → SegmentValidationError → FunnelValidationError
bad_audience i e = record {
  message = codes "step " ++ decimal (i + 1) ++ codes ": " ++ e.message;
  code = in_audience;
}

unfoldable pub too_many_behaviors : ℕ → FunnelValidationError
too_many_behaviors n = record {
  message =
      codes "the step audiences hold "
      ++ decimal n
      ++ codes " behavioural conditions in total; a funnel may have at most "
      ++ decimal max_funnel_behavior_nodes;
  code = in_audience;
}

abbrev pub total_check : Counted → Option FunnelValidationError
total_check (refused e) = some e
total_check (counted n) =
    if ltb max_funnel_behavior_nodes n then some (too_many_behaviors n) else none

module _ {N : Type 0} where
  -- `step?.optional === true`
  abbrev pub is_optional_at : Option (FunnelStep N) → Bool
  is_optional_at none = false
  is_optional_at (some s) = s.optional

  abbrev pub query_of : FilterNode N → SegmentQuery N
  query_of audience = record { filter = audience }

  -- The turn of the loop over the steps; `rest` goes on from a count.
  abbrev pub audience_step :
      ℕ → Option SegmentValidationError → FilterNode N → ℕ → (ℕ → Counted) → Counted
  audience_step i (some e) audience behaviours rest = refused (bad_audience i e)
  audience_step i none audience behaviours rest = rest (behaviours + count_behaviour_nodes audience)

  abbrev pub optional_step : ℕ → Option (FilterNode N) → ℕ → (ℕ → Counted) → Counted
  optional_step i none behaviours rest = rest behaviours
  optional_step i (some audience) behaviours rest =
      audience_step i (validate_tree (query_of audience)) audience behaviours rest

  -- The loop over the steps, from the index `i`.
  unfoldable pub count_audiences : List (FunnelStep N) → ℕ → ℕ → Counted
  count_audiences [] i behaviours = counted behaviours
  count_audiences (s ∷ steps) i behaviours =
      optional_step i s.audience behaviours (count_audiences steps (i + 1))

  unfoldable pub optional_count : List (FunnelStep N) → ℕ
  optional_count steps = length (filter (λ s. s.optional) steps)

  unfoldable pub validate_funnel : FunnelDefinition N → Option FunnelValidationError
  validate_funnel def =
      if ltb max_funnel_steps (length def.steps)
      then some too_many_steps
      else if ltb max_window_seconds def.window_seconds
      then some window_too_long
      else if is_optional_at (get_elem? def.steps 0)
      then some first_optional
      else if is_optional_at (get_elem? def.steps (length def.steps - 1))
      then some last_optional
      else if ltb max_optional_steps (optional_count def.steps)
      then some (too_many_optional (optional_count def.steps))
      else total_check (count_audiences def.steps 0 0)

unfoldable pub empty_range : FunnelValidationError
empty_range = record { message = codes "`since` must be strictly before `until`"; code = in_range }

unfoldable pub range_too_long : FunnelValidationError
range_too_long = record {
  message = codes "the range may span at most " ++ decimal max_range_days ++ codes " days";
  code = in_range;
}

unfoldable pub validate_range : Range → Option FunnelValidationError
validate_range r =
    if not (ltb r.since r.until)
    then some empty_range
    else if ltb (max_range_days * ms_per_day) (r.until - r.since)
    then some range_too_long
    else none

-- `HIGH_VOLUME_EVENTS.has`
unfoldable pub is_high_volume : Units → Bool
is_high_volume event = event == codes "$page" || event == codes "$identify"

unfoldable pub volume_warning : ℕ → Units → CostWarning
volume_warning i event = record {
  path = codes "steps." ++ decimal i;
  reason =
      codes "the `"
      ++ event
      ++ codes
          "` step matches a high-volume event, so this funnel scans far more rows than one over distinct custom events";
}

unfoldable pub range_warning : CostWarning
range_warning = record {
  path = codes "range";
  reason =
      codes "the range is at the "
      ++ decimal max_range_days
      ++ codes "-day maximum, which is the most expensive scan this endpoint allows";
}

abbrev pub prefixed : ℕ → CostWarning → CostWarning
prefixed i w = record w { path = codes "steps." ++ decimal i ++ codes "." ++ w.path }

module _ {N : Type 0} where
  abbrev pub audience_warnings : ℕ → Option (FilterNode N) → List CostWarning
  audience_warnings i none = []
  audience_warnings i (some audience) = map (prefixed i) (cost_warnings (query_of audience))

  unfoldable pub step_warnings : List (FunnelStep N) → ℕ → List CostWarning
  step_warnings [] i = []
  step_warnings (s ∷ steps) i =
      (if is_high_volume s.event then volume_warning i s.event ∷ [] else [])
      ++ audience_warnings i s.audience
      ++ step_warnings steps (i + 1)

  unfoldable pub funnel_cost_warnings : FunnelDefinition N → Range → List CostWarning
  funnel_cost_warnings def r =
      step_warnings def.steps 0
      ++ (if leb (max_range_days * ms_per_day) (r.until - r.since) then range_warning ∷ [] else [])
