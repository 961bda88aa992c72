-- ===== src/Segments/Base.antt =====
-- packages/core/src/segments/base.ts: the columns that hold the context of a person, and the part of a
-- query that selects every person.

use lyraflow.Prelude.Orders.{Units}
use lyraflow.Prelude.Texts.{codes, join}
use lyraflow.Identity.Resolve.{resolved_person_alias, resolved_person_expr}
use lyraflow.Segments.Params.{Value, Compiler, pure, lift, ◌>>=◌, add_value, uint32_type}
use lyraflow.Segments.Syntax.{ContextField, Scope, latest, first_touch}
use lyraflow.Prelude.{
  ℕ, Bool, true, false, not, some, List, [], ◌∷◌, ◌++◌, map, filter, nat_eq, string_eq,
}

-- `CONTEXT_COLUMNS`
unfoldable pub column_of : ContextField → Scope → Units
column_of ContextField.country latest = codes "latest_country"
column_of ContextField.country first_touch = codes "first_country"
column_of ContextField.region latest = codes "latest_region"
column_of ContextField.region first_touch = codes "first_region"
column_of ContextField.city latest = codes "latest_city"
column_of ContextField.city first_touch = codes "first_city"
column_of ContextField.device_type latest = codes "latest_device"
column_of ContextField.device_type first_touch = codes "first_device"
column_of ContextField.os latest = codes "latest_os"
column_of ContextField.os first_touch = codes "first_os"
column_of ContextField.browser latest = codes "latest_browser"
column_of ContextField.browser first_touch = codes "first_browser"
column_of ContextField.referrer s = codes "first_referrer"
column_of ContextField.utm_source s = codes "first_source"
column_of ContextField.utm_medium s = codes "first_medium"
column_of ContextField.utm_campaign s = codes "first_campaign"

pub data Merge : Type 0 where
  arg_max arg_min : Merge

abbrev pub is_arg_max : Merge → Bool
is_arg_max arg_max = true
is_arg_max arg_min = false

unfoldable pub merge_function : Merge → Units
merge_function arg_max = codes "argMaxMerge"
merge_function arg_min = codes "argMinMerge"

-- `DEVICE_MERGES`
unfoldable pub device_merges : List (Units × Merge)
device_merges =
    (codes "latest_country", arg_max)
    ∷ (codes "latest_region", arg_max)
    ∷ (codes "latest_city", arg_max)
    ∷ (codes "latest_device", arg_max)
    ∷ (codes "latest_os", arg_max)
    ∷ (codes "latest_browser", arg_max)
    ∷ (codes "first_referrer", arg_min)
    ∷ (codes "first_source", arg_min)
    ∷ (codes "first_medium", arg_min)
    ∷ (codes "first_campaign", arg_min)
    ∷ (codes "first_country", arg_min)
    ∷ (codes "first_region", arg_min)
    ∷ (codes "first_city", arg_min)
    ∷ (codes "first_device", arg_min)
    ∷ (codes "first_os", arg_min)
    ∷ (codes "first_browser", arg_min)
    ∷ []

unfoldable pub merges : Units
merges =
    join (codes ",\n      ")
      (map (λ m. merge_function m.1 ++ codes "(" ++ m.0 ++ codes ") AS m_" ++ m.0) device_merges)

unfoldable pub latest_columns : Units
latest_columns = join (codes ",\n      ") (
    map (λ m. codes "argMax(m_" ++ m.0 ++ codes ", m_last_seen) AS " ++ m.0)
      (filter (λ m. is_arg_max m.1) device_merges))

unfoldable pub first_columns : Units
first_columns = join (codes ",\n      ") (
    map (λ m. codes "argMin(m_" ++ m.0 ++ codes ", m_first_seen) AS " ++ m.0)
      (filter (λ m. not (is_arg_max m.1)) device_merges))

-- The two common table expressions; `project` is the placeholder of the project.
unfoldable pub base_text : Units → Units → Units
base_text project resolved =
    codes
      "dev AS (\n    SELECT\n      project_id,\n      anonymous_id,\n      user_id,\n      minMerge(first_seen) AS m_first_seen,\n      maxMerge(last_seen)  AS timestamp,\n      maxMerge(last_seen)  AS m_last_seen,\n      "
    ++ merges
    ++ codes "\n    FROM device_index\n    WHERE project_id = "
    ++ project
    ++ codes
        "\n    GROUP BY project_id, anonymous_id, user_id, month\n  ),\n  base AS (\n    SELECT\n      "
    ++ resolved
    ++ codes " AS "
    ++ resolved_person_alias
    ++ codes
        ",\n      min(m_first_seen) AS first_seen,\n      max(m_last_seen)  AS last_seen,\n      CAST(max(user_id != ''), 'Bool') AS identified,\n      "
    ++ latest_columns
    ++ codes ",\n      "
    ++ first_columns
    ++ codes "\n    FROM dev\n    GROUP BY "
    ++ resolved_person_alias
    ++ codes "\n  )"

unfoldable pub base_cte : {N : Type 0} → Units → ℕ → Compiler N Units
base_cte database project_id = do
  project ← add_value (Value.count project_id) uint32_type
  resolved ← lift (resolved_person_expr database (some (codes "dev")))
  pure (base_text project resolved)
