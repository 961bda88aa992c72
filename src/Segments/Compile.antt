-- ===== src/Segments/Compile.antt =====
-- packages/core/src/segments/compile.ts: the query that a segment compiles to, with the bounds of
-- packages/core/src/segments/limits.ts. The parameters that an embedding query has bound already are
-- those that the compiler is run on.
mod Tests
pub mod Injection
pub mod Bound
use lyraflow.Prelude.Orders.{Units}
use lyraflow.Prelude.Decimal.{decimal}
use lyraflow.Prelude.Texts.{codes, join}
use lyraflow.Identity.Resolve.{resolved_person_alias, resolved_person_expr}
use lyraflow.Privacy.Suppression.{not_suppressed_expr}
use lyraflow.Segments.Syntax.{
  ContextField, Behavior, FilterNode, FilterNodes, SegmentQuery, text, latest,
}
use lyraflow.Segments.Validate.{SegmentValidationError, CostWarning, validate_tree, cost_warnings}
use lyraflow.Segments.Params.{
  Params, Value, Result, Compiler, pure, fail, lift, ◌>>=◌, add, add_value, string_type,
  uint32_type, date_time_type, invalid_tree,
}
use lyraflow.Segments.Params.Dates.{Platform}
use lyraflow.Segments.Operators.{context_name}
use lyraflow.Segments.Base.{column_of, base_cte}
use lyraflow.Segments.Predicates.{tree_expr}
use lyraflow.Segments.Behaviour.{behaviour_cte}
use lyraflow.Prelude.{
  ℕ, zero, suc, ◌+◌, ◌-◌, ◌*◌, ◌/◌, ◌%◌, ◌^◌, ◌≤◌, ◌<◌, min, max, String, ◌≡◌, refl, sym, ap, ◌∙◌,
  subst, ◌≢◌, ◌↔◌, ◌⊎◌, inl, inr, Bool, true, false, not, ◌&&◌, ◌||◌, Option, none, some, List, [],
  ◌∷◌, ◌++◌, map, Memᴰ, arith, ltb, leb, if◌then◌else◌, Bool-cases, Option-cases, is_some,
  get_or_else, length, get_elem?, get_or, take, drop, filter, all, length-append, length-drop,
  length-take, length-filter-le, filter-append, All, All-append, All-drop, All-take, All-filter, Eq,
  ◌==◌, ==_iff, ==_refl, ==_cases, mem-append_left, mem-append_right, mem-filter, All-mem, nat_eq,
  string_eq,
}

abbrev pub member_page_size : ℕ
member_page_size = 100

abbrev pub traits_per_member_max : ℕ
traits_per_member_max = 50

-- A position in the walk of the members.
pub record Cursor : Type 0 where
  pub last_seen : Units
  pub person_id : Units

pub data Select : Type 0 where
  selects_count selects_members selects_persons : Select

pub record CompiledQuery : Type 0 where
  pub sql : Units
  pub warnings : List CostWarning

-- `CONTEXT_FIELDS`
abbrev pub context_fields : List ContextField
context_fields =
    ContextField.country ∷ ContextField.region ∷ ContextField.city ∷ ContextField.device_type
    ∷ ContextField.os ∷ ContextField.browser ∷ ContextField.referrer ∷ ContextField.utm_source
    ∷ ContextField.utm_medium ∷ ContextField.utm_campaign ∷ []

-- `boundedTraitMap`, of the texts' map or of the numbers'
unfoldable pub bounded_trait_map : Units → Units → Units → Units
bounded_trait_map source has_num type_ =
    let mine =
      codes "mapFilter((k, v) -> t_has_num[k] = " ++ has_num ++ codes ", " ++ source ++ codes ")" in
    let keys =
      codes "arraySlice(arraySort(mapKeys("
      ++ mine
      ++ codes ")), 1, "
      ++ decimal traits_per_member_max
      ++ codes ")" in
    codes "CAST(("
    ++ keys
    ++ codes ", arrayMap(k -> "
    ++ source
    ++ codes "[k], "
    ++ keys
    ++ codes ")), 'Map(String, "
    ++ type_
    ++ codes ")')"

unfoldable pub member_projection : Units
member_projection = join (codes ",\n  ") (
    (codes "person_id" ∷ codes "first_seen" ∷ codes "last_seen" ∷ codes "identified" ∷ [])
    ++ map (λ f. column_of f latest ++ codes " AS " ++ context_name f) context_fields
    ++ (bounded_trait_map (codes "t_str") (codes "0") (codes "String") ++ codes " AS traits")
      ∷ (bounded_trait_map (codes "t_num") (codes "1") (codes "Float64") ++ codes " AS traits_num")
      ∷ codes "toUInt32(length(t_has_num)) AS trait_total"
      ∷ [])

unfoldable pub traits_text : Units → Units → Units
traits_text resolved project =
    codes "traits AS (\n    SELECT\n      "
    ++ resolved
    ++ codes " AS "
    ++ resolved_person_alias
    ++ codes
        ",\n      CAST((groupArray(trait_key), groupArray(m_value_str)), 'Map(String, String)')  AS t_str,\n      CAST((groupArray(trait_key), groupArray(m_value_num)), 'Map(String, Float64)') AS t_num,\n      CAST((groupArray(trait_key), groupArray(m_has_num)),   'Map(String, UInt8)')   AS t_has_num\n    FROM (\n      SELECT\n        anonymous_id, user_id, project_id, trait_key,\n        argMaxMerge(value_str) AS m_value_str,\n        argMaxMerge(value_num) AS m_value_num,\n        argMaxMerge(has_num)   AS m_has_num,\n        now() AS timestamp\n      FROM person_traits\n      WHERE project_id = "
    ++ project
    ++ codes
        "\n      GROUP BY project_id, anonymous_id, user_id, trait_key\n    ) AS tr\n    GROUP BY "
    ++ resolved_person_alias
    ++ codes "\n  )"

module _ {N : Type 0} where
  unfoldable mutual
    -- `collectBehaviors`, whose array holds `out` before.
    pub collect_behaviors : FilterNode N → List (Behavior N) → List (Behavior N)
    collect_behaviors (FilterNode.group op children) out = collect_all children out
    collect_behaviors (FilterNode.negation child) out = collect_behaviors child out
    collect_behaviors (FilterNode.behavior b) out = out ++ b ∷ []
    collect_behaviors _ out = out

    pub collect_all : FilterNodes N → List (Behavior N) → List (Behavior N)
    collect_all FilterNodes.nil out = out
    collect_all (FilterNodes.cons child children) out =
        collect_all children (collect_behaviors child out)

  unfoldable pub traits_cte : Units → ℕ → Compiler N Units
  traits_cte database project_id = do
    resolved ← lift (resolved_person_expr database (some (codes "tr")))
    project ← add_value (Value.count project_id) uint32_type
    pure (traits_text resolved project)

  abbrev pub after_cursor : Select → Option Cursor → Compiler N Units
  after_cursor selects_members (some cursor) = do
    older ← add (text cursor.last_seen) date_time_type
    same ← add (text cursor.last_seen) date_time_type
    later ← add (text cursor.person_id) string_type
    pure (
        codes " AND (last_seen < "
        ++ older
        ++ codes " OR (last_seen = "
        ++ same
        ++ codes " AND person_id > "
        ++ later
        ++ codes "))")
  after_cursor selects_members none = pure []
  after_cursor selects_count cursor = pure []
  after_cursor selects_persons cursor = pure []

unfoldable pub projection : Select → Units
projection selects_members = codes "SELECT\n  " ++ member_projection
projection selects_persons = codes "SELECT " ++ resolved_person_alias
projection selects_count = codes "SELECT count() AS person_count"

unfoldable pub tail_of : Select → Units
tail_of selects_members =
    codes "\nORDER BY last_seen DESC, person_id ASC\nLIMIT " ++ decimal member_page_size
tail_of selects_persons = []
tail_of selects_count = []

abbrev pub pass_cte : Option Units → List Units
pass_cte none = []
pass_cte (some cte) = cte ∷ []

abbrev pub pass_join : Option Units → Units
pass_join none = []
pass_join (some cte) = codes "LEFT JOIN beh USING (" ++ resolved_person_alias ++ codes ")"

unfoldable pub query_text : Select → Units → Units → Option Units → Units → Units → Units → Units
query_text select base traits pass suppressed where_ after =
    codes "WITH\n  "
    ++ join (codes ",\n  ") (base ∷ traits ∷ pass_cte pass)
    ++ codes "\n"
    ++ projection select
    ++ codes "\nFROM base\nLEFT JOIN traits USING ("
    ++ resolved_person_alias
    ++ codes ")\n"
    ++ pass_join pass
    ++ codes "\nWHERE "
    ++ suppressed
    ++ codes "\n  AND ("
    ++ where_
    ++ codes ")"
    ++ after
    ++ tail_of select

-- What follows `validateTree`.
abbrev pub checked :
    {N : Type 0}
    → Option SegmentValidationError
    → Compiler N CompiledQuery
    → Compiler N CompiledQuery
checked (some e) compile = fail (invalid_tree e)
checked none compile = compile

module _ {N D : Type 0} (js : Platform N D) (database : Units) (now : D) where
  unfoldable pub compile_sql : SegmentQuery N → ℕ → Select → Option Cursor → Compiler N Units
  compile_sql q project_id select cursor = do
    base ← base_cte database project_id
    pass ← behaviour_cte js now database project_id (collect_behaviors q.filter [])
    where_ ← tree_expr js now pass.1 q.filter
    traits ← traits_cte database project_id
    suppressed ←
        not_suppressed_expr database project_id (codes "base." ++ resolved_person_alias)
          (codes "base.last_seen")
    after ← after_cursor select cursor
    pure (query_text select base traits pass.0 suppressed where_ after)

  unfoldable pub compile_segment :
      SegmentQuery N → ℕ → Select → Option Cursor → Compiler N CompiledQuery
  compile_segment q project_id select cursor = checked (validate_tree q) (do
    sql ← compile_sql q project_id select cursor
    pure (record { sql = sql; warnings = cost_warnings q }))
