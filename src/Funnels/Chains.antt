-- ===== src/Funnels/Chains.antt =====
-- The parts of packages/core/src/funnels/compile.ts that bind no value: the chains of conditions, and
-- the texts around them.
use lyraflow.Prelude.Orders.{Units}
use lyraflow.Prelude.Decimal.{decimal}
use lyraflow.Prelude.Texts.{codes, join}
use lyraflow.Identity.Resolve.{resolved_person_alias}
use lyraflow.Segments.Compile.{member_projection, member_page_size}
use lyraflow.Funnels.Spine.{FunnelSpine, StepPlacement}
use lyraflow.Funnels.Validate.{FunnelValidationError, in_steps}
use lyraflow.Prelude.{
  ℕ, ◌+◌, ◌&&◌, Option, none, some, List, [], ◌∷◌, ◌++◌, map, ltb, leb, if◌then◌else◌, get_elem?,
  get_or, take, nat_eq, string_eq,
}

abbrev pub max_compiled_query_bytes : ℕ
max_compiled_query_bytes = 230000

-- The bytes of a code unit in UTF-8 after another: a surrogate is 3 bytes, for the replacement
-- character, and the two of a pair are 4 together.
unfoldable pub unit_bytes : ℕ → ℕ → ℕ
unit_bytes before c =
    if ltb c 128
    then 1
    else if ltb c 2048
    then 2
    else if leb 56320 c && ltb c 57344 && leb 55296 before && ltb before 56320
    then 1
    else 3

unfoldable pub bytes_after : ℕ → Units → ℕ
bytes_after before [] = 0
bytes_after before (c ∷ s) = unit_bytes before c + bytes_after c s

-- `Buffer.byteLength(sql, 'utf8')`
unfoldable pub byte_length : Units → ℕ
byte_length s = bytes_after 0 s

unfoldable pub query_too_long : ℕ → FunnelValidationError
query_too_long bytes = record {
  message =
      codes "this funnel compiles to a "
      ++ decimal bytes
      ++ codes "-byte query, past the "
      ++ decimal max_compiled_query_bytes
      ++ codes
          "-byte limit ClickHouse can parse; remove some `where` predicates, step audiences, or optional steps";
  code = in_steps;
}

-- `conditions[i]`
abbrev pub condition_at : List Units → ℕ → Units
condition_at conditions i = get_or conditions i []

abbrev pub rank_of : Option StepPlacement → ℕ
rank_of none = 0
rank_of (some p) = p.spine_rank

-- The required steps before an optional one.
unfoldable pub before_branch : List Units → FunnelSpine → ℕ → List Units
before_branch conditions s k =
    map (condition_at conditions) (take (rank_of (get_elem? s.placements k)) s.required)

unfoldable pub branch_chain : List Units → FunnelSpine → ℕ → List Units
branch_chain conditions s k = before_branch conditions s k ++ condition_at conditions k ∷ []

abbrev pub then_next : List Units → Option ℕ → List Units → Option (List Units)
then_next conditions none chain = none
then_next conditions (some next) chain = some (chain ++ condition_at conditions next ∷ [])

unfoldable pub full_chain : List Units → FunnelSpine → ℕ → Option (List Units)
full_chain conditions s k =
    then_next conditions (get_elem? s.required (rank_of (get_elem? s.placements k)))
      (branch_chain conditions s k)

-- One aggregate over a chain.
unfoldable pub window_funnel : Units → List Units → Units
window_funnel window chain =
    codes "windowFunnel("
    ++ window
    ++ codes ")(toUInt64(toUnixTimestamp64Milli(timestamp)), "
    ++ join (codes ", ") chain
    ++ codes ") AS "

unfoldable pub branch_selects : Units → ℕ → List (List Units) → Units
branch_selects window j [] = []
branch_selects window j (chain ∷ chains) =
    codes "\n    "
    ++ window_funnel window chain
    ++ codes "branch_"
    ++ decimal j
    ++ codes ","
    ++ branch_selects window (j + 1) chains

abbrev pub full_select : Units → ℕ → Option (List Units) → Units
full_select window j none = []
full_select window j (some chain) =
    codes "\n    " ++ window_funnel window chain ++ codes "full_" ++ decimal j ++ codes ","

unfoldable pub full_selects : Units → ℕ → List (Option (List Units)) → Units
full_selects window j [] = []
full_selects window j (chain ∷ chains) =
    full_select window j chain ++ full_selects window (j + 1) chains

abbrev pub funnel_attributes : List Units → Units
funnel_attributes [] = []
funnel_attributes (c ∷ cs) = codes ",\n           " ++ join (codes ", ") (c ∷ cs)

-- The placeholders and the texts that the pass is made of.
pub record PassParts : Type 0 where
  pub project : Units
  pub since : Units
  pub scan_end : Units
  pub resolved : Units
  pub attributes : List Units
  pub conditions : List Units
  pub event_list : Units
  pub window : Units
  pub not_suppressed : Units

unfoldable pub per_person : PassParts → FunnelSpine → Units
per_person p s =
    let chain = map (condition_at p.conditions) s.required in
    codes "\n  SELECT\n    "
    ++ p.resolved
    ++ codes " AS "
    ++ resolved_person_alias
    ++ codes ",\n    "
    ++ window_funnel p.window chain
    ++ codes "level,"
    ++ branch_selects p.window 0 (map (branch_chain p.conditions s) s.optional)
    ++ full_selects p.window 0 (map (full_chain p.conditions s) s.optional)
    ++ codes "\n    minIf(timestamp, "
    ++ get_or chain 0 (codes "undefined")
    ++ codes
        ") AS entered_at\n  FROM (\n    SELECT project_id, anonymous_id, user_id, timestamp, event_name,\n           properties, properties_num, event_id"
    ++ funnel_attributes p.attributes
    ++ codes "\n    FROM events\n    WHERE project_id = "
    ++ p.project
    ++ codes "\n      AND timestamp >= "
    ++ p.since
    ++ codes "\n      AND timestamp < "
    ++ p.scan_end
    ++ codes "\n      AND event_name IN ("
    ++ p.event_list
    ++ codes ")\n    LIMIT 1 BY project_id, event_id\n  ) AS e\n  WHERE "
    ++ p.not_suppressed
    ++ codes "\n  GROUP BY "
    ++ resolved_person_alias
    ++ codes "\n"

-- The three lists of people; `after` is the position of the cursor.
unfoldable pub count_text : Units → Units → Units → Units
count_text pass level segment =
    codes "SELECT count() AS person_count\nFROM (" ++ pass ++ codes ")\nWHERE " ++ level ++ segment

unfoldable pub page_text : Units
page_text =
    codes "\nORDER BY entered_at DESC, "
    ++ resolved_person_alias
    ++ codes " ASC\nLIMIT "
    ++ decimal member_page_size

unfoldable pub ids_text : Units → Units → Units → Units → Units
ids_text pass level segment after =
    codes "SELECT "
    ++ resolved_person_alias
    ++ codes ", entered_at\nFROM ("
    ++ pass
    ++ codes ")\nWHERE "
    ++ level
    ++ segment
    ++ after
    ++ page_text

unfoldable pub members_text : Units → Units → Units → Units → Units → Units → Units
members_text base traits pass level segment after =
    codes "WITH\n  "
    ++ join (codes ",\n  ") (base ∷ traits ∷ [])
    ++ codes "\nSELECT\n  "
    ++ member_projection
    ++ codes ",\n  f.entered_at AS entered_at\nFROM ("
    ++ pass
    ++ codes ") AS f\nLEFT JOIN base USING ("
    ++ resolved_person_alias
    ++ codes ")\nLEFT JOIN traits USING ("
    ++ resolved_person_alias
    ++ codes ")\nWHERE "
    ++ level
    ++ segment
    ++ after
    ++ page_text

unfoldable pub histogram_text : Units → Units → Units → Units → Units → Units
histogram_text boundary optional continued pass segment =
    codes "SELECT\n  level,\n  count() AS people,\n  countIf(entered_at > "
    ++ boundary
    ++ codes ") AS partial"
    ++ optional
    ++ continued
    ++ codes "\nFROM ("
    ++ pass
    ++ codes ")\nWHERE level > 0"
    ++ segment
    ++ codes "\nGROUP BY level"
