-- ===== src/Retention/Texts.antt =====
-- The text of the query of packages/core/src/retention/compile.ts, around what it binds.
use lyraflow.Prelude.Orders.{Units}
use lyraflow.Prelude.Decimal.{units_eq}
use lyraflow.Prelude.Texts.{codes, join}
use lyraflow.Identity.Resolve.{resolved_person_alias}
use lyraflow.Retention.Validate.{Granularity, day, week, month, granularity_text}
use lyraflow.Prelude.{
  not, Option, none, some, List, [], ◌∷◌, ◌++◌, map, if◌then◌else◌, filter, ◌==◌, nat_eq, string_eq,
}

-- `BUCKET[granularity].of`; its unit is the name of the granularity.
unfoldable pub bucket_of : Granularity → Units → Units
bucket_of day ts = codes "toDate(" ++ ts ++ codes ")"
bucket_of week ts = codes "toStartOfWeek(" ++ ts ++ codes ", 1)"
bucket_of month ts = codes "toStartOfMonth(" ++ ts ++ codes ")"

-- `[...new Set(names)]` of two names.
abbrev pub name_set : Units → Units → List Units
name_set start end = if start == end then start ∷ [] else start ∷ end ∷ []

-- `nameFilter`: neither event is `*`.
unfoldable pub name_filter : Option Units → Option Units → Units
name_filter (some start) (some end) =
    codes "\n      AND event_name IN (" ++ join (codes ", ") (name_set start end) ++ codes ")"
name_filter none end = []
name_filter (some start) none = []

abbrev pub base_condition : Option Units → Units
base_condition none = codes "1"
base_condition (some name) = codes "event_name = " ++ name

abbrev pub all_real : List Units → Units
all_real [] = codes "1"
all_real (part ∷ parts) = join (codes " AND ") (part ∷ parts)

-- `clause`, of its parts
unfoldable pub clause_text : List Units → Units
clause_text parts = all_real (filter (λ p. not (p == codes "1")) parts)

abbrev pub inner_select : List Units → Units
inner_select [] = []
inner_select (c ∷ cs) = codes ", " ++ join (codes ", ") (c ∷ cs)

abbrev pub scan_select : List Units → Units
scan_select [] = []
scan_select (c ∷ cs) =
    codes ",\n    "
    ++ join (codes ",\n    ") (map (λ c. codes "e." ++ c ++ codes " AS " ++ c) (c ∷ cs))

-- A segment that is absent or the empty text restricts nothing.
abbrev pub segment_filter : Option Units → Units
segment_filter none = []
segment_filter (some []) = []
segment_filter (some (c ∷ sql)) =
    codes " AND " ++ resolved_person_alias ++ codes " IN (" ++ (c ∷ sql) ++ codes ")"

-- The placeholders and the texts that the query is made of.
pub record Parts : Type 0 where
  pub granularity : Granularity
  pub project : Units
  pub since : Units
  pub until : Units
  pub scan_end : Units
  pub periods : Units
  pub resolved : Units
  pub not_suppressed : Units
  pub names : Units
  pub start_condition : Units
  pub return_condition : Units
  pub columns : List Units
  pub segment : Option Units

unfoldable pub scan_text : Parts → Units
scan_text p =
    codes "\nWITH scan AS (\n  SELECT\n    "
    ++ p.resolved
    ++ codes " AS "
    ++ resolved_person_alias
    ++ codes ",\n    e.event_name AS event_name,\n    e.timestamp  AS timestamp"
    ++ scan_select p.columns
    ++ codes
        "\n  FROM (\n    SELECT project_id, anonymous_id, user_id, timestamp, event_name, event_id"
    ++ inner_select p.columns
    ++ codes "\n    FROM events\n    WHERE project_id = "
    ++ p.project
    ++ codes "\n      AND timestamp >= "
    ++ p.since
    ++ codes "\n      AND timestamp < "
    ++ p.scan_end
    ++ p.names
    ++ codes "\n    LIMIT 1 BY project_id, event_id\n  ) AS e\n  WHERE "
    ++ p.not_suppressed
    ++ codes "\n),\n"

unfoldable pub cohorts_text : Parts → Units
cohorts_text p =
    codes "cohorts AS (\n  SELECT\n    "
    ++ resolved_person_alias
    ++ codes ",\n    "
    ++ bucket_of p.granularity (codes "min(timestamp)")
    ++ codes " AS cohort\n  FROM scan\n  WHERE "
    ++ p.start_condition
    ++ codes " AND timestamp < "
    ++ p.until
    ++ segment_filter p.segment
    ++ codes "\n  GROUP BY "
    ++ resolved_person_alias
    ++ codes "\n),\n"

unfoldable pub activity_text : Parts → Units
activity_text p =
    codes "activity AS (\n  SELECT\n    "
    ++ resolved_person_alias
    ++ codes ",\n    groupUniqArray("
    ++ bucket_of p.granularity (codes "timestamp")
    ++ codes ") AS buckets\n  FROM scan\n  WHERE "
    ++ p.return_condition
    ++ codes "\n  GROUP BY "
    ++ resolved_person_alias
    ++ codes "\n),\n"

unfoldable pub grid_text : Parts → Units
grid_text p =
    codes
      "per_person AS (\n  SELECT\n    c.cohort AS cohort,\n    arrayMap(\n      k -> toUInt8(has(\n        arrayMap(b -> dateDiff('"
    ++ granularity_text p.granularity
    ++ codes "', c.cohort, b), a.buckets),\n        k\n      )),\n      range(0, "
    ++ p.periods
    ++ codes " + 1)\n    ) AS hit\n  FROM cohorts AS c\n  LEFT JOIN activity AS a USING ("
    ++ resolved_person_alias
    ++ codes
        ")\n)\nSELECT\n  toString(cohort)   AS cohort,\n  toUInt32(count())  AS cohort_size,\n  arrayMap(v -> toUInt32(v), sumForEach(hit)) AS retained\nFROM per_person\nGROUP BY cohort\nORDER BY cohort\n"

unfoldable pub retention_text : Parts → Units
retention_text p = scan_text p ++ cohorts_text p ++ activity_text p ++ grid_text p
