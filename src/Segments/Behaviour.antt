-- ===== src/Segments/Behaviour.antt =====
-- packages/core/src/segments/behaviour.ts: one pass over the events for all behaviours of a tree, and
-- `attributeColumns` of packages/core/src/segments/predicates.ts.
pub mod Bound
pub mod Injection
use lyraflow.Prelude.Orders.{Units, units_lt}
use lyraflow.Prelude.Decimal.{decimal, units_eq}
use lyraflow.Prelude.Texts.{codes, join}
use lyraflow.JsMap.{JsMap, set}
use lyraflow.Identity.Resolve.{resolved_person_alias, resolved_person_expr}
use lyraflow.Privacy.Suppression.{not_suppressed_expr}
use lyraflow.Segments.Syntax.{
  EventColumnField, WherePredicate, Behavior, Window, Aggregate, text, last, absolute, ever,
}
use lyraflow.Segments.Params.{
  Value, Compiler, pure, lift, ◌>>=◌, add, add_value, string_type, uint32_type, date_time_type,
}
use lyraflow.Segments.Params.Dates.{Platform, ch_date_time, window_ms}
use lyraflow.Segments.Operators.{event_column}
use lyraflow.Segments.Predicates.{where_predicate}
use lyraflow.Prelude.{
  ℕ, zero, suc, ◌+◌, ◌-◌, ◌*◌, ◌/◌, ◌%◌, ◌^◌, ◌≤◌, ◌<◌, min, max, String, ◌≡◌, refl, sym, ap, ◌∙◌,
  subst, ◌≢◌, ◌↔◌, ◌⊎◌, inl, inr, Bool, true, false, not, ◌&&◌, ◌||◌, Option, none, some, List, [],
  ◌∷◌, ◌++◌, map, Memᴰ, arith, ltb, leb, if◌then◌else◌, Bool-cases, Option-cases, is_some,
  get_or_else, length, get_elem?, get_or, take, drop, filter, all, length-append, length-drop,
  length-take, length-filter-le, filter-append, All, All-append, All-drop, All-take, All-filter, Eq,
  ◌==◌, ==_iff, ==_refl, ==_cases, mem-append_left, mem-append_right, mem-filter, All-mem, nat_eq,
  string_eq,
}

-- A set's `add`, on the columns, which are texts in the code.
abbrev pub add_column : Units → List Units → List Units
add_column c [] = c ∷ []
add_column c (d ∷ out) = if c == d then d ∷ out else d ∷ add_column c out

abbrev pub insert_column : Units → List Units → List Units
insert_column c [] = c ∷ []
insert_column c (d ∷ out) = if units_lt d c then d ∷ insert_column c out else c ∷ d ∷ out

-- `[…].sort()`
unfoldable pub sort_columns : List Units → List Units
sort_columns [] = []
sort_columns (c ∷ out) = insert_column c (sort_columns out)

abbrev pub aggregate_text : Aggregate → Units → Units → Units
aggregate_text Aggregate.count key cond = codes "countIf(" ++ cond ++ codes ")"
aggregate_text (Aggregate.sum p) key cond =
    codes "sumIf(properties_num[" ++ key ++ codes "], " ++ cond ++ codes ")"
aggregate_text (Aggregate.min p) key cond =
    codes "minIf(properties_num[" ++ key ++ codes "], " ++ cond ++ codes ")"
aggregate_text (Aggregate.max p) key cond =
    codes "maxIf(properties_num[" ++ key ++ codes "], " ++ cond ++ codes ")"
aggregate_text (Aggregate.distinct p) key cond =
    codes "uniqExactIf(properties[" ++ key ++ codes "], " ++ cond ++ codes ")"

abbrev pub aggregate_property : Aggregate → Option Units
aggregate_property Aggregate.count = none
aggregate_property (Aggregate.sum p) = some p
aggregate_property (Aggregate.min p) = some p
aggregate_property (Aggregate.max p) = some p
aggregate_property (Aggregate.distinct p) = some p

module _ {N : Type 0} where
  abbrev pub add_attribute : WherePredicate N → List Units → List Units
  add_attribute (WherePredicate.attribute field clause) out = add_column (event_column field) out
  add_attribute (WherePredicate.property name clause) out = out

  unfoldable pub attributes_of : List (WherePredicate N) → List Units → List Units
  attributes_of [] out = out
  attributes_of (w ∷ ws) out = attributes_of ws (add_attribute w out)

  unfoldable pub attribute_columns : List (WherePredicate N) → List Units
  attribute_columns predicates = sort_columns (attributes_of predicates [])

  -- `behaviors.flatMap((b) => b.where ?? [])`
  abbrev pub all_predicates : List (Behavior N) → List (WherePredicate N)
  all_predicates [] = []
  all_predicates (b ∷ bs) = b.where_ ++ all_predicates bs

  abbrev pub add_property : Option Units → Compiler N Units
  add_property none = pure []
  add_property (some p) = add (text p) string_type

  -- `aggregate`
  unfoldable pub aggregate_expr : Aggregate → Units → Compiler N Units
  aggregate_expr a cond = do
    key ← add_property (aggregate_property a)
    pure (aggregate_text a key cond)

-- The start of a window: none, or what may be an invalid date.
module _ {N D : Type 0} (js : Platform N D) (now : D) where
  unfoldable pub window_start : Window → Option (Option D)
  window_start ever = none
  window_start (absolute from to) = some (js.parse from)
  window_start (last w) = some (some (js.back now (window_ms w)))

  abbrev pub event_part : Units → Compiler N (List Units)
  event_part event =
      if event == codes "*"
      then pure []
      else (do a ← add (text event) string_type; pure ((codes "event_name = " ++ a) ∷ []))

  -- A bound of the timestamp, as a date.
  unfoldable pub bound_part : Units → Option D → Compiler N Units
  bound_part op date = do
    at ← lift (ch_date_time js date)
    a ← add (text at) date_time_type
    pure (codes "timestamp " ++ op ++ codes " " ++ a)

  abbrev pub start_part : Option (Option D) → Compiler N (List Units)
  start_part none = pure []
  start_part (some date) = do a ← bound_part (codes ">=") date; pure (a ∷ [])

  abbrev pub end_part : Window → Compiler N (List Units)
  end_part (absolute from to) = do a ← bound_part (codes "<=") (js.parse to); pure (a ∷ [])
  end_part (last w) = pure []
  end_part ever = pure []

  unfoldable pub where_parts : List (WherePredicate N) → Compiler N (List Units)
  where_parts [] = pure []
  where_parts (w ∷ ws) = do
    part ← where_predicate js now w
    parts ← where_parts ws
    pure (part ∷ parts)

  abbrev pub all_of : List Units → Units
  all_of [] = codes "1"
  all_of (part ∷ parts) = join (codes " AND ") (part ∷ parts)

  unfoldable pub condition : Behavior N → Compiler N Units
  condition b = do
    event ← event_part b.event
    start ← start_part (window_start b.window)
    end ← end_part b.window
    predicates ← where_parts b.where_
    pure (all_of (event ++ start ++ end ++ predicates))

  -- `aliasFor`, and what the loop over the behaviours writes, from the index `i`.
  unfoldable pub aggregates :
      List (Behavior N) → ℕ → JsMap ℕ Units → Compiler N (List Units × JsMap ℕ Units)
  aggregates [] i alias_for = pure ([], alias_for)
  aggregates (b ∷ bs) i alias_for = do
    let alias = codes "b" ++ decimal i
    cond ← condition b
    expr ← aggregate_expr b.aggregate cond
    rest ← aggregates bs (i + 1) (set b.identity alias alias_for)
    pure ((expr ++ codes " AS " ++ alias) ∷ rest.0, rest.1)

  abbrev pub earlier_start : Option D → Option D → Option D
  earlier_start (some a) (some b) = some (js.earlier a b)
  earlier_start _ _ = none

  abbrev pub starts_of : List (Behavior N) → List (Option (Option D))
  starts_of bs = map (λ b. window_start b.window) bs

  -- The widest window: none when a window has no start.
  unfoldable pub widest : Option (Option D) → List (Option (Option D)) → Option (Option D)
  widest none starts = none
  widest (some d) [] = some d
  widest (some d) (none ∷ starts) = none
  widest (some d) (some e ∷ starts) = widest (some (earlier_start d e)) starts

  unfoldable pub scan_bound : Option (Option D) → Compiler N Units
  scan_bound none = pure []
  scan_bound (some date) = do a ← bound_part (codes ">=") date; pure (codes " AND " ++ a)

abbrev pub attribute_select : List Units → Units
attribute_select [] = []
attribute_select (c ∷ cs) = codes ",\n             " ++ join (codes ", ") (c ∷ cs)

-- What the pass writes.
unfoldable pub pass_text : Units → Units → List Units → List Units → Units → Units → Units
pass_text project resolved columns attributes scan not_suppressed =
    codes "beh AS (\n    SELECT\n      "
    ++ resolved
    ++ codes " AS "
    ++ resolved_person_alias
    ++ codes ",\n      "
    ++ join (codes ",\n      ") columns
    ++ codes
        "\n    FROM (\n      SELECT project_id, anonymous_id, user_id, timestamp, event_name,\n             properties, properties_num, event_id"
    ++ attribute_select attributes
    ++ codes "\n      FROM events\n      WHERE project_id = "
    ++ project
    ++ scan
    ++ codes "\n      LIMIT 1 BY project_id, event_id\n    ) AS e\n    WHERE "
    ++ not_suppressed
    ++ codes "\n    GROUP BY "
    ++ resolved_person_alias
    ++ codes "\n  )"

module _ {N D : Type 0} (js : Platform N D) (now : D) (database : Units) (project_id : ℕ) where
  unfoldable pub behaviour_pass :
      Behavior N → List (Behavior N) → Compiler N (Units × JsMap ℕ Units)
  behaviour_pass b bs = do
    project ← add_value (Value.count project_id) uint32_type
    scan ← scan_bound js now (widest js now (window_start js now b.window) (starts_of js now bs))
    columns ← aggregates js now (b ∷ bs) 0 []
    resolved ← lift (resolved_person_expr database (some (codes "e")))
    kept ← not_suppressed_expr database project_id resolved (codes "e.timestamp")
    pure (
      pass_text project resolved columns.0 (attribute_columns (all_predicates (b ∷ bs))) scan kept,
      columns.1,
    )

  -- `behaviourCte`: no expression for a tree without behaviours.
  unfoldable pub behaviour_cte : List (Behavior N) → Compiler N (Option Units × JsMap ℕ Units)
  behaviour_cte [] = pure (none, [])
  behaviour_cte (b ∷ bs) = do pass ← behaviour_pass b bs; pure (some pass.0, pass.1)
