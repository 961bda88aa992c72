-- ===== src/Segments/Predicates.antt =====
-- packages/core/src/segments/predicates.ts: the condition that a filter tree compiles to. What the
-- code reads from `ctx` is the alias of each behaviour, keyed by the object, and `now`.
pub mod Injection
pub mod Bound
use lyraflow.Prelude.Orders.{Units, units_lt}
use lyraflow.Prelude.Texts.{codes, join}
use lyraflow.JsMap.{JsMap, get}
use lyraflow.Segments.Syntax.{
  ComparisonOperator, TextOperator, SetOperator, BooleanOperator, RelativeOperator, ContextField,
  EventColumnField, LifecycleField, Scalar, Comparison, RelativeWindow, AnyValueClause,
  ColumnClause, LifecycleClause, Scope, WherePredicate, Behavior, Trait, Context, Lifecycle,
  GroupOp, FilterNode, FilterNodes, text, number, single, between,
}
use lyraflow.Segments.Params.{
  ChType, Compiler, pure, fail, lift, ◌>>=◌, add, string_type, float64_type, date_time_type,
  unregistered_behavior,
}
use lyraflow.Segments.Params.Dates.{Platform, string_of, lifecycle_instant, ch_date_time, window_ms}
use lyraflow.Segments.Base.{column_of}
use lyraflow.Segments.Operators.{
  operator_text, event_column, lifecycle_name, is_numeric, as_scalars, text_test, set_expr,
  flag_text, relative_test, as_date,
}
use lyraflow.Prelude.{
  ℕ, zero, suc, ◌+◌, ◌-◌, ◌*◌, ◌/◌, ◌%◌, ◌^◌, ◌≤◌, ◌<◌, min, max, String, ◌≡◌, refl, sym, ap, ◌∙◌,
  subst, ◌≢◌, ◌↔◌, ◌⊎◌, inl, inr, Bool, true, false, not, ◌&&◌, ◌||◌, Option, none, some, List, [],
  ◌∷◌, ◌++◌, map, Memᴰ, arith, ltb, leb, if◌then◌else◌, Bool-cases, Option-cases, is_some,
  get_or_else, length, get_elem?, get_or, take, drop, filter, all, length-append, length-drop,
  length-take, length-filter-le, filter-append, All, All-append, All-drop, All-take, All-filter, Eq,
  ◌==◌, ==_iff, ==_refl, ==_cases, mem-append_left, mem-append_right, mem-filter, All-mem, nat_eq,
  string_eq,
}

module _ {N : Type 0} where
  unfoldable pub compare : Units → Comparison (Scalar N) → ChType → Compiler N Units
  compare lhs (between lo hi) type_ = do
    a ← add lo type_
    b ← add hi type_
    pure (lhs ++ codes " BETWEEN " ++ a ++ codes " AND " ++ b)
  compare lhs (single op v) type_ = do
    a ← add v type_
    pure (lhs ++ codes " " ++ operator_text op ++ codes " " ++ a)

  unfoldable pub text_expr : Units → TextOperator → Units → Compiler N Units
  text_expr lhs op value = do
    a ← add (text value) string_type
    pure (
        text_test op (codes "lowerUTF8(" ++ lhs ++ codes ")")
          (codes "lowerUTF8(" ++ a ++ codes ")"))

  unfoldable pub boolean_expr : Units → BooleanOperator → Compiler N Units
  boolean_expr lhs op = do a ← add (text (flag_text op)) string_type; pure (lhs ++ codes " = " ++ a)

  abbrev pub column_value : Units → ColumnClause (Scalar N) → Compiler N Units
  column_value column (ColumnClause.matches op v) = text_expr column op v
  column_value column (ColumnClause.presence op) = pure (set_expr (column ++ codes " != ''") op)
  column_value column (ColumnClause.compares c) = compare column c string_type

  abbrev pub scalar_clause : ColumnClause Units → ColumnClause (Scalar N)
  scalar_clause (ColumnClause.matches op v) = ColumnClause.matches op v
  scalar_clause (ColumnClause.presence op) = ColumnClause.presence op
  scalar_clause (ColumnClause.compares c) = ColumnClause.compares (as_scalars c)

  abbrev pub property_comparison : Units → Comparison (Scalar N) → Compiler N Units
  property_comparison key c =
      if is_numeric c
      then compare (codes "properties_num[" ++ key ++ codes "]") c float64_type
      else compare (codes "properties[" ++ key ++ codes "]") c string_type

  abbrev pub trait_comparison : Units → Comparison (Scalar N) → Compiler N Units
  trait_comparison key c =
      if is_numeric c
      then (do
        cmp ← compare (codes "t_num[" ++ key ++ codes "]") c float64_type
        pure (codes "(t_has_num[" ++ key ++ codes "] = 1 AND " ++ cmp ++ codes ")"))
      else compare (codes "t_str[" ++ key ++ codes "]") c string_type

  unfoldable pub context_expr : Context N → Compiler N Units
  context_expr c = column_value (column_of c.field c.scope) c.clause

  abbrev pub aliased : Option Units → Comparison (Scalar N) → Compiler N Units
  aliased none c = fail unregistered_behavior
  aliased (some alias) c = compare (codes "coalesce(" ++ alias ++ codes ", 0)") c float64_type

  unfoldable pub behavior_expr : JsMap ℕ Units → Behavior N → Compiler N Units
  behavior_expr alias_for b = aliased (get b.identity alias_for) b.comparison

abbrev pub group_text : GroupOp → Units
group_text GroupOp.and = codes " AND "
group_text GroupOp.or = codes " OR "

-- What a compiler of one query has: the platform, the alias of each behaviour and the instant `now`.
module _ {N D : Type 0} (js : Platform N D) (now : D) where
  unfoldable pub relative_expr : Units → RelativeOperator → RelativeWindow → Bool → Compiler N Units
  relative_expr date op window nullable = do
    at ← lift (ch_date_time js (some (js.back now (window_ms window))))
    from ← add (text at) date_time_type
    let cmp = date ++ codes " >= " ++ from
    pure (
        relative_test op (
          if nullable
          then codes "ifNull(" ++ cmp ++ codes ", 0)"
          else codes "(" ++ cmp ++ codes ")"))

  -- The clauses that a property and a trait share; `present` is the test of presence, and
  -- `comparison` what a comparison compiles to.
  abbrev pub any_value :
      Units
      → Units
      → (Comparison (Scalar N) → Compiler N Units)
      → AnyValueClause N
      → Compiler N Units
  any_value str present comparison (AnyValueClause.matches op v) = text_expr str op v
  any_value str present comparison (AnyValueClause.flag op) = boolean_expr str op
  any_value str present comparison (AnyValueClause.relative op w) =
      relative_expr (as_date str) op w true
  any_value str present comparison (AnyValueClause.presence op) = pure (set_expr present op)
  any_value str present comparison (AnyValueClause.compares c) = comparison c

  unfoldable pub where_predicate : WherePredicate N → Compiler N Units
  where_predicate (WherePredicate.attribute field clause) =
      column_value (event_column field) (scalar_clause clause)
  where_predicate (WherePredicate.property name clause) = do
    key ← add (text name) string_type
    any_value (codes "properties[" ++ key ++ codes "]")
        (codes "(mapContains(properties, "
          ++ key
          ++ codes ") OR mapContains(properties_num, "
          ++ key
          ++ codes "))")
        (property_comparison key) clause

  unfoldable pub trait_expr : Trait N → Compiler N Units
  trait_expr t = do
    key ← add (text t.key) string_type
    any_value (codes "t_str[" ++ key ++ codes "]")
        (codes "mapContains(t_has_num, " ++ key ++ codes ")") (trait_comparison key) t.clause

  -- A bound of `lifecycleExpr`, bound as a date.
  unfoldable pub add_instant : Scalar N → Compiler N Units
  add_instant v = do
    at ← lift (ch_date_time js (lifecycle_instant js (string_of js v)))
    add (text at) date_time_type

  abbrev pub lifecycle_clause : Units → LifecycleClause N → Compiler N Units
  lifecycle_clause field (LifecycleClause.relative op w) = relative_expr field op w false
  lifecycle_clause field (LifecycleClause.compares (between lo hi)) = do
    a ← add_instant lo
    b ← add_instant hi
    pure (field ++ codes " BETWEEN " ++ a ++ codes " AND " ++ b)
  lifecycle_clause field (LifecycleClause.compares (single op v)) = do
    a ← add_instant v
    pure (field ++ codes " " ++ operator_text op ++ codes " " ++ a)

  unfoldable pub lifecycle_expr : Lifecycle N → Compiler N Units
  lifecycle_expr l = lifecycle_clause (lifecycle_name l.field) l.clause

  unfoldable mutual
    pub tree_expr : JsMap ℕ Units → FilterNode N → Compiler N Units
    tree_expr alias_for (FilterNode.group op children) = do
      parts ← tree_exprs alias_for children
      pure (codes "(" ++ join (group_text op) parts ++ codes ")")
    tree_expr alias_for (FilterNode.negation child) = do
      inner ← tree_expr alias_for child
      pure (codes "NOT (" ++ inner ++ codes ")")
    tree_expr alias_for (FilterNode.trait t) = trait_expr t
    tree_expr alias_for (FilterNode.context c) = context_expr c
    tree_expr alias_for (FilterNode.lifecycle l) = lifecycle_expr l
    tree_expr alias_for (FilterNode.behavior b) = behavior_expr alias_for b

    -- `node.children.map(c => treeExpr(c, ctx))`
    pub tree_exprs : JsMap ℕ Units → FilterNodes N → Compiler N (List Units)
    tree_exprs alias_for FilterNodes.nil = pure []
    tree_exprs alias_for (FilterNodes.cons child children) = do
      part ← tree_expr alias_for child
      parts ← tree_exprs alias_for children
      pure (part ∷ parts)
