-- ===== src/Segments/Predicates/Bound.antt =====
-- What the compilers of packages/core/src/segments/predicates.ts bind and throw.
use lyraflow.Prelude.Orders.{Units}
use lyraflow.Prelude.Decimal.{units_eq}
use lyraflow.JsMap.{JsMap, get}
use lyraflow.Segments.Syntax.{
  TextOperator, BooleanOperator, RelativeOperator, Scalar, Comparison, RelativeWindow,
  AnyValueClause, ColumnClause, LifecycleClause, WherePredicate, Trait, FilterNode, FilterNodes,
  text, single, between,
}
use lyraflow.Segments.Params.{ChType, string_type, float64_type, date_time_type, Compiler}
use lyraflow.Segments.Params.Dates.{Platform, ch_date_time}
use lyraflow.Segments.Params.Bound.{
  AllowedResult, Any, Meets, pure-Meets, add-Meets, bind-Meets, lift-Meets, if-Meets,
}
use lyraflow.Segments.Operators.{is_numeric, lifecycle_name}
use lyraflow.Segments.Predicates.{
  compare, text_expr, boolean_expr, relative_expr, any_value, column_value, scalar_clause,
  property_comparison, where_predicate, trait_comparison, trait_expr, context_expr, add_instant,
  lifecycle_clause, lifecycle_expr, behavior_expr, aliased, tree_expr, tree_exprs,
}
use lyraflow.Prelude.{ℕ, ◌≡◌, Bool, true, false, Option, none, some, is_some, nat_eq, string_eq}

-- Every behaviour of a tree has an alias.
unfoldable mutual
  pub Registered : {N : Type 0} → JsMap ℕ Units → FilterNode N → Type 0
  Registered alias_for (FilterNode.group op children) = AllRegistered alias_for children
  Registered alias_for (FilterNode.negation child) = Registered alias_for child
  Registered alias_for (FilterNode.behavior b) = is_some (get b.identity alias_for) ≡ true
  Registered alias_for _ = Unit

  pub AllRegistered : {N : Type 0} → JsMap ℕ Units → FilterNodes N → Type 0
  AllRegistered alias_for FilterNodes.nil = Unit
  AllRegistered alias_for (FilterNodes.cons child children) =
      Registered alias_for child × AllRegistered alias_for children

module _ {N D : Type 0} (js : Platform N D) (now : D) (db : Units) where
  pub ch_date_time-Allowed : (d : Option D) → AllowedResult db (ch_date_time js d)
  unfolding ch_date_time
  ch_date_time-Allowed none = tt
  ch_date_time-Allowed (some d) = tt

  compare-Meets :
      (lhs : Units) (c : Comparison (Scalar N)) (t : ChType) → Meets db (compare lhs c t) Any
  unfolding compare
  compare-Meets lhs (between lo hi) t =
      bind-Meets db _ _ Any Any (add-Meets db lo t)
        (λ a _. bind-Meets db _ _ Any Any (add-Meets db hi t) (λ b _. pure-Meets db))
  compare-Meets lhs (single op v) t =
      bind-Meets db _ _ Any Any (add-Meets db v t) (λ a _. pure-Meets db)

  text_expr-Meets :
      (lhs : Units) (op : TextOperator) (v : Units) → Meets {N = N} db (text_expr lhs op v) Any
  unfolding text_expr
  text_expr-Meets lhs op v =
      bind-Meets db _ _ Any Any (add-Meets db (text v) string_type) (λ a _. pure-Meets db)

  boolean_expr-Meets :
      (lhs : Units) (op : BooleanOperator) → Meets {N = N} db (boolean_expr lhs op) Any
  unfolding boolean_expr
  boolean_expr-Meets lhs op =
      bind-Meets db _ _ Any Any (add-Meets db _ string_type) (λ a _. pure-Meets db)

  relative_expr-Meets :
      (date : Units) (op : RelativeOperator) (w : RelativeWindow) (nullable : Bool)
      → Meets {N = N} db (relative_expr js now date op w nullable) Any
  unfolding relative_expr
  relative_expr-Meets date op w nullable =
      bind-Meets db _ _ Any Any (lift-Meets db _ (ch_date_time-Allowed _)) (λ at _.
        bind-Meets db _ _ Any Any (add-Meets db (text at) date_time_type) (λ from _. pure-Meets db))

  any_value-Meets :
      (str present : Units) (comparison : Comparison (Scalar N) → Compiler N Units)
      (clause : AnyValueClause N)
      → ((c : Comparison (Scalar N)) → Meets db (comparison c) Any)
      → Meets db (any_value js now str present comparison clause) Any
  any_value-Meets str present comparison (AnyValueClause.compares c) h = h c
  any_value-Meets str present comparison (AnyValueClause.matches op v) h = text_expr-Meets str op v
  any_value-Meets str present comparison (AnyValueClause.presence op) h = pure-Meets db
  any_value-Meets str present comparison (AnyValueClause.flag op) h = boolean_expr-Meets str op
  any_value-Meets str present comparison (AnyValueClause.relative op w) h =
      relative_expr-Meets _ op w true

  column_value-Meets :
      (column : Units) (clause : ColumnClause (Scalar N))
      → Meets db (column_value column clause) Any
  column_value-Meets column (ColumnClause.compares c) = compare-Meets column c string_type
  column_value-Meets column (ColumnClause.matches op v) = text_expr-Meets column op v
  column_value-Meets column (ColumnClause.presence op) = pure-Meets db

  property_comparison-Meets :
      (key : Units) (c : Comparison (Scalar N)) → Meets db (property_comparison key c) Any
  property_comparison-Meets key c =
      if-Meets db (is_numeric c) _ _ Any (compare-Meets _ c float64_type)
        (compare-Meets _ c string_type)

  pub where_predicate-Meets : (w : WherePredicate N) → Meets db (where_predicate js now w) Any
  unfolding where_predicate
  where_predicate-Meets (WherePredicate.attribute field clause) =
      column_value-Meets _ (scalar_clause clause)
  where_predicate-Meets (WherePredicate.property name clause) =
      bind-Meets db _ _ Any Any (add-Meets db (text name) string_type)
        (λ key _. any_value-Meets _ _ _ clause (property_comparison-Meets key))

  trait_comparison-Meets :
      (key : Units) (c : Comparison (Scalar N)) → Meets db (trait_comparison key c) Any
  trait_comparison-Meets key c =
      if-Meets db (is_numeric c) _ _ Any
        (bind-Meets db _ _ Any Any (compare-Meets _ c float64_type) (λ cmp _. pure-Meets db))
        (compare-Meets _ c string_type)

  trait_expr-Meets : (t : Trait N) → Meets db (trait_expr js now t) Any
  unfolding trait_expr
  trait_expr-Meets t =
      bind-Meets db _ _ Any Any (add-Meets db (text t.key) string_type)
        (λ key _. any_value-Meets _ _ _ t.clause (trait_comparison-Meets key))

  add_instant-Meets : (v : Scalar N) → Meets db (add_instant js now v) Any
  unfolding add_instant
  add_instant-Meets v =
      bind-Meets db _ _ Any Any (lift-Meets db _ (ch_date_time-Allowed _))
        (λ at _. add-Meets db (text at) date_time_type)

  lifecycle_clause-Meets :
      (field : Units) (clause : LifecycleClause N)
      → Meets db (lifecycle_clause js now field clause) Any
  lifecycle_clause-Meets field (LifecycleClause.relative op w) =
      relative_expr-Meets field op w false
  lifecycle_clause-Meets field (LifecycleClause.compares (between lo hi)) =
      bind-Meets db _ _ Any Any (add_instant-Meets lo)
        (λ a _. bind-Meets db _ _ Any Any (add_instant-Meets hi) (λ b _. pure-Meets db))
  lifecycle_clause-Meets field (LifecycleClause.compares (single op v)) =
      bind-Meets db _ _ Any Any (add_instant-Meets v) (λ a _. pure-Meets db)

  aliased-Meets :
      (alias : Option Units) (c : Comparison (Scalar N))
      → is_some alias ≡ true
      → Meets db (aliased alias c) Any
  aliased-Meets none c h = cc
  aliased-Meets (some alias) c h = compare-Meets _ c float64_type

  mutual
    unfolding tree_expr Registered lifecycle_expr behavior_expr context_expr

    pub tree_expr-Meets :
        (alias_for : JsMap ℕ Units) (t : FilterNode N)
        → Registered alias_for t
        → Meets db (tree_expr js now alias_for t) Any
    tree_expr-Meets alias_for (FilterNode.group op children) h =
        bind-Meets db _ _ Any Any (tree_exprs-Meets alias_for children h) (λ parts _. pure-Meets db)
    tree_expr-Meets alias_for (FilterNode.negation child) h =
        bind-Meets db _ _ Any Any (tree_expr-Meets alias_for child h) (λ inner _. pure-Meets db)
    tree_expr-Meets alias_for (FilterNode.trait t) h = trait_expr-Meets t
    tree_expr-Meets alias_for (FilterNode.context c) h = column_value-Meets _ c.clause
    tree_expr-Meets alias_for (FilterNode.lifecycle l) h =
        lifecycle_clause-Meets (lifecycle_name l.field) l.clause
    tree_expr-Meets alias_for (FilterNode.behavior b) h =
        aliased-Meets (get b.identity alias_for) b.comparison h

    tree_exprs-Meets :
        (alias_for : JsMap ℕ Units) (ts : FilterNodes N)
        → AllRegistered alias_for ts
        → Meets db (tree_exprs js now alias_for ts) Any
    tree_exprs-Meets alias_for FilterNodes.nil h = pure-Meets db
    tree_exprs-Meets alias_for (FilterNodes.cons child children) (h, hs) =
        bind-Meets db _ _ Any Any (tree_expr-Meets alias_for child h) (λ part _.
          bind-Meets db _ _ Any Any (tree_exprs-Meets alias_for children hs)
            (λ parts _. pure-Meets db))
