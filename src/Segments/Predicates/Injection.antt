-- ===== src/Segments/Predicates/Injection.antt =====
-- packages/core/src/segments/predicates.ts on a tree and on the same tree with other values.
use lyraflow.Prelude.Orders.{Units}
use lyraflow.JsMap.{JsMap, get}
use lyraflow.Segments.Syntax.{
  TextOperator, BooleanOperator, RelativeOperator, Scalar, Comparison, RelativeWindow,
  AnyValueClause, ColumnClause, LifecycleClause, WherePredicate, Trait, Context, FilterNode,
  FilterNodes, text, single, between,
}
use lyraflow.Segments.Params.{ChType, string_type, float64_type, date_time_type, Compiler}
use lyraflow.Segments.Params.Dates.{Platform}
use lyraflow.Segments.Params.Alike.{Alike, if-Alike, pure-Alike, add-Alike, bind-Alike, lift-Alike}
use lyraflow.Segments.Operators.{is_numeric, as_date, lifecycle_name}
use lyraflow.Segments.Predicates.{
  compare, text_expr, boolean_expr, relative_expr, any_value, column_value, scalar_clause,
  property_comparison, where_predicate, trait_comparison, trait_expr, context_expr, add_instant,
  lifecycle_clause, lifecycle_expr, aliased, behavior_expr, tree_expr, tree_exprs,
}
use lyraflow.Segments.Replace.{
  Replacement, in_scalar, in_comparison, in_length, in_any, in_column, in_lifecycle, in_where,
  in_trait, in_context, in_tree, in_trees,
}
use lyraflow.Prelude.{ℕ, ◌≡◌, refl, Bool, true, false, Option, none, some, nat_eq, string_eq}

module _ {N D : Type 0} (js : Platform N D) (now : D) (r : Replacement N) where
  compare-Alike :
      (lhs : Units) (c : Comparison (Scalar N)) (t : ChType)
      → Alike (compare lhs c t) (compare lhs (in_comparison r (in_scalar r) c) t)
  unfolding compare
  compare-Alike lhs (between lo hi) t =
      bind-Alike _ _ _ _ (add-Alike lo (in_scalar r lo) t)
        (λ a. bind-Alike _ _ _ _ (add-Alike hi (in_scalar r hi) t) (λ b. pure-Alike _))
  compare-Alike lhs (single op v) t =
      bind-Alike _ _ _ _ (add-Alike v (in_scalar r v) t) (λ a. pure-Alike _)

  text_expr-Alike :
      (lhs : Units) (op : TextOperator) (v w : Units)
      → Alike {N = N} (text_expr lhs op v) (text_expr lhs op w)
  unfolding text_expr
  text_expr-Alike lhs op v w =
      bind-Alike _ _ _ _ (add-Alike (text v) (text w) string_type) (λ a. pure-Alike _)

  boolean_expr-Alike :
      (lhs : Units) (op : BooleanOperator)
      → Alike {N = N} (boolean_expr lhs op) (boolean_expr lhs op)
  unfolding boolean_expr
  boolean_expr-Alike lhs op = bind-Alike _ _ _ _ (add-Alike _ _ string_type) (λ a. pure-Alike _)

  relative_expr-Alike :
      (date : Units) (op : RelativeOperator) (v w : RelativeWindow) (nullable : Bool)
      → Alike {N = N}
          (relative_expr js now date op v nullable)
          (relative_expr js now date op w nullable)
  unfolding relative_expr
  relative_expr-Alike date op v w nullable =
      lift-Alike _ _ _ _
        (λ a b. bind-Alike _ _ _ _ (add-Alike (text a) (text b) date_time_type) (λ c. pure-Alike _))

  any_value-Alike :
      (str present : Units) (comparison : Comparison (Scalar N) → Compiler N Units)
      (clause : AnyValueClause N)
      → ((c : Comparison (Scalar N))
          → Alike (comparison c) (comparison (in_comparison r (in_scalar r) c)))
      → Alike
          (any_value js now str present comparison clause)
          (any_value js now str present comparison (in_any r clause))
  any_value-Alike str present comparison (AnyValueClause.compares c) h = h c
  any_value-Alike str present comparison (AnyValueClause.matches op v) h =
      text_expr-Alike str op v (r.of_text v)
  any_value-Alike str present comparison (AnyValueClause.presence op) h = pure-Alike _
  any_value-Alike str present comparison (AnyValueClause.flag op) h = boolean_expr-Alike str op
  any_value-Alike str present comparison (AnyValueClause.relative op w) h =
      relative_expr-Alike (as_date str) op w (in_length r w) true

  column_value-Alike :
      (column : Units) (clause : ColumnClause (Scalar N))
      → Alike (column_value column clause) (column_value column (in_column r (in_scalar r) clause))
  column_value-Alike column (ColumnClause.compares c) = compare-Alike column c string_type
  column_value-Alike column (ColumnClause.matches op v) = text_expr-Alike column op v (r.of_text v)
  column_value-Alike column (ColumnClause.presence op) = pure-Alike _

  is_numeric-in_comparison :
      (c : Comparison (Scalar N)) → is_numeric (in_comparison r (in_scalar r) c) ≡ is_numeric c
  unfolding is_numeric
  is_numeric-in_comparison (single op (text v)) = refl
  is_numeric-in_comparison (single op (Scalar.number v)) = refl
  is_numeric-in_comparison (single op (Scalar.boolean v)) = refl
  is_numeric-in_comparison (single op Scalar.null) = refl
  is_numeric-in_comparison (between (text v) hi) = refl
  is_numeric-in_comparison (between (Scalar.number v) hi) = refl
  is_numeric-in_comparison (between (Scalar.boolean v) hi) = refl
  is_numeric-in_comparison (between Scalar.null hi) = refl

  scalar_clause-in_column :
      (clause : ColumnClause Units)
      → scalar_clause (in_column r r.of_text clause)
        ≡ in_column r (in_scalar r) (scalar_clause clause)
  scalar_clause-in_column (ColumnClause.compares (single op v)) = refl
  scalar_clause-in_column (ColumnClause.compares (between lo hi)) = refl
  scalar_clause-in_column (ColumnClause.matches op v) = refl
  scalar_clause-in_column (ColumnClause.presence op) = refl

  property_comparison-Alike :
      (key : Units) (c : Comparison (Scalar N))
      → Alike
          (property_comparison key c)
          (property_comparison key (in_comparison r (in_scalar r) c))
  property_comparison-Alike key c = rw (is_numeric-in_comparison c) (
      if-Alike (is_numeric c) _ _ _ _ (compare-Alike _ c float64_type)
        (compare-Alike _ c string_type))

  pub where_predicate-Alike :
      (w : WherePredicate N)
      → Alike (where_predicate js now w) (where_predicate js now (in_where r w))
  unfolding where_predicate
  where_predicate-Alike (WherePredicate.attribute field clause) =
      rw (scalar_clause-in_column clause) (column_value-Alike _ (scalar_clause clause))
  where_predicate-Alike (WherePredicate.property name clause) =
      bind-Alike _ _ _ _ (add-Alike (text name) (text (r.of_text name)) string_type)
        (λ key. any_value-Alike _ _ _ clause (property_comparison-Alike key))

  trait_comparison-Alike :
      (key : Units) (c : Comparison (Scalar N))
      → Alike (trait_comparison key c) (trait_comparison key (in_comparison r (in_scalar r) c))
  trait_comparison-Alike key c = rw (is_numeric-in_comparison c) (
      if-Alike (is_numeric c) _ _ _ _
        (bind-Alike _ _ _ _ (compare-Alike _ c float64_type) (λ cmp. pure-Alike _))
        (compare-Alike _ c string_type))

  trait_expr-Alike : (t : Trait N) → Alike (trait_expr js now t) (trait_expr js now (in_trait r t))
  unfolding trait_expr
  trait_expr-Alike t =
      bind-Alike _ _ _ _ (add-Alike (text t.key) (text (r.of_text t.key)) string_type)
        (λ key. any_value-Alike _ _ _ t.clause (trait_comparison-Alike key))

  context_expr-Alike : (c : Context N) → Alike (context_expr c) (context_expr (in_context r c))
  unfolding context_expr
  context_expr-Alike c = column_value-Alike _ c.clause

  add_instant-Alike : (v w : Scalar N) → Alike (add_instant js now v) (add_instant js now w)
  unfolding add_instant
  add_instant-Alike v w = lift-Alike _ _ _ _ (λ a b. add-Alike (text a) (text b) date_time_type)

  lifecycle_clause-Alike :
      (field : Units) (clause : LifecycleClause N)
      → Alike
          (lifecycle_clause js now field clause)
          (lifecycle_clause js now field (in_lifecycle r clause))
  lifecycle_clause-Alike field (LifecycleClause.relative op w) =
      relative_expr-Alike field op w (in_length r w) false
  lifecycle_clause-Alike field (LifecycleClause.compares (between lo hi)) =
      bind-Alike _ _ _ _ (add_instant-Alike lo (in_scalar r lo))
        (λ a. bind-Alike _ _ _ _ (add_instant-Alike hi (in_scalar r hi)) (λ b. pure-Alike _))
  lifecycle_clause-Alike field (LifecycleClause.compares (single op v)) =
      bind-Alike _ _ _ _ (add_instant-Alike v (in_scalar r v)) (λ a. pure-Alike _)

  aliased-Alike :
      (alias : Option Units) (c : Comparison (Scalar N))
      → Alike (aliased alias c) (aliased alias (in_comparison r (in_scalar r) c))
  aliased-Alike none c = λ p q h. tt
  aliased-Alike (some alias) c = compare-Alike _ c float64_type

  mutual
    unfolding tree_expr in_tree lifecycle_expr behavior_expr

    pub tree_expr-Alike :
        (alias_for : JsMap ℕ Units) (t : FilterNode N)
        → Alike (tree_expr js now alias_for t) (tree_expr js now alias_for (in_tree r t))
    tree_expr-Alike alias_for (FilterNode.group op children) =
        bind-Alike _ _ _ _ (tree_exprs-Alike alias_for children) (λ parts. pure-Alike _)
    tree_expr-Alike alias_for (FilterNode.negation child) =
        bind-Alike _ _ _ _ (tree_expr-Alike alias_for child) (λ inner. pure-Alike _)
    tree_expr-Alike alias_for (FilterNode.trait t) = trait_expr-Alike t
    tree_expr-Alike alias_for (FilterNode.context c) = context_expr-Alike c
    tree_expr-Alike alias_for (FilterNode.lifecycle l) =
        lifecycle_clause-Alike (lifecycle_name l.field) l.clause
    tree_expr-Alike alias_for (FilterNode.behavior b) =
        aliased-Alike (get b.identity alias_for) b.comparison

    tree_exprs-Alike :
        (alias_for : JsMap ℕ Units) (ts : FilterNodes N)
        → Alike (tree_exprs js now alias_for ts) (tree_exprs js now alias_for (in_trees r ts))
    tree_exprs-Alike alias_for FilterNodes.nil = pure-Alike _
    tree_exprs-Alike alias_for (FilterNodes.cons child children) =
        bind-Alike _ _ _ _ (tree_expr-Alike alias_for child)
          (λ part. bind-Alike _ _ _ _ (tree_exprs-Alike alias_for children) (λ parts. pure-Alike _))
