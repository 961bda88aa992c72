-- ===== src/Segments/Replace.antt =====
-- A filter tree with every text, number, flag and length of a window that its author chose replaced,
-- and its operators, fields, aggregates and shape kept: what the compilers of
-- packages/core/src/segments may not look at, except whether an event is `*`.
use lyraflow.Prelude.Orders.{Units}
use lyraflow.Prelude.Decimal.{units_eq}
use lyraflow.Prelude.Texts.{codes}
use lyraflow.Segments.Syntax.{
  Scalar, Comparison, RelativeWindow, AnyValueClause, ColumnClause, LifecycleClause, Window,
  Aggregate, WherePredicate, Behavior, Trait, Context, FilterNode, FilterNodes, SegmentQuery,
}
use lyraflow.Prelude.{ℕ, ◌≡◌, Bool, map, ◌==◌, nat_eq, string_eq}

pub record Replacement (N : Type 0) : Type 0 where
  pub of_text : Units → Units
  pub of_number : N → N
  pub of_flag : Bool → Bool
  pub of_length : ℕ → ℕ
  pub of_star : (s : Units) → (of_text s == codes "*") ≡ (s == codes "*")

module _ {N : Type 0} (r : Replacement N) where
  abbrev pub in_scalar : Scalar N → Scalar N
  in_scalar (Scalar.text s) = Scalar.text (r.of_text s)
  in_scalar (Scalar.number n) = Scalar.number (r.of_number n)
  in_scalar (Scalar.boolean b) = Scalar.boolean (r.of_flag b)
  in_scalar Scalar.null = Scalar.null

  abbrev pub in_comparison : {V : Type 0} → (V → V) → Comparison V → Comparison V
  in_comparison f (Comparison.single op v) = Comparison.single op (f v)
  in_comparison f (Comparison.between lo hi) = Comparison.between (f lo) (f hi)

  abbrev pub in_length : RelativeWindow → RelativeWindow
  in_length w = record w { n = r.of_length w.n }

  abbrev pub in_any : AnyValueClause N → AnyValueClause N
  in_any (AnyValueClause.compares c) = AnyValueClause.compares (in_comparison in_scalar c)
  in_any (AnyValueClause.matches op v) = AnyValueClause.matches op (r.of_text v)
  in_any (AnyValueClause.presence op) = AnyValueClause.presence op
  in_any (AnyValueClause.flag op) = AnyValueClause.flag op
  in_any (AnyValueClause.relative op w) = AnyValueClause.relative op (in_length w)

  abbrev pub in_column : {V : Type 0} → (V → V) → ColumnClause V → ColumnClause V
  in_column f (ColumnClause.compares c) = ColumnClause.compares (in_comparison f c)
  in_column f (ColumnClause.matches op v) = ColumnClause.matches op (r.of_text v)
  in_column f (ColumnClause.presence op) = ColumnClause.presence op

  abbrev pub in_lifecycle : LifecycleClause N → LifecycleClause N
  in_lifecycle (LifecycleClause.compares c) = LifecycleClause.compares (in_comparison in_scalar c)
  in_lifecycle (LifecycleClause.relative op w) = LifecycleClause.relative op (in_length w)

  abbrev pub in_window : Window → Window
  in_window (Window.last w) = Window.last (in_length w)
  in_window (Window.absolute from to) = Window.absolute (r.of_text from) (r.of_text to)
  in_window Window.ever = Window.ever

  abbrev pub in_aggregate : Aggregate → Aggregate
  in_aggregate Aggregate.count = Aggregate.count
  in_aggregate (Aggregate.sum key) = Aggregate.sum (r.of_text key)
  in_aggregate (Aggregate.min key) = Aggregate.min (r.of_text key)
  in_aggregate (Aggregate.max key) = Aggregate.max (r.of_text key)
  in_aggregate (Aggregate.distinct key) = Aggregate.distinct (r.of_text key)

  abbrev pub in_where : WherePredicate N → WherePredicate N
  in_where (WherePredicate.property name clause) =
      WherePredicate.property (r.of_text name) (in_any clause)
  in_where (WherePredicate.attribute field clause) =
      WherePredicate.attribute field (in_column r.of_text clause)

  abbrev pub in_behavior : Behavior N → Behavior N
  in_behavior b = record b {
    event = r.of_text b.event;
    where_ = map in_where b.where_;
    aggregate = in_aggregate b.aggregate;
    window = in_window b.window;
    comparison = in_comparison in_scalar b.comparison;
  }

  abbrev pub in_trait : Trait N → Trait N
  in_trait t = record { key = r.of_text t.key; clause = in_any t.clause }

  abbrev pub in_context : Context N → Context N
  in_context c = record c { clause = in_column in_scalar c.clause }

  unfoldable mutual
    pub in_tree : FilterNode N → FilterNode N
    in_tree (FilterNode.group op children) = FilterNode.group op (in_trees children)
    in_tree (FilterNode.negation child) = FilterNode.negation (in_tree child)
    in_tree (FilterNode.trait t) = FilterNode.trait (in_trait t)
    in_tree (FilterNode.context c) = FilterNode.context (in_context c)
    in_tree (FilterNode.lifecycle l) =
        FilterNode.lifecycle (record l { clause = in_lifecycle l.clause })
    in_tree (FilterNode.behavior b) = FilterNode.behavior (in_behavior b)

    pub in_trees : FilterNodes N → FilterNodes N
    in_trees FilterNodes.nil = FilterNodes.nil
    in_trees (FilterNodes.cons child children) =
        FilterNodes.cons (in_tree child) (in_trees children)

  abbrev pub in_query : SegmentQuery N → SegmentQuery N
  in_query q = record { filter = in_tree q.filter }
