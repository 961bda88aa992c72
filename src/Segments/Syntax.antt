-- ===== src/Segments/Syntax.antt =====
-- packages/core/src/segments/ast.ts: the tree that a segment filters people by, as it is after
-- parsing. `N` is the type of a JavaScript number; a text is its code units. What the schemas'
-- refinements rule out has no form here: `between` has two values and every other comparison one,
-- and an aggregate other than `count` has a property.
use lyraflow.Prelude.{ℕ, Bool, List}
use lyraflow.Prelude.Orders.{Units}

-- `COMPARISON_OPERATORS` without `between`.
pub data ComparisonOperator : Type 0 where
  eq ne gt ge lt le : ComparisonOperator

pub data TextOperator : Type 0 where
  contains not_contains starts_with not_starts_with ends_with not_ends_with : TextOperator

pub data SetOperator : Type 0 where
  is_set is_not_set : SetOperator

pub data BooleanOperator : Type 0 where
  is_true is_false : BooleanOperator

pub data RelativeOperator : Type 0 where
  in_last not_in_last : RelativeOperator

-- `CONTEXT_FIELDS`
pub data ContextField : Type 0 where
  country region city device_type os browser referrer utm_source utm_medium utm_campaign :
      ContextField

-- `EVENT_COLUMN_FIELDS`
pub data EventColumnField : Type 0 where
  context_column : ContextField → EventColumnField
  path url utm_term utm_content : EventColumnField

pub data LifecycleField : Type 0 where
  first_seen last_seen : LifecycleField

pub data Scalar (N : Type 0) : Type 0 where
  text : Units → Scalar N
  number : N → Scalar N
  boolean : Bool → Scalar N
  null : Scalar N

-- `comparisonClause(value)`
pub data Comparison (V : Type 0) : Type 0 where
  single : ComparisonOperator → V → Comparison V
  between : V → V → Comparison V

pub data TimeUnit : Type 0 where
  hours days : TimeUnit

pub record RelativeWindow : Type 0 where
  pub n : ℕ
  pub unit : TimeUnit

-- `anyValueClause`
pub data AnyValueClause (N : Type 0) : Type 0 where
  compares : Comparison (Scalar N) → AnyValueClause N
  matches : TextOperator → Units → AnyValueClause N
  presence : SetOperator → AnyValueClause N
  flag : BooleanOperator → AnyValueClause N
  relative : RelativeOperator → RelativeWindow → AnyValueClause N

-- `columnClause(value)`
pub data ColumnClause (V : Type 0) : Type 0 where
  compares : Comparison V → ColumnClause V
  matches : TextOperator → Units → ColumnClause V
  presence : SetOperator → ColumnClause V

-- What `Lifecycle` admits.
pub data LifecycleClause (N : Type 0) : Type 0 where
  compares : Comparison (Scalar N) → LifecycleClause N
  relative : RelativeOperator → RelativeWindow → LifecycleClause N

pub data Window : Type 0 where
  last : RelativeWindow → Window
  absolute : Units → Units → Window
  ever : Window

-- `aggregate` with its `property`.
pub data Aggregate : Type 0 where
  count : Aggregate
  sum : Units → Aggregate
  min : Units → Aggregate
  max : Units → Aggregate
  distinct : Units → Aggregate

pub data WherePredicate (N : Type 0) : Type 0 where
  property : Units → AnyValueClause N → WherePredicate N
  attribute : EventColumnField → ColumnClause Units → WherePredicate N

-- `identity` is the object itself, which a `Map` keyed by objects compares.
pub record Behavior (N : Type 0) : Type 0 where
  pub identity : ℕ
  pub event : Units
  pub where_ : List (WherePredicate N)
  pub aggregate : Aggregate
  pub window : Window
  pub comparison : Comparison (Scalar N)

pub record Trait (N : Type 0) : Type 0 where
  pub key : Units
  pub clause : AnyValueClause N

pub data Scope : Type 0 where
  latest first_touch : Scope

pub record Context (N : Type 0) : Type 0 where
  pub field : ContextField
  pub scope : Scope
  pub clause : ColumnClause (Scalar N)

pub record Lifecycle (N : Type 0) : Type 0 where
  pub field : LifecycleField
  pub clause : LifecycleClause N

pub data GroupOp : Type 0 where
  and or : GroupOp

mutual
  pub data FilterNode (N : Type 0) : Type 0 where
    group : GroupOp → FilterNodes N → FilterNode N
    negation : FilterNode N → FilterNode N
    trait : Trait N → FilterNode N
    context : Context N → FilterNode N
    lifecycle : Lifecycle N → FilterNode N
    behavior : Behavior N → FilterNode N

  -- `children`
  pub data FilterNodes (N : Type 0) : Type 0 where
    nil : FilterNodes N
    cons : FilterNode N → FilterNodes N → FilterNodes N

-- Its `ast_version` is the literal 1.
pub record SegmentQuery (N : Type 0) : Type 0 where
  pub filter : FilterNode N
