-- ===== src/Funnels/Syntax.antt =====
-- packages/core/src/funnels/ast.ts: a funnel as it is after parsing. `optional` is true only where
-- the source's flag is, and a `where` that is absent is an empty list.
use lyraflow.Prelude.{ℕ, Bool, Option, List}
use lyraflow.Prelude.Orders.{Units}
use lyraflow.Segments.Syntax.{WherePredicate, FilterNode}

pub record FunnelStep (N : Type 0) : Type 0 where
  pub event : Units
  pub where_ : List (WherePredicate N)
  pub audience : Option (FilterNode N)
  pub optional : Bool

pub record FunnelDefinition (N : Type 0) : Type 0 where
  pub steps : List (FunnelStep N)
  pub window_seconds : ℕ
  pub segment_id : Option ℕ
