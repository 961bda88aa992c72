-- ===== src/Segments/Validate.antt =====
-- packages/core/src/segments/validate.ts: the caps on a filter tree, checked while it is walked, and
-- the warnings about its cost. What the generator `walk` yields is a list; a caller's loop over it
-- stops where the caller throws.
mod Tests
pub mod Counts
pub mod Caps
pub mod Costs
use lyraflow.Prelude.Orders.{Units}
use lyraflow.Prelude.Decimal.{decimal, units_eq}
use lyraflow.Prelude.Texts.{codes}
use lyraflow.Segments.Syntax.{
  Behavior, FilterNode, FilterNodes, SegmentQuery, Window, group, negation, behavior, nil, cons,
  ever,
}
use lyraflow.Prelude.{
  ℕ, zero, suc, ◌+◌, ◌-◌, ◌*◌, ◌/◌, ◌%◌, ◌^◌, ◌≤◌, ◌<◌, min, max, String, ◌≡◌, refl, sym, ap, ◌∙◌,
  subst, ◌≢◌, ◌↔◌, ◌⊎◌, inl, inr, Bool, true, false, not, ◌&&◌, ◌||◌, Option, none, some, List, [],
  ◌∷◌, ◌++◌, map, Memᴰ, arith, ltb, leb, if◌then◌else◌, Bool-cases, Option-cases, is_some,
  get_or_else, length, get_elem?, get_or, take, drop, filter, all, length-append, length-drop,
  length-take, length-filter-le, filter-append, All, All-append, All-drop, All-take, All-filter, Eq,
  ◌==◌, ==_iff, ==_refl, ==_cases, mem-append_left, mem-append_right, mem-filter, All-mem, nat_eq,
  string_eq,
}

abbrev pub max_tree_depth : ℕ
max_tree_depth = 10

abbrev pub max_tree_nodes : ℕ
max_tree_nodes = 100

abbrev pub max_behavior_nodes : ℕ
max_behavior_nodes = 25

pub data Code : Type 0 where
  too_deep too_many_nodes too_many_behaviors : Code

pub record SegmentValidationError : Type 0 where
  pub message : Units
  pub code : Code

pub record Visited (N : Type 0) : Type 0 where
  pub node : FilterNode N
  pub path : Units
  pub depth : ℕ

pub record CostWarning : Type 0 where
  pub path : Units
  pub reason : Units

-- `new SegmentValidationError(…)` at the three places that throw it
unfoldable pub failure : Code → SegmentValidationError
failure too_deep = record {
  message = codes "filter tree is nested deeper than " ++ decimal max_tree_depth ++ codes " levels";
  code = too_deep;
}
failure too_many_nodes = record {
  message = codes "filter tree has more than " ++ decimal max_tree_nodes ++ codes " nodes";
  code = too_many_nodes;
}
failure too_many_behaviors = record {
  message =
      codes "filter tree has more than "
      ++ decimal max_behavior_nodes
      ++ codes " behavioural conditions";
  code = too_many_behaviors;
}

abbrev pub is_ever : Window → Bool
is_ever ever = true
is_ever _ = false

unfoldable pub any_event_warning : Units → CostWarning
any_event_warning path = record {
  path = path;
  reason = codes "this condition matches every event, so it cannot use the event-name index";
}

module _ {N : Type 0} where
  abbrev pub is_behavior : FilterNode N → Bool
  is_behavior (behavior b) = true
  is_behavior _ = false

  unfoldable mutual
    pub walk : FilterNode N → Units → ℕ → List (Visited N)
    walk (group op children) path depth =
        record { node = group op children; path = path; depth = depth }
        ∷ walk_children children path 0 (depth + 1)
    walk (negation child) path depth =
        record { node = negation child; path = path; depth = depth }
        ∷ walk child (path ++ codes ".child") (depth + 1)
    walk node path depth = record { node = node; path = path; depth = depth } ∷ []

    -- The loop over `children.entries()`, from the index `i`.
    pub walk_children : FilterNodes N → Units → ℕ → ℕ → List (Visited N)
    walk_children nil path i depth = []
    walk_children (cons child children) path i depth =
        walk child (path ++ codes ".children[" ++ decimal i ++ codes "]") depth
        ++ walk_children children path (i + 1) depth

  -- The loop of `validateTree` with its two counters; `some` is what it throws.
  unfoldable pub check : List (Visited N) → ℕ → ℕ → Option SegmentValidationError
  check [] nodes behaviors = none
  check (v ∷ vs) nodes behaviors =
      if leb max_tree_depth v.depth
      then some (failure too_deep)
      else if ltb max_tree_nodes (nodes + 1)
      then some (failure too_many_nodes)
      else if is_behavior v.node && ltb max_behavior_nodes (behaviors + 1)
      then some (failure too_many_behaviors)
      else check vs (nodes + 1) (if is_behavior v.node then behaviors + 1 else behaviors)

  unfoldable pub validate_tree : SegmentQuery N → Option SegmentValidationError
  validate_tree q = check (walk q.filter (codes "filter") 0) 0 0

  unfoldable pub tally_behaviors : List (Visited N) → ℕ → ℕ
  tally_behaviors [] n = n
  tally_behaviors (v ∷ vs) n = tally_behaviors vs (if is_behavior v.node then n + 1 else n)

  unfoldable pub count_behaviour_nodes : FilterNode N → ℕ
  count_behaviour_nodes filter = tally_behaviors (walk filter (codes "filter") 0) 0

  unfoldable pub ever_warning : Units → Behavior N → CostWarning
  ever_warning path b = record {
    path = path;
    reason =
        codes "the `"
        ++ b.event
        ++ codes
            "` condition uses an `ever` window, which scans all history rather than a bounded window";
  }

  -- What one turn of the loop of `costWarnings` pushes.
  unfoldable pub node_warnings : Units → FilterNode N → List CostWarning
  node_warnings path (behavior b) =
      (if is_ever b.window then ever_warning path b ∷ [] else [])
      ++ (if b.event == codes "*" then any_event_warning path ∷ [] else [])
  node_warnings path _ = []

  unfoldable pub warn : List (Visited N) → List CostWarning
  warn [] = []
  warn (v ∷ vs) = node_warnings v.path v.node ++ warn vs

  unfoldable pub cost_warnings : SegmentQuery N → List CostWarning
  cost_warnings q = warn (walk q.filter (codes "filter") 0)
