-- ===== src/Segments/Compile/Bound.antt =====
-- What the query of packages/core/src/segments/compile.ts binds, and when there is none.
use lyraflow.Prelude.Orders.{Units}
use lyraflow.Prelude.Decimal.{units_eq}
use lyraflow.Prelude.Texts.{codes}
use lyraflow.JsMap.{JsMap, get}
use lyraflow.Identity.Resolve.{is_safe_identifier}
use lyraflow.Segments.Syntax.{Behavior, FilterNode, FilterNodes, SegmentQuery, text}
use lyraflow.Segments.Validate.{SegmentValidationError, CostWarning, validate_tree, cost_warnings}
use lyraflow.Segments.Params.{
  Params, Result, ok, throw, Thrown, string_type, uint32_type, date_time_type, pure, invalid_tree,
  unsafe_identifier, invalid_date, unregistered_behavior, invalid_funnel, invalid_retention,
  continue,
}
use lyraflow.Segments.Params.Dates.{Platform}
use lyraflow.Segments.Params.Bound.{
  IsPositional, Extends, Allowed, Good, Any, Meets, pure-Meets, add-Meets, add_value-Meets,
  bind-Meets, lift-Meets, resolved_person_expr-Allowed,
}
use lyraflow.Segments.Base.{base_cte}
use lyraflow.Segments.Predicates.Bound.{Registered, AllRegistered, tree_expr-Meets}
use lyraflow.Segments.Behaviour.Bound.{Aliasing, behaviour_cte-Meets, not_suppressed_expr-Meets}
use lyraflow.Segments.Compile.{
  Cursor, Select, CompiledQuery, selects_count, selects_members, selects_persons, collect_behaviors,
  collect_all, traits_cte, after_cursor, compile_sql, compile_segment,
}
use lyraflow.Prelude.{
  ℕ, ◌≡◌, refl, ap, subst, ◌⊎◌, inl, inr, true, false, Option, none, some, List, [], ◌∷◌, ◌++◌,
  Option-cases, is_some, All, nat_eq, string_eq,
}

dev_safe : is_safe_identifier (codes "dev") ≡ true
unfolding is_safe_identifier codes
dev_safe = refl

tr_safe : is_safe_identifier (codes "tr") ≡ true
unfolding is_safe_identifier codes
tr_safe = refl

-- The behaviours that `collectBehaviors` finds are those that the compiler of the tree looks up.
module _ {N : Type 0} (alias_for : JsMap ℕ Units) where
  abbrev HasAlias : Behavior N → Type 0
  HasAlias b = is_some (get b.identity alias_for) ≡ true

  All-left : (xs ys : List (Behavior N)) → All HasAlias (xs ++ ys) → All HasAlias xs
  All-left [] ys h = tt
  All-left (x ∷ xs) ys (h, hs) = (h, All-left xs ys hs)

  All-last : (xs : List (Behavior N)) (b : Behavior N) → All HasAlias (xs ++ b ∷ []) → HasAlias b
  All-last [] b h = h.0
  All-last (x ∷ xs) b (h, hs) = All-last xs b hs

  mutual
    unfolding collect_behaviors Registered

    Registered-collect_behaviors :
        (t : FilterNode N) (out : List (Behavior N))
        → All HasAlias (collect_behaviors t out)
        → Registered alias_for t × All HasAlias out
    Registered-collect_behaviors (FilterNode.group op ts) out h = AllRegistered-collect_all ts out h
    Registered-collect_behaviors (FilterNode.negation t) out h =
        Registered-collect_behaviors t out h
    Registered-collect_behaviors (FilterNode.trait t) out h = (tt, h)
    Registered-collect_behaviors (FilterNode.context t) out h = (tt, h)
    Registered-collect_behaviors (FilterNode.lifecycle t) out h = (tt, h)
    Registered-collect_behaviors (FilterNode.behavior b) out h =
        (All-last out b h, All-left out (b ∷ []) h)

    AllRegistered-collect_all :
        (ts : FilterNodes N) (out : List (Behavior N))
        → All HasAlias (collect_all ts out)
        → AllRegistered alias_for ts × All HasAlias out
    AllRegistered-collect_all FilterNodes.nil out h = (tt, h)
    AllRegistered-collect_all (FilterNodes.cons t ts) out h =
        let later = AllRegistered-collect_all ts (collect_behaviors t out) h in
        let here = Registered-collect_behaviors t out later.1 in ((here.0, later.0), here.1)

module _ {N D : Type 0} (js : Platform N D) (db : Units) (now : D) where
  pub base_cte-Meets : (project_id : ℕ) → Meets {N = N} db (base_cte db project_id) Any
  unfolding base_cte
  base_cte-Meets project_id =
      bind-Meets db _ _ Any Any (add_value-Meets db _ uint32_type) (λ project _.
        bind-Meets db _ _ Any Any
          (lift-Meets db _ (resolved_person_expr-Allowed db (codes "dev") dev_safe))
          (λ resolved _. pure-Meets db))

  pub traits_cte-Meets : (project_id : ℕ) → Meets {N = N} db (traits_cte db project_id) Any
  unfolding traits_cte
  traits_cte-Meets project_id =
      bind-Meets db _ _ Any Any
        (lift-Meets db _ (resolved_person_expr-Allowed db (codes "tr") tr_safe))
        (λ resolved _.
          bind-Meets db _ _ Any Any (add_value-Meets db _ uint32_type) (λ project _. pure-Meets db))

  after_cursor-Meets :
      (select : Select) (c : Option Cursor) → Meets {N = N} db (after_cursor select c) Any
  after_cursor-Meets selects_members (some c) =
      bind-Meets db _ _ Any Any (add-Meets db (text c.last_seen) date_time_type) (λ older _.
        bind-Meets db _ _ Any Any (add-Meets db (text c.last_seen) date_time_type) (λ same _.
          bind-Meets db _ _ Any Any (add-Meets db (text c.person_id) string_type)
            (λ later _. pure-Meets db)))
  after_cursor-Meets selects_members none = pure-Meets db
  after_cursor-Meets selects_count c = pure-Meets db
  after_cursor-Meets selects_persons c = pure-Meets db

  compile_sql-Meets :
      (q : SegmentQuery N) (project_id : ℕ) (select : Select) (c : Option Cursor)
      → Meets db (compile_sql js db now q project_id select c) Any
  unfolding compile_sql
  compile_sql-Meets q project_id select c =
      bind-Meets db _ _ Any Any (base_cte-Meets project_id) (λ base _.
        bind-Meets db _ _ (Aliasing (collect_behaviors q.filter [])) Any
          (behaviour_cte-Meets js now db project_id (collect_behaviors q.filter []))
          (λ pass aliased.
            bind-Meets db _ _ Any Any
              (tree_expr-Meets js now db pass.1 q.filter
                (Registered-collect_behaviors pass.1 q.filter [] aliased).0)
              (λ where_ _. bind-Meets db _ _ Any Any (traits_cte-Meets project_id) (λ traits _.
                bind-Meets db _ _ Any Any (not_suppressed_expr-Meets db project_id _ _)
                  (λ suppressed _.
                    bind-Meets db _ _ Any Any (after_cursor-Meets select c)
                      (λ after _. pure-Meets db))))))

  pub compile_segment-Meets :
      (q : SegmentQuery N) (project_id : ℕ) (select : Select) (c : Option Cursor)
      → validate_tree q ≡ none
      → Meets db (compile_segment js db now q project_id select c) Any
  unfolding compile_segment
  compile_segment-Meets q project_id select c valid =
      rw valid (
        bind-Meets db _ _ Any Any (compile_sql-Meets q project_id select c)
          (λ sql _. pure-Meets db))

-- Why there is no query: the tree, the database's name or a date.
abbrev pub Reason : {N : Type 0} → Units → SegmentQuery N → Thrown → Type 0
Reason db q e =
    ((err : SegmentValidationError) × ((e ≡ invalid_tree err) × (validate_tree q ≡ some err)))
    ⊎ (((e ≡ unsafe_identifier db) × (is_safe_identifier db ≡ false)) ⊎ (e ≡ invalid_date))

abbrev Outcome :
    {N : Type 0} → Units → SegmentQuery N → Params N → Result (CompiledQuery × Params N) → Type 0
Outcome db q p (ok x) = IsPositional x.1 × Extends p x.1
Outcome db q p (throw e) = Reason db q e

Reason-Allowed :
    {N : Type 0} (db : Units) (q : SegmentQuery N) (e : Thrown) → Allowed db e → Reason db q e
Reason-Allowed db q (invalid_tree err) h = elim h [ ]
Reason-Allowed db q (unsafe_identifier d) (same, bad) =
    inr (inl (ap unsafe_identifier same, subst (λ x. is_safe_identifier x ≡ false) same bad))
Reason-Allowed db q invalid_date h = inr (inr refl)
Reason-Allowed db q unregistered_behavior h = elim h [ ]
Reason-Allowed db q (invalid_funnel err) h = elim h [ ]
Reason-Allowed db q (invalid_retention err) h = elim h [ ]

continue-Outcome :
    {N : Type 0} (db : Units) (q : SegmentQuery N) (w : List CostWarning) (p : Params N)
    (k : Result (Units × Params N))
    → Good db Any p k
    → Outcome db q p (continue k (λ sql. pure (record { sql = sql; warnings = w })))
continue-Outcome db q w p (ok (sql, s)) h = h.1
continue-Outcome db q w p (throw e) h = Reason-Allowed db q e h

module _ {N D : Type 0} (js : Platform N D) (db : Units) (now : D) where
  compile_segment-Outcome :
      (q : SegmentQuery N) (project_id : ℕ) (select : Select) (c : Option Cursor) (p : Params N)
      → IsPositional p
      → Outcome db q p (compile_segment js db now q project_id select c p)
  unfolding compile_segment
  compile_segment-Outcome q project_id select c p pos = elim (Option-cases (validate_tree q)) [
    | inl valid ↦ rw valid (
        continue-Outcome db q (cost_warnings q) p (compile_sql js db now q project_id select c p)
          (compile_sql-Meets js db now q project_id select c p pos))
    | inr (err, found) ↦ rw found (inl (err, (refl, found)))
  ]

  -- If the parameters that were bound before are numbered without a gap, so are those after a
  -- compilation that returns, and every one that was bound before has its value still: a query can
  -- be embedded in another without overwriting a parameter.
  pub compile_segment-IsPositional :
      (q : SegmentQuery N) (project_id : ℕ) (select : Select) (c : Option Cursor) (p : Params N)
      (x : CompiledQuery × Params N)
      → IsPositional p
      → compile_segment js db now q project_id select c p ≡ ok x
      → IsPositional x.1 × Extends p x.1
  compile_segment-IsPositional q project_id select c p x pos h =
      subst (Outcome db q p) h (compile_segment-Outcome q project_id select c p pos)

  -- A compilation throws only the error of the validator, for a tree that exceeds a cap, or an error
  -- for a database whose name is no plain identifier, or one for a date that is not valid: every
  -- behaviour that the tree compares has been registered by the pass over the events.
  pub compile_segment-throws :
      (q : SegmentQuery N) (project_id : ℕ) (select : Select) (c : Option Cursor) (p : Params N)
      (e : Thrown)
      → IsPositional p
      → compile_segment js db now q project_id select c p ≡ throw e
      → Reason db q e
  compile_segment-throws q project_id select c p e pos h =
      subst (Outcome db q p) h (compile_segment-Outcome q project_id select c p pos)
