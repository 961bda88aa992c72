-- ===== src/Segments/Compile/Injection.antt =====
-- The text of a query of packages/core/src/segments/compile.ts for a segment and for the same segment
-- with other values.
use lyraflow.Prelude.Orders.{Units}
use lyraflow.Segments.Syntax.{Behavior, FilterNode, FilterNodes, SegmentQuery, text}
use lyraflow.Segments.Validate.{SegmentValidationError, CostWarning}
use lyraflow.Segments.Params.{
  Params, ok, string_type, uint32_type, date_time_type, pure, Compiler, ◌>>=◌,
}
use lyraflow.Segments.Params.Dates.{Platform}
use lyraflow.Segments.Params.Alike.{
  AgreeBy, AlikeBy, AgreeBy-throw, bind-AlikeBy, Alike, pure-Alike, add-Alike, add_value-Alike,
  bind-Alike, lift_same-Alike,
}
use lyraflow.Segments.Base.{base_cte}
use lyraflow.Segments.Predicates.Injection.{tree_expr-Alike}
use lyraflow.Segments.Behaviour.Injection.{behaviour_cte-Alike, not_suppressed_expr-Alike}
use lyraflow.Segments.Replace.{Replacement, in_behavior, in_tree, in_trees, in_query}
use lyraflow.Segments.Compile.{
  Cursor, Select, CompiledQuery, selects_count, selects_members, selects_persons, collect_behaviors,
  collect_all, checked, traits_cte, after_cursor, compile_sql, compile_segment,
}
use lyraflow.Prelude.{
  ℕ, ◌≡◌, refl, sym, ap, ◌∙◌, subst, Option, none, some, List, [], ◌∷◌, ◌++◌, map, is_some, nat_eq,
  string_eq,
}

map-append_one :
    {A B : Type 0} (f : A → B) (xs : List A) (x : A) → map f (xs ++ x ∷ []) ≡ map f xs ++ f x ∷ []
map-append_one f [] x = refl
map-append_one f (y ∷ xs) x = ap (λ t. f y ∷ t) (map-append_one f xs x)

module _ {N : Type 0} (r : Replacement N) where
  mutual
    unfolding collect_behaviors in_tree

    collect_behaviors-in_tree :
        (t : FilterNode N) (out : List (Behavior N))
        → collect_behaviors (in_tree r t) (map (in_behavior r) out)
          ≡ map (in_behavior r) (collect_behaviors t out)
    collect_behaviors-in_tree (FilterNode.group op ts) out = collect_all-in_trees ts out
    collect_behaviors-in_tree (FilterNode.negation t) out = collect_behaviors-in_tree t out
    collect_behaviors-in_tree (FilterNode.trait t) out = refl
    collect_behaviors-in_tree (FilterNode.context t) out = refl
    collect_behaviors-in_tree (FilterNode.lifecycle t) out = refl
    collect_behaviors-in_tree (FilterNode.behavior b) out =
        sym (map-append_one (in_behavior r) out b)

    collect_all-in_trees :
        (ts : FilterNodes N) (out : List (Behavior N))
        → collect_all (in_trees r ts) (map (in_behavior r) out)
          ≡ map (in_behavior r) (collect_all ts out)
    collect_all-in_trees FilterNodes.nil out = refl
    collect_all-in_trees (FilterNodes.cons t ts) out =
        ap (collect_all (in_trees r ts)) (collect_behaviors-in_tree t out)
        ∙ collect_all-in_trees ts (collect_behaviors t out)

-- Two cursors, or none twice.
abbrev pub SamePage : Option Cursor → Option Cursor → Type 0
SamePage c d = is_some c ≡ is_some d

-- The same text, whatever the warnings.
abbrev pub SameSql : CompiledQuery → CompiledQuery → Type 0
SameSql a b = a.sql ≡ b.sql

checked-AlikeBy :
    {N : Type 0} (e f : Option SegmentValidationError) (v w : List CostWarning)
    (m k : Compiler N Units)
    → Alike m k
    → AlikeBy SameSql
        (checked e (do sql ← m; pure (record { sql = sql; warnings = v })))
        (checked f (do sql ← k; pure (record { sql = sql; warnings = w })))
checked-AlikeBy (some e) f v w m k mk = λ p q h. tt
checked-AlikeBy none (some f) v w m k mk = λ p q h. AgreeBy-throw SameSql _ _
checked-AlikeBy none none v w m k mk =
    bind-AlikeBy (λ a b. a ≡ b) SameSql m k _ _ mk (λ a b same p q n. (same, n))

module _ {N D : Type 0} (js : Platform N D) (database : Units) (now : D) (r : Replacement N) where
  pub base_cte-Alike :
      (project_id : ℕ) → Alike {N = N} (base_cte database project_id) (base_cte database project_id)
  unfolding base_cte
  base_cte-Alike project_id =
      bind-Alike _ _ _ _ (add_value-Alike _ _ uint32_type)
        (λ project. bind-Alike _ _ _ _ (lift_same-Alike _) (λ resolved. pure-Alike _))

  pub traits_cte-Alike :
      (project_id : ℕ)
      → Alike {N = N} (traits_cte database project_id) (traits_cte database project_id)
  unfolding traits_cte
  traits_cte-Alike project_id =
      bind-Alike _ _ _ _ (lift_same-Alike _)
        (λ resolved. bind-Alike _ _ _ _ (add_value-Alike _ _ uint32_type) (λ project. pure-Alike _))

  after_cursor-Alike :
      (select : Select) (c d : Option Cursor)
      → SamePage c d
      → Alike {N = N} (after_cursor select c) (after_cursor select d)
  after_cursor-Alike selects_members (some c) (some d) h =
      bind-Alike _ _ _ _ (add-Alike (text c.last_seen) (text d.last_seen) date_time_type) (λ older.
        bind-Alike _ _ _ _ (add-Alike (text c.last_seen) (text d.last_seen) date_time_type) (λ same.
          bind-Alike _ _ _ _ (add-Alike (text c.person_id) (text d.person_id) string_type)
            (λ later. pure-Alike _)))
  after_cursor-Alike selects_members none none h = pure-Alike _
  after_cursor-Alike selects_members none (some d) h = cc
  after_cursor-Alike selects_members (some c) none h = cc
  after_cursor-Alike selects_count c d h = pure-Alike _
  after_cursor-Alike selects_persons c d h = pure-Alike _

  compile_sql-Alike :
      (q : SegmentQuery N) (project_id : ℕ) (select : Select) (c d : Option Cursor)
      → SamePage c d
      → Alike
          (compile_sql js database now q project_id select c)
          (compile_sql js database now (in_query r q) project_id select d)
  unfolding compile_sql
  compile_sql-Alike q project_id select c d h = rw (collect_behaviors-in_tree r q.filter []) (
      bind-Alike _ _ _ _ (base_cte-Alike project_id) (λ base.
        bind-Alike _ _ _ _
          (behaviour_cte-Alike js now database project_id r (collect_behaviors q.filter []))
          (λ pass. bind-Alike _ _ _ _ (tree_expr-Alike js now r pass.1 q.filter) (λ where_.
            bind-Alike _ _ _ _ (traits_cte-Alike project_id) (λ traits.
              bind-Alike _ _ _ _ (not_suppressed_expr-Alike database project_id _ _) (λ suppressed.
                bind-Alike _ _ _ _ (after_cursor-Alike select c d h) (λ after. pure-Alike _)))))))

  pub compile_segment-AlikeBy :
      (q : SegmentQuery N) (project_id : ℕ) (select : Select) (c d : Option Cursor)
      → SamePage c d
      → AlikeBy SameSql
          (compile_segment js database now q project_id select c)
          (compile_segment js database now (in_query r q) project_id select d)
  unfolding compile_segment
  compile_segment-AlikeBy q project_id select c d page =
      checked-AlikeBy _ _ _ _ _ _ (compile_sql-Alike q project_id select c d page)

  -- No value of a segment or of a cursor reaches the text of the query: two queries that differ
  -- only in the texts, numbers, flags and lengths of windows compile, if both compile, to the same
  -- text, when neither or both have a cursor and the same number of parameters was bound before.
  pub compile_segment-in_query :
      (q : SegmentQuery N) (project_id : ℕ) (select : Select) (c d : Option Cursor) (p s : Params N)
      (x y : CompiledQuery × Params N)
      → SamePage c d
      → p.next ≡ s.next
      → compile_segment js database now q project_id select c p ≡ ok x
      → compile_segment js database now (in_query r q) project_id select d s ≡ ok y
      → (x.0.sql ≡ y.0.sql) × (x.1.next ≡ y.1.next)
  compile_segment-in_query q project_id select c d p s x y page same hx hy =
      subst (λ k. AgreeBy SameSql (ok x) k) hy
        (subst
          (λ k.
            AgreeBy SameSql k
              (compile_segment js database now (in_query r q) project_id select d s))
          hx (compile_segment-AlikeBy q project_id select c d page p s same))
