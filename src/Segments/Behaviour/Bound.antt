-- ===== src/Segments/Behaviour/Bound.antt =====
-- What the pass of packages/core/src/segments/behaviour.ts binds, throws and registers.
use lyraflow.Prelude.Orders.{Units}
use lyraflow.Prelude.Decimal.{decimal, units_eq}
use lyraflow.Prelude.Texts.{codes}
use lyraflow.JsMap.{JsMap, get, set}
use lyraflow.JsMap.Laws.{get-set}
use lyraflow.Identity.Resolve.{is_safe_identifier}
use lyraflow.Privacy.Suppression.{not_suppressed_expr}
use lyraflow.Segments.Syntax.{
  WherePredicate, Behavior, Window, Aggregate, text, last, absolute, ever,
}
use lyraflow.Segments.Params.{string_type, uint32_type, date_time_type}
use lyraflow.Segments.Params.Dates.{Platform}
use lyraflow.Segments.Params.Bound.{
  Any, Meets, pure-Meets, add-Meets, add_value-Meets, bind-Meets, lift-Meets, if-Meets,
  resolved_person_expr-Allowed,
}
use lyraflow.Segments.Predicates.Bound.{ch_date_time-Allowed, where_predicate-Meets}
use lyraflow.Segments.Behaviour.{
  add_property, aggregate_property, aggregate_expr, window_start, event_part, bound_part,
  start_part, end_part, where_parts, condition, aggregates, scan_bound, behaviour_pass,
  behaviour_cte,
}
use lyraflow.Prelude.{
  ℕ, ◌+◌, ◌≡◌, refl, true, Option, none, some, List, [], ◌∷◌, ◌++◌, arith, is_some, All, ◌==◌,
  ==_refl, nat_eq, string_eq,
}

-- Every behaviour of a list has an alias.
abbrev pub AllAliased : {N : Type 0} → List (Behavior N) → JsMap ℕ Units → Type 0
AllAliased bs alias_for = All (λ b. is_some (get b.identity alias_for) ≡ true) bs

abbrev pub Aliasing : {N A : Type 0} → List (Behavior N) → A × JsMap ℕ Units → Type 0
Aliasing bs out = AllAliased bs out.1

pub e_safe : is_safe_identifier (codes "e") ≡ true
unfolding is_safe_identifier codes
e_safe = refl

-- The aliases of one map are in another too.
abbrev pub Keeps : JsMap ℕ Units → JsMap ℕ Units → Type 0
Keeps m n = (j : ℕ) → is_some (get j m) ≡ true → is_some (get j n) ≡ true

is_some-get-set : (k : ℕ) (v : Units) (m : JsMap ℕ Units) → is_some (get k (set k v m)) ≡ true
is_some-get-set k v m = ground (arith, get-set k k v m, ==_refl k)

Keeps-set : (k : ℕ) (v : Units) (m : JsMap ℕ Units) → Keeps m (set k v m)
Keeps-set k v m j h = ground (arith, get-set k j v m)

module _ {N : Type 0} (db : Units) where
  pub not_suppressed_expr-Meets :
      (project_id : ℕ) (person instant : Units)
      → Meets {N = N} db (not_suppressed_expr db project_id person instant) Any
  unfolding not_suppressed_expr
  not_suppressed_expr-Meets project_id person instant =
      bind-Meets db _ _ Any Any (add_value-Meets db _ uint32_type) (λ project _. pure-Meets db)

  add_property-Meets : (p : Option Units) → Meets {N = N} db (add_property p) Any
  add_property-Meets none = pure-Meets db
  add_property-Meets (some p) = add-Meets db (text p) string_type

  aggregate_expr-Meets :
      (a : Aggregate) (cond : Units) → Meets {N = N} db (aggregate_expr a cond) Any
  unfolding aggregate_expr
  aggregate_expr-Meets a cond =
      bind-Meets db _ _ Any Any (add_property-Meets (aggregate_property a)) (λ key _. pure-Meets db)

module _ {N D : Type 0} (js : Platform N D) (now : D) (db : Units) where
  bound_part-Meets : (op : Units) (d : Option D) → Meets {N = N} db (bound_part js now op d) Any
  unfolding bound_part
  bound_part-Meets op d =
      bind-Meets db _ _ Any Any (lift-Meets db _ (ch_date_time-Allowed js now db d)) (λ at _.
        bind-Meets db _ _ Any Any (add-Meets db (text at) date_time_type) (λ a _. pure-Meets db))

  event_part-Meets : (event : Units) → Meets {N = N} db (event_part js now event) Any
  event_part-Meets event =
      if-Meets db (event == codes "*") _ _ Any (pure-Meets db)
        (bind-Meets db _ _ Any Any (add-Meets db (text event) string_type) (λ a _. pure-Meets db))

  start_part-Meets : (d : Option (Option D)) → Meets {N = N} db (start_part js now d) Any
  start_part-Meets none = pure-Meets db
  start_part-Meets (some d) =
      bind-Meets db _ _ Any Any (bound_part-Meets _ d) (λ a _. pure-Meets db)

  end_part-Meets : (w : Window) → Meets {N = N} db (end_part js now w) Any
  end_part-Meets (last w) = pure-Meets db
  end_part-Meets (absolute from to) =
      bind-Meets db _ _ Any Any (bound_part-Meets _ _) (λ a _. pure-Meets db)
  end_part-Meets ever = pure-Meets db

  scan_bound-Meets : (d : Option (Option D)) → Meets {N = N} db (scan_bound js now d) Any
  unfolding scan_bound
  scan_bound-Meets none = pure-Meets db
  scan_bound-Meets (some d) =
      bind-Meets db _ _ Any Any (bound_part-Meets _ d) (λ a _. pure-Meets db)

  pub where_parts-Meets : (ws : List (WherePredicate N)) → Meets db (where_parts js now ws) Any
  unfolding where_parts
  where_parts-Meets [] = pure-Meets db
  where_parts-Meets (w ∷ ws) =
      bind-Meets db _ _ Any Any (where_predicate-Meets js now db w)
        (λ part _. bind-Meets db _ _ Any Any (where_parts-Meets ws) (λ parts _. pure-Meets db))

  condition-Meets : (b : Behavior N) → Meets db (condition js now b) Any
  unfolding condition
  condition-Meets b = bind-Meets db _ _ Any Any (event_part-Meets b.event) (λ event _.
      bind-Meets db _ _ Any Any (start_part-Meets (window_start js now b.window)) (λ start _.
        bind-Meets db _ _ Any Any (end_part-Meets b.window) (λ end _.
          bind-Meets db _ _ Any Any (where_parts-Meets b.where_) (λ predicates _. pure-Meets db))))

  aggregates-Meets :
      (bs : List (Behavior N)) (i : ℕ) (m : JsMap ℕ Units)
      → Meets db (aggregates js now bs i m) (λ out. AllAliased bs out.1 × Keeps m out.1)
  unfolding aggregates
  aggregates-Meets [] i m = λ p pos. ((tt, λ j h. h), (pure-Meets db p pos).1)
  aggregates-Meets (b ∷ bs) i m = bind-Meets db _ _ Any _ (condition-Meets b) (λ cond _.
      bind-Meets db _ _ Any _ (aggregate_expr-Meets db b.aggregate cond) (λ expr _.
        bind-Meets db _ _ _ _
          (aggregates-Meets bs (i + 1) (set b.identity (codes "b" ++ decimal i) m))
          (λ rest post p pos. (
            (
              (post.1 b.identity (is_some-get-set b.identity (codes "b" ++ decimal i) m), post.0),
              λ j h. post.1 j (Keeps-set b.identity (codes "b" ++ decimal i) m j h),
            ),
            (pure-Meets db p pos).1,
          ))))

  behaviour_pass-Meets :
      (project_id : ℕ) (b : Behavior N) (bs : List (Behavior N))
      → Meets db (behaviour_pass js now db project_id b bs) (Aliasing (b ∷ bs))
  unfolding behaviour_pass
  behaviour_pass-Meets project_id b bs =
      bind-Meets db _ _ Any (Aliasing {A = Units} (b ∷ bs)) (add_value-Meets db _ uint32_type)
        (λ project _.
          bind-Meets db _ _ Any (Aliasing {A = Units} (b ∷ bs)) (scan_bound-Meets _) (λ scan _.
            bind-Meets db _ _ _ (Aliasing {A = Units} (b ∷ bs)) (aggregates-Meets (b ∷ bs) 0 [])
              (λ columns post.
                bind-Meets db _ _ Any (Aliasing {A = Units} (b ∷ bs))
                  (lift-Meets db _ (resolved_person_expr-Allowed db (codes "e") e_safe))
                  (λ resolved _.
                    bind-Meets db _ _ Any (Aliasing {A = Units} (b ∷ bs))
                      (not_suppressed_expr-Meets db project_id resolved _)
                      (λ kept _ p pos. (post.0, (pure-Meets db p pos).1))))))

  pub behaviour_cte-Meets :
      (project_id : ℕ) (bs : List (Behavior N))
      → Meets db (behaviour_cte js now db project_id bs) (Aliasing bs)
  unfolding behaviour_cte
  behaviour_cte-Meets project_id [] = pure-Meets db
  behaviour_cte-Meets project_id (b ∷ bs) =
      bind-Meets db _ _ (Aliasing (b ∷ bs)) (Aliasing (b ∷ bs))
        (behaviour_pass-Meets project_id b bs) (λ pass post p pos. (post, (pure-Meets db p pos).1))
