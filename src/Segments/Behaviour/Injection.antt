-- ===== src/Segments/Behaviour/Injection.antt =====
-- packages/core/src/segments/behaviour.ts on behaviours and on the same behaviours with other values.
use lyraflow.Prelude.Orders.{Units}
use lyraflow.Prelude.Decimal.{units_eq}
use lyraflow.Prelude.Texts.{codes}
use lyraflow.JsMap.{JsMap}
use lyraflow.Segments.Syntax.{
  WherePredicate, Behavior, Window, Aggregate, text, last, absolute, ever,
}
use lyraflow.Privacy.Suppression.{not_suppressed_expr}
use lyraflow.Segments.Params.{string_type, uint32_type, date_time_type}
use lyraflow.Segments.Params.Dates.{Platform}
use lyraflow.Segments.Params.Alike.{
  Alike, if-Alike, pure-Alike, add-Alike, add_value-Alike, bind-Alike, lift-Alike, lift_same-Alike,
}
use lyraflow.Segments.Predicates.Injection.{where_predicate-Alike}
use lyraflow.Segments.Behaviour.{
  add_attribute, attributes_of, attribute_columns, all_predicates, aggregate_expr, window_start,
  event_part, bound_part, start_part, end_part, where_parts, condition, aggregates, widest,
  scan_bound, behaviour_pass, behaviour_cte,
}
use lyraflow.Segments.Replace.{Replacement, in_where, in_behavior, in_aggregate, in_window}
use lyraflow.Prelude.{
  ℕ, ◌+◌, ◌≡◌, refl, ap, ◌∙◌, Option, none, some, List, [], ◌∷◌, ◌++◌, map, is_some, ◌==◌, nat_eq,
  string_eq,
}

pub not_suppressed_expr-Alike :
    {N : Type 0} (database : Units) (project_id : ℕ) (person instant : Units)
    → Alike {N = N}
        (not_suppressed_expr database project_id person instant)
        (not_suppressed_expr database project_id person instant)
unfolding not_suppressed_expr
not_suppressed_expr-Alike database project_id person instant =
    bind-Alike _ _ _ _ (add_value-Alike _ _ uint32_type) (λ project. pure-Alike _)

module _ {N : Type 0} (r : Replacement N) where
  add_attribute-in_where :
      (w : WherePredicate N) (out : List Units)
      → add_attribute (in_where r w) out ≡ add_attribute w out
  add_attribute-in_where (WherePredicate.attribute field clause) out = refl
  add_attribute-in_where (WherePredicate.property name clause) out = refl

  pub attributes_of-map :
      (ws : List (WherePredicate N)) (out : List Units)
      → attributes_of (map (in_where r) ws) out ≡ attributes_of ws out
  unfolding attributes_of
  attributes_of-map [] out = refl
  attributes_of-map (w ∷ ws) out =
      attributes_of-map ws (add_attribute (in_where r w) out)
      ∙ ap (attributes_of ws) (add_attribute-in_where w out)

  pub map-append :
      (xs ys : List (WherePredicate N))
      → map (in_where r) (xs ++ ys) ≡ map (in_where r) xs ++ map (in_where r) ys
  map-append [] ys = refl
  map-append (x ∷ xs) ys = ap (λ t. in_where r x ∷ t) (map-append xs ys)

  all_predicates-map :
      (bs : List (Behavior N))
      → all_predicates (map (in_behavior r) bs) ≡ map (in_where r) (all_predicates bs)
  all_predicates-map [] = refl
  all_predicates-map (b ∷ bs) =
      rw (map-append b.where_ (all_predicates bs), all_predicates-map bs) refl

  pub attribute_columns-map :
      (bs : List (Behavior N))
      → attribute_columns (all_predicates (map (in_behavior r) bs))
        ≡ attribute_columns (all_predicates bs)
  unfolding attribute_columns
  attribute_columns-map bs =
      rw (all_predicates-map bs, attributes_of-map (all_predicates bs) []) refl

  aggregate_expr-Alike :
      (a : Aggregate) (cond : Units)
      → Alike {N = N} (aggregate_expr a cond) (aggregate_expr (in_aggregate r a) cond)
  unfolding aggregate_expr
  aggregate_expr-Alike Aggregate.count cond = λ p q h. (refl, h)
  aggregate_expr-Alike (Aggregate.sum k) cond =
      bind-Alike _ _ _ _ (add-Alike (text k) (text (r.of_text k)) string_type) (λ key. pure-Alike _)
  aggregate_expr-Alike (Aggregate.min k) cond =
      bind-Alike _ _ _ _ (add-Alike (text k) (text (r.of_text k)) string_type) (λ key. pure-Alike _)
  aggregate_expr-Alike (Aggregate.max k) cond =
      bind-Alike _ _ _ _ (add-Alike (text k) (text (r.of_text k)) string_type) (λ key. pure-Alike _)
  aggregate_expr-Alike (Aggregate.distinct k) cond =
      bind-Alike _ _ _ _ (add-Alike (text k) (text (r.of_text k)) string_type) (λ key. pure-Alike _)

module _ {N D : Type 0} (js : Platform N D) (now : D) (r : Replacement N) where
  event_part-Alike :
      (event : Units) → Alike (event_part js now event) (event_part js now (r.of_text event))
  event_part-Alike event = rw (r.of_star event) (
      if-Alike (event == codes "*") _ _ _ _ (pure-Alike _) (
        bind-Alike _ _ _ _ (add-Alike (text event) (text (r.of_text event)) string_type)
          (λ a. pure-Alike _)))

  bound_part-Alike :
      (op : Units) (d e : Option D) → Alike (bound_part js now op d) (bound_part js now op e)
  unfolding bound_part
  bound_part-Alike op d e =
      lift-Alike _ _ _ _
        (λ a b. bind-Alike _ _ _ _ (add-Alike (text a) (text b) date_time_type) (λ c. pure-Alike _))

  start_part-Alike :
      (w : Window)
      → Alike
          (start_part js now (window_start js now w))
          (start_part js now (window_start js now (in_window r w)))
  unfolding window_start
  start_part-Alike (last w) = bind-Alike _ _ _ _ (bound_part-Alike _ _ _) (λ a. pure-Alike _)
  start_part-Alike (absolute from to) =
      bind-Alike _ _ _ _ (bound_part-Alike _ _ _) (λ a. pure-Alike _)
  start_part-Alike ever = pure-Alike _

  end_part-Alike : (w : Window) → Alike (end_part js now w) (end_part js now (in_window r w))
  end_part-Alike (last w) = pure-Alike _
  end_part-Alike (absolute from to) =
      bind-Alike _ _ _ _ (bound_part-Alike _ _ _) (λ a. pure-Alike _)
  end_part-Alike ever = pure-Alike _

  pub where_parts-Alike :
      (ws : List (WherePredicate N))
      → Alike (where_parts js now ws) (where_parts js now (map (in_where r) ws))
  unfolding where_parts
  where_parts-Alike [] = pure-Alike _
  where_parts-Alike (w ∷ ws) =
      bind-Alike _ _ _ _ (where_predicate-Alike js now r w)
        (λ part. bind-Alike _ _ _ _ (where_parts-Alike ws) (λ parts. pure-Alike _))

  condition-Alike :
      (b : Behavior N) → Alike (condition js now b) (condition js now (in_behavior r b))
  unfolding condition
  condition-Alike b = bind-Alike _ _ _ _ (event_part-Alike b.event) (λ event.
      bind-Alike _ _ _ _ (start_part-Alike b.window) (λ start.
        bind-Alike _ _ _ _ (end_part-Alike b.window)
          (λ end. bind-Alike _ _ _ _ (where_parts-Alike b.where_) (λ predicates. pure-Alike _))))

  aggregates-Alike :
      (bs : List (Behavior N)) (i : ℕ) (alias_for : JsMap ℕ Units)
      → Alike
          (aggregates js now bs i alias_for)
          (aggregates js now (map (in_behavior r) bs) i alias_for)
  unfolding aggregates
  aggregates-Alike [] i alias_for = pure-Alike _
  aggregates-Alike (b ∷ bs) i alias_for = bind-Alike _ _ _ _ (condition-Alike b) (λ cond.
      bind-Alike _ _ _ _ (aggregate_expr-Alike r b.aggregate cond)
        (λ expr. bind-Alike _ _ _ _ (aggregates-Alike bs (i + 1) _) (λ rest. pure-Alike _)))

  scan_bound-Alike :
      (d e : Option (Option D))
      → is_some d ≡ is_some e
      → Alike (scan_bound js now d) (scan_bound js now e)
  unfolding scan_bound
  scan_bound-Alike none none h = pure-Alike _
  scan_bound-Alike (some d) (some e) h =
      bind-Alike _ _ _ _ (bound_part-Alike _ d e) (λ a. pure-Alike _)
  scan_bound-Alike none (some e) h = cc
  scan_bound-Alike (some d) none h = cc

  is_some-window_start :
      (w : Window) → is_some (window_start js now w) ≡ is_some (window_start js now (in_window r w))
  unfolding window_start
  is_some-window_start (last w) = refl
  is_some-window_start (absolute from to) = refl
  is_some-window_start ever = refl

  is_some-widest_step :
      (d e : Option D) (s t : Option (Option D)) (xs ys : List (Option (Option D)))
      → is_some s ≡ is_some t
      → ((c f : Option D)
          → is_some (widest js now (some c) xs) ≡ is_some (widest js now (some f) ys))
      → is_some (widest js now (some d) (s ∷ xs)) ≡ is_some (widest js now (some e) (t ∷ ys))
  unfolding widest
  is_some-widest_step d e none none xs ys h rest = refl
  is_some-widest_step d e (some s) (some t) xs ys h rest = rest _ _
  is_some-widest_step d e none (some t) xs ys h rest = cc
  is_some-widest_step d e (some s) none xs ys h rest = cc

  is_some-widest :
      (bs : List (Behavior N)) (d e : Option (Option D))
      → is_some d ≡ is_some e
      → is_some (widest js now d (map (λ b. window_start js now b.window) bs))
        ≡ is_some
            (widest js now e (map (λ b. window_start js now b.window) (map (in_behavior r) bs)))
  unfolding widest
  is_some-widest [] none none h = refl
  is_some-widest [] (some d) (some e) h = refl
  is_some-widest bs none (some e) h = cc
  is_some-widest bs (some d) none h = cc
  is_some-widest (b ∷ bs) none none h = refl
  is_some-widest (b ∷ bs) (some d) (some e) h =
      is_some-widest_step d e _ _ _ _ (is_some-window_start b.window)
        (λ c f. is_some-widest bs (some c) (some f) refl)

module _ {N D : Type 0} (js : Platform N D) (now : D) (database : Units) (project_id : ℕ)
    (r : Replacement N) where
  behaviour_pass-Alike :
      (b : Behavior N) (bs : List (Behavior N))
      → Alike
          (behaviour_pass js now database project_id b bs)
          (behaviour_pass js now database project_id (in_behavior r b) (map (in_behavior r) bs))
  unfolding behaviour_pass
  behaviour_pass-Alike b bs = rw (attribute_columns-map r (b ∷ bs)) (
      bind-Alike _ _ _ _ (add_value-Alike _ _ uint32_type) (λ project.
        bind-Alike _ _ _ _
          (scan_bound-Alike js now r _ _
            (is_some-widest js now r bs _ _ (is_some-window_start js now r b.window)))
          (λ scan. bind-Alike _ _ _ _ (aggregates-Alike js now r (b ∷ bs) 0 []) (λ columns.
            bind-Alike _ _ _ _ (lift_same-Alike _) (λ resolved.
              bind-Alike _ _ _ _ (not_suppressed_expr-Alike database project_id resolved _)
                (λ kept. pure-Alike _))))))

  pub behaviour_cte-Alike :
      (bs : List (Behavior N))
      → Alike
          (behaviour_cte js now database project_id bs)
          (behaviour_cte js now database project_id (map (in_behavior r) bs))
  unfolding behaviour_cte
  behaviour_cte-Alike [] = pure-Alike _
  behaviour_cte-Alike (b ∷ bs) =
      bind-Alike _ _ _ _ (behaviour_pass-Alike b bs) (λ pass. pure-Alike _)
