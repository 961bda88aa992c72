-- ===== src/Retention/Compile/Injection.antt =====
-- The text of a query of packages/core/src/retention/compile.ts for a report and for the same report
-- with other values.
use lyraflow.Prelude.Orders.{Units}
use lyraflow.Prelude.Decimal.{units_eq}
use lyraflow.Prelude.Texts.{codes}
use lyraflow.Segments.Syntax.{WherePredicate, text}
use lyraflow.Segments.Params.{Params, ok, Compiler, string_type, uint32_type, date_time_type}
use lyraflow.Segments.Params.Dates.{Platform}
use lyraflow.Segments.Params.Alike.{
  Agree, AgreeBy-throw, Alike, pure-Alike, add-Alike, add_value-Alike, bind-Alike, lift-Alike,
  lift_same-Alike, if-Alike,
}
use lyraflow.Segments.Replace.{Replacement, in_where}
use lyraflow.Segments.Behaviour.{attribute_columns}
use lyraflow.Segments.Behaviour.Injection.{
  not_suppressed_expr-Alike, where_parts-Alike, attributes_of-map, map-append,
}
use lyraflow.Retention.Validate.{any_event, RetentionQuery, RetentionValidationError}
use lyraflow.Retention.Compile.{
  unless_invalid, reads_properties, needs_properties, predicate_columns, add_name, add_parsed,
  clause, retention_sql, compile_retention,
}
use lyraflow.Prelude.{
  ℕ, ◌≡◌, refl, sym, subst, Option, none, some, List, [], ◌∷◌, ◌++◌, map, ◌==◌, nat_eq, string_eq,
}

module _ {N : Type 0} (r : Replacement N) where
  -- The same report with other events and values, over another range and for other periods.
  abbrev pub in_report : RetentionQuery N → ℕ → Units → Units → RetentionQuery N
  in_report q periods since until = record q {
    start_event = r.of_text q.start_event;
    return_event = r.of_text q.return_event;
    start_where = map (in_where r) q.start_where;
    return_where = map (in_where r) q.return_where;
    periods = periods;
    since = since;
    until = until;
  }

  reads_properties-in_where :
      (w : WherePredicate N) → reads_properties (in_where r w) ≡ reads_properties w
  reads_properties-in_where (WherePredicate.attribute field clause) = refl
  reads_properties-in_where (WherePredicate.property name clause) = refl

  needs_properties-map :
      (ws : List (WherePredicate N)) → needs_properties (map (in_where r) ws) ≡ needs_properties ws
  unfolding needs_properties
  needs_properties-map [] = refl
  needs_properties-map (w ∷ ws) = rw (reads_properties-in_where w, needs_properties-map ws) refl

  predicate_columns-map :
      (xs ys : List (WherePredicate N))
      → predicate_columns (map (in_where r) xs ++ map (in_where r) ys)
        ≡ predicate_columns (xs ++ ys)
  unfolding predicate_columns attribute_columns
  predicate_columns-map xs ys =
      rw
        (
          sym (map-append r xs ys),
          needs_properties-map (xs ++ ys),
          attributes_of-map r (xs ++ ys) [],
        )
        refl

  add_name-Alike : (event : Units) → Alike {N = N} (add_name event) (add_name (r.of_text event))
  unfolding add_name any_event
  add_name-Alike event = rw (r.of_star event) (
      if-Alike (event == codes "*") _ _ _ _ (pure-Alike none)
        (bind-Alike _ _ _ _ (add-Alike _ _ string_type) (λ name. pure-Alike _)))

module _ {N : Type 0} (js : Platform N ℕ) (database : Units) (now : ℕ) (project_id : ℕ)
    (r : Replacement N) where
  add_parsed-Alike :
      (d e : Option ℕ)
      → Alike (add_parsed js database now project_id d) (add_parsed js database now project_id e)
  unfolding add_parsed
  add_parsed-Alike d e = lift-Alike _ _ _ _ (λ a b. add-Alike (text a) (text b) date_time_type)

  clause-Alike :
      (name : Option Units) (ws : List (WherePredicate N))
      → Alike
          (clause js database now project_id name ws)
          (clause js database now project_id name (map (in_where r) ws))
  clause-Alike name ws = bind-Alike _ _ _ _ (where_parts-Alike js now r ws) (λ parts. pure-Alike _)

  retention_sql-Alike :
      (q : RetentionQuery N) (periods : ℕ) (since until : Units) (segment : Option Units)
      → Alike
          (retention_sql js database now project_id q segment)
          (retention_sql js database now project_id (in_report r q periods since until) segment)
  unfolding retention_sql
  retention_sql-Alike q periods since until segment =
      rw (predicate_columns-map r q.start_where q.return_where) (
        bind-Alike _ _ _ _ (add_value-Alike _ _ uint32_type) (λ project.
          bind-Alike _ _ _ _ (add_parsed-Alike _ _) (λ from.
            bind-Alike _ _ _ _ (add_parsed-Alike _ _) (λ to.
              bind-Alike _ _ _ _ (add_parsed-Alike _ _) (λ scan_end.
                bind-Alike _ _ _ _ (add_value-Alike _ _ uint32_type) (λ cells.
                  bind-Alike _ _ _ _ (lift_same-Alike _) (λ resolved.
                    bind-Alike _ _ _ _ (not_suppressed_expr-Alike database project_id resolved _)
                      (λ kept. bind-Alike _ _ _ _ (add_name-Alike r q.start_event) (λ start.
                        bind-Alike _ _ _ _ (add_name-Alike r q.return_event) (λ return_name.
                          bind-Alike _ _ _ _ (clause-Alike start q.start_where) (λ entry.
                            bind-Alike _ _ _ _ (clause-Alike return_name q.return_where)
                              (λ back. pure-Alike _))))))))))))

  unless_invalid-Alike :
      (e f : Option RetentionValidationError) (m k : Compiler N Units)
      → Alike m k
      → Alike (unless_invalid e m) (unless_invalid f k)
  unfolding unless_invalid
  unless_invalid-Alike (some e) f m k mk = λ p q h. tt
  unless_invalid-Alike none (some f) m k mk = λ p q h. AgreeBy-throw (λ a b. a ≡ b) _ _
  unless_invalid-Alike none none m k mk = mk

  -- No event name or value of a report, of its range or of its number of periods reaches the text of
  -- the query: two runs that differ only in those compile, if both compile, to the same text, when
  -- neither or both events are `*` as before and the same number of parameters was bound.
  pub compile_retention-in_report :
      (q : RetentionQuery N) (periods : ℕ) (since until : Units) (segment : Option Units)
      (p s : Params N) (x y : Units × Params N)
      → p.next ≡ s.next
      → compile_retention js database now project_id q segment p ≡ ok x
      → compile_retention js database now project_id (in_report r q periods since until) segment s
        ≡ ok y
      → (x.0 ≡ y.0) × (x.1.next ≡ y.1.next)
  unfolding compile_retention
  compile_retention-in_report q periods since until segment p s x y same hx hy =
      subst (λ k. Agree (ok x) k) hy
        (subst
          (λ k. Agree k (
            compile_retention js database now project_id (in_report r q periods since until) segment
              s))
          hx
          (unless_invalid-Alike _ _ _ _ (retention_sql-Alike q periods since until segment) p s
            same))
