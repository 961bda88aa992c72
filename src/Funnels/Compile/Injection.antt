-- ===== src/Funnels/Compile/Injection.antt =====
-- The text of a query of packages/core/src/funnels/compile.ts for a funnel and for the same funnel with
-- other values.
use lyraflow.Funnels.Compile.Replaced.{
  in_audience, in_step, in_funnel, in_events, IsInjective, Named, placeholders-in_events,
  spine_step-map, attributes-in_funnel, event_placeholder-Named,
}
use lyraflow.Prelude.Orders.{Units}
use lyraflow.Prelude.Decimal.{units_eq}
use lyraflow.JsMap.{JsMap}
use lyraflow.Segments.Syntax.{FilterNode, text}
use lyraflow.Segments.Params.{Params, ok, Compiler, pure, uint32_type, date_time_type}
use lyraflow.Segments.Params.Dates.{Platform}
use lyraflow.Segments.Params.Alike.{
  AgreeBy, AlikeBy, AgreeBy-throw, bind-AlikeBy, Alike, pure-Alike, add-Alike, add_value-Alike,
  bind-Alike, lift-Alike, lift_same-Alike,
}
use lyraflow.Segments.Replace.{Replacement}
use lyraflow.Segments.Behaviour.Injection.{not_suppressed_expr-Alike, where_parts-Alike}
use lyraflow.Segments.Compile.{CompiledQuery, selects_persons}
use lyraflow.Segments.Compile.Injection.{SamePage, SameSql, compile_segment-AlikeBy}
use lyraflow.Funnels.Spine.{FunnelSpine, funnel_spine}
use lyraflow.Funnels.Syntax.{FunnelStep, FunnelDefinition}
use lyraflow.Funnels.Validate.{FunnelValidationError, Range, query_of}
use lyraflow.Segments.Validate.{CostWarning}
use lyraflow.Funnels.Chains.{PassParts}
use lyraflow.Funnels.People.{PeopleAt, placement_of}
use lyraflow.Funnels.People.Injection.{
  level_predicate-Alike, people_after-Alike, people_text-Alike, optional_counts-Alike,
  continued_counts-Alike,
}
use lyraflow.Funnels.Compile.{
  spine_of, unless_refused, gate_of, gates, step_condition, later_conditions, all_conditions,
  add_date, shape, pass_and_shape, funnel_sql, within_size, compile_funnel,
}
use lyraflow.Prelude.{
  ℕ, ◌≡◌, refl, sym, ap, subst, Option, none, some, List, [], ◌∷◌, map, get_or, drop, nat_eq,
  string_eq,
}

module _ {N : Type 0} (js : Platform N ℕ) (database : Units) (now : ℕ) (project_id : ℕ)
    (r : Replacement N) (distinct : IsInjective r) where
  gate_of-Alike :
      (resolved : Units) (a : Option (FilterNode N))
      → Alike
          (gate_of js database now project_id resolved a)
          (gate_of js database now project_id resolved (in_audience r a))
  gate_of-Alike resolved none = pure-Alike _
  gate_of-Alike resolved (some t) =
      bind-AlikeBy SameSql (λ a b. a ≡ b) _ _ _ _
        (compile_segment-AlikeBy js database now r (query_of t) project_id selects_persons none none
          refl)
        (λ a b same p q h. (rw same refl, h))

  gates-Alike :
      (resolved : Units) (steps : List (FunnelStep N))
      → Alike
          (gates js database now project_id resolved steps)
          (gates js database now project_id resolved (map (in_step r) steps))
  unfolding gates
  gates-Alike resolved [] = pure-Alike _
  gates-Alike resolved (s ∷ steps) =
      bind-Alike _ _ _ _ (gate_of-Alike resolved s.audience)
        (λ gate. bind-Alike _ _ _ _ (gates-Alike resolved steps) (λ rest. pure-Alike _))

  step_condition-Named :
      (s : FunnelStep N) (gate : Option Units) (events : JsMap Units Units)
      → AlikeBy
          (Named r distinct)
          (step_condition js database now project_id s gate events)
          (step_condition js database now project_id (in_step r s) gate (in_events r events))
  unfolding step_condition
  step_condition-Named s gate events =
      bind-AlikeBy (Named r distinct) (Named r distinct) _ _ _ _
        (event_placeholder-Named r distinct s.event events)
        (λ a b named.
          bind-AlikeBy (λ x y. x ≡ y) (Named r distinct) _ _ _ _
            (where_parts-Alike js now r s.where_)
            (λ x y same p q h. ((rw (named.0, same) refl, named.1), h)))

  later_conditions-Named :
      (steps : List (FunnelStep N)) (gs : List (Option Units)) (events events' : JsMap Units Units)
      → events' ≡ in_events r events
      → AlikeBy
          (Named r distinct)
          (later_conditions js database now project_id steps gs events)
          (later_conditions js database now project_id (map (in_step r) steps) gs events')
  unfolding later_conditions
  later_conditions-Named [] gs events events' e = λ p q h. ((refl, e), h)
  later_conditions-Named (s ∷ steps) gs events events' e = rw e (
      bind-AlikeBy (Named r distinct) (Named r distinct) _ _ _ _
        (step_condition-Named s (get_or gs 0 none) events)
        (λ a b named.
          bind-AlikeBy (Named r distinct) (Named r distinct) _ _ _ _
            (later_conditions-Named steps (drop 1 gs) a.1 b.1 named.1)
            (λ x y rest p q h. ((rw (named.0, rest.0) refl, rest.1), h))))

  all_conditions-Named :
      (until : Units) (steps : List (FunnelStep N)) (gs : List (Option Units))
      → AlikeBy
          (Named r distinct)
          (all_conditions js database now project_id until steps gs)
          (all_conditions js database now project_id until (map (in_step r) steps) gs)
  unfolding all_conditions
  all_conditions-Named until [] gs = λ p q h. ((refl, refl), h)
  all_conditions-Named until (s ∷ steps) gs =
      bind-AlikeBy (Named r distinct) (Named r distinct) _ _ _ _
        (step_condition-Named s (get_or gs 0 none) [])
        (λ a b named.
          bind-AlikeBy (Named r distinct) (Named r distinct) _ _ _ _
            (later_conditions-Named steps (drop 1 gs) a.1 b.1 named.1)
            (λ x y rest p q h. ((rw (named.0, rest.0) refl, rest.1), h)))

  add_date-Alike :
      (d e : ℕ)
      → Alike (add_date js database now project_id d) (add_date js database now project_id e)
  unfolding add_date
  add_date-Alike d e = lift-Alike _ _ _ _ (λ a b. add-Alike (text a) (text b) date_time_type)

  -- The same shape at another page.
  abbrev pub SamePeople : Option PeopleAt → Option PeopleAt → Type 0
  SamePeople none none = Unit
  SamePeople (some a) (some b) =
      (a.step ≡ b.step) × ((a.mode ≡ b.mode) × ((a.select ≡ b.select) × SamePage a.cursor b.cursor))
  SamePeople none (some b) = ⊥
  SamePeople (some a) none = ⊥

  shape-Alike :
      (a b : Option PeopleAt) (parts : PassParts) (s : FunnelSpine) (boundary : Units)
      (segment : Option Units)
      → SamePeople a b
      → Alike
          (shape js database now project_id a parts s boundary segment)
          (shape js database now project_id b parts s boundary segment)
  shape-Alike none none parts s boundary segment h =
      bind-Alike _ _ _ _ (optional_counts-Alike s s.optional 0) (λ optional.
        bind-Alike _ _ _ _ (continued_counts-Alike parts.conditions s s.optional 0)
          (λ continued. pure-Alike _))
  shape-Alike (some a) (some b) parts s boundary segment h =
      rw (sym h.0, sym h.1.0, sym h.1.1.0)
        (bind-Alike _ _ _ _ (people_after-Alike a.select a.cursor b.cursor h.1.1.1) (λ after.
          bind-Alike _ _ _ _ (level_predicate-Alike a.mode a.step (placement_of s a.step))
            (λ level. people_text-Alike js database now r a.select project_id _ _ _ _)))
  shape-Alike none (some b) parts s boundary segment h = elim h [ ]
  shape-Alike (some a) none parts s boundary segment h = elim h [ ]

  spine_of-in_funnel : (def : FunnelDefinition N) → spine_of (in_funnel r def) ≡ spine_of def
  unfolding spine_of
  spine_of-in_funnel def = ap funnel_spine (spine_step-map r def.steps)

  pass_and_shape-Alike :
      (def : FunnelDefinition N) (segment : Option Units) (a b : Option PeopleAt)
      (project since scan_end resolved : Units) (conditions : List Units) (event_list : Units)
      → SamePeople a b
      → Alike
          (pass_and_shape js database now project_id def segment a project since scan_end resolved
            conditions event_list)
          (pass_and_shape js database now project_id
            (in_funnel r def)
            segment
            b
            project
            since
            scan_end
            resolved
            conditions
            event_list)
  unfolding pass_and_shape
  pass_and_shape-Alike def segment a b project since scan_end resolved conditions event_list h =
      rw (spine_of-in_funnel def, attributes-in_funnel r def.steps)
        (bind-Alike _ _ _ _ (add_value-Alike _ _ uint32_type) (λ window.
          bind-Alike _ _ _ _ (add_date-Alike _ _) (λ boundary.
            bind-Alike _ _ _ _ (not_suppressed_expr-Alike database project_id resolved _)
              (λ kept. shape-Alike a b _ (spine_of def) boundary segment h))))

  funnel_sql-Alike :
      (def : FunnelDefinition N) (range range' : Range) (segment : Option Units)
      (a b : Option PeopleAt)
      → SamePeople a b
      → Alike
          (funnel_sql js database now project_id def range segment a)
          (funnel_sql js database now project_id (in_funnel r def) range' segment b)
  unfolding funnel_sql
  funnel_sql-Alike def range range' segment a b h =
      bind-Alike _ _ _ _ (add_value-Alike _ _ uint32_type) (λ project.
        bind-Alike _ _ _ _ (add_date-Alike _ _) (λ since.
          bind-Alike _ _ _ _ (add_date-Alike _ _) (λ until.
            bind-Alike _ _ _ _ (add_date-Alike _ _) (λ scan_end.
              bind-Alike _ _ _ _ (lift_same-Alike _) (λ resolved.
                bind-Alike _ _ _ _ (gates-Alike resolved def.steps) (λ gated.
                  bind-AlikeBy (Named r distinct) (λ x y. x ≡ y) _ _ _ _
                    (all_conditions-Named until def.steps gated)
                    (λ x y named.
                      rw (sym named.0, named.1, placeholders-in_events r x.1)
                        (pass_and_shape-Alike def segment a b project since scan_end resolved x.0 _
                          h))))))))

  unless_refused-AlikeBy :
      (e f : Option FunnelValidationError) (m k : Compiler N CompiledQuery)
      → AlikeBy SameSql m k
      → AlikeBy SameSql (unless_refused e m) (unless_refused f k)
  unfolding unless_refused
  unless_refused-AlikeBy (some e) f m k mk = λ p q h. tt
  unless_refused-AlikeBy none (some f) m k mk = λ p q h. AgreeBy-throw SameSql _ _
  unless_refused-AlikeBy none none m k mk = mk

  sized-AlikeBy :
      (u v : Units) (e f : Option FunnelValidationError) (w w' : List CostWarning)
      → u ≡ v
      → AlikeBy {N = N} SameSql
          (unless_refused e (pure (record { sql = u; warnings = w })))
          (unless_refused f (pure (record { sql = v; warnings = w' })))
  sized-AlikeBy u v e f w w' same = unless_refused-AlikeBy e f _ _ (λ p q n. (same, n))

  -- No value of a funnel, of its range or of a cursor reaches the text of the query: two runs that
  -- differ only in those compile, if both compile, to the same text, when the replacement tells texts
  -- apart as before, neither or both have a cursor, and the same number of parameters was bound.
  pub compile_funnel-in_funnel :
      (def : FunnelDefinition N) (range range' : Range) (segment : Option Units)
      (a b : Option PeopleAt) (p s : Params N) (x y : CompiledQuery × Params N)
      → SamePeople a b
      → p.next ≡ s.next
      → compile_funnel js database now project_id def range segment a p ≡ ok x
      → compile_funnel js database now project_id (in_funnel r def) range' segment b s ≡ ok y
      → (x.0.sql ≡ y.0.sql) × (x.1.next ≡ y.1.next)
  unfolding compile_funnel
  compile_funnel-in_funnel def range range' segment a b p s x y people same hx hy =
      subst (λ k. AgreeBy SameSql (ok x) k) hy
        (subst
          (λ k.
            AgreeBy SameSql k
              (compile_funnel js database now project_id (in_funnel r def) range' segment b s))
          hx
          (unless_refused-AlikeBy _ _ _ _
            (unless_refused-AlikeBy _ _ _ _ (
              bind-AlikeBy (λ u v. u ≡ v) SameSql _ _ _ _
                (funnel_sql-Alike def range range' segment a b people)
                (λ u v sql. sized-AlikeBy u v (within_size u) (within_size v) _ _ sql)))
            p s same))
