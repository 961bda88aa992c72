-- ===== src/Funnels/Compile/Binding.antt =====
-- What the parts of the query of packages/core/src/funnels/compile.ts bind, and that they throw
-- nothing of their own.
use lyraflow.Prelude.Orders.{Units}
use lyraflow.Prelude.Decimal.{units_eq}
use lyraflow.Prelude.Texts.{codes}
use lyraflow.JsMap.{JsMap, get}
use lyraflow.Segments.Syntax.{FilterNode, text}
use lyraflow.Segments.Params.{string_type, uint32_type, date_time_type}
use lyraflow.Segments.Params.Dates.{Platform}
use lyraflow.Segments.Params.Bound.{
  Any, Meets, pure-Meets, add-Meets, add_value-Meets, bind-Meets, lift-Meets,
  resolved_person_expr-Allowed,
}
use lyraflow.Segments.Predicates.Bound.{ch_date_time-Allowed}
use lyraflow.Segments.Behaviour.Bound.{e_safe, where_parts-Meets, not_suppressed_expr-Meets}
use lyraflow.Segments.Compile.{selects_persons}
use lyraflow.Segments.Compile.Bound.{compile_segment-Meets}
use lyraflow.Segments.Validate.Caps.{validate_tree_iff}
use lyraflow.Funnels.Spine.{FunnelSpine}
use lyraflow.Funnels.Syntax.{FunnelStep, FunnelDefinition}
use lyraflow.Funnels.Validate.{Range, query_of}
use lyraflow.Funnels.Validate.Caps.{WithinCaps}
use lyraflow.Funnels.Chains.{PassParts}
use lyraflow.Funnels.People.{PeopleAt, placement_of}
use lyraflow.Funnels.People.Bound.{
  level_predicate-Meets, people_after-Meets, people_text-Meets, optional_counts-Meets,
  continued_counts-Meets,
}
use lyraflow.Funnels.Compile.{
  spine_of, placeholder_from, event_placeholder, gate_of, gates, step_condition, later_conditions,
  all_conditions, add_date, shape, pass_and_shape, funnel_sql,
}
use lyraflow.Prelude.{ℕ, Option, none, some, List, [], ◌∷◌, get_or, drop, All, nat_eq, string_eq}

module _ {N : Type 0} (js : Platform N ℕ) (db : Units) (now : ℕ) (project_id : ℕ) where
  placeholder_from-Meets :
      (found : Option Units) (event : Units) (events : JsMap Units Units)
      → Meets {N = N} db (placeholder_from found event events) Any
  placeholder_from-Meets none event events =
      bind-Meets db _ _ Any Any (add-Meets db (text event) string_type) (λ a _. pure-Meets db)
  placeholder_from-Meets (some a) event events = pure-Meets db

  event_placeholder-Meets :
      (event : Units) (events : JsMap Units Units)
      → Meets {N = N} db (event_placeholder event events) Any
  unfolding event_placeholder
  event_placeholder-Meets event events = placeholder_from-Meets (get event events) event events

  add_date-Meets : (d : ℕ) → Meets db (add_date js db now project_id d) Any
  unfolding add_date
  add_date-Meets d =
      bind-Meets db _ _ Any Any (lift-Meets db _ (ch_date_time-Allowed js now db (some d)))
        (λ at _. add-Meets db (text at) date_time_type)

  gate_of-Meets :
      (resolved : Units) (a : Option (FilterNode N))
      → WithinCaps a
      → Meets db (gate_of js db now project_id resolved a) Any
  gate_of-Meets resolved none h = pure-Meets db
  gate_of-Meets resolved (some t) h =
      bind-Meets db _ _ Any Any
        (compile_segment-Meets js db now (query_of t) project_id selects_persons none
          ((validate_tree_iff (query_of t)).1 h))
        (λ persons _. pure-Meets db)

  gates-Meets :
      (resolved : Units) (steps : List (FunnelStep N))
      → All (λ s. WithinCaps s.audience) steps
      → Meets db (gates js db now project_id resolved steps) Any
  unfolding gates
  gates-Meets resolved [] h = pure-Meets db
  gates-Meets resolved (s ∷ steps) (h, hs) =
      bind-Meets db _ _ Any Any (gate_of-Meets resolved s.audience h) (λ gate _.
        bind-Meets db _ _ Any Any (gates-Meets resolved steps hs) (λ rest _. pure-Meets db))

  step_condition-Meets :
      (s : FunnelStep N) (gate : Option Units) (events : JsMap Units Units)
      → Meets db (step_condition js db now project_id s gate events) Any
  unfolding step_condition
  step_condition-Meets s gate events =
      bind-Meets db _ _ Any Any (event_placeholder-Meets s.event events) (λ named _.
        bind-Meets db _ _ Any Any (where_parts-Meets js now db s.where_)
          (λ predicates _. pure-Meets db))

  later_conditions-Meets :
      (steps : List (FunnelStep N)) (gs : List (Option Units)) (events : JsMap Units Units)
      → Meets db (later_conditions js db now project_id steps gs events) Any
  unfolding later_conditions
  later_conditions-Meets [] gs events = pure-Meets db
  later_conditions-Meets (s ∷ steps) gs events =
      bind-Meets db _ _ Any Any (step_condition-Meets s (get_or gs 0 none) events) (λ cond _.
        bind-Meets db _ _ Any Any (later_conditions-Meets steps (drop 1 gs) cond.1)
          (λ rest _. pure-Meets db))

  all_conditions-Meets :
      (until : Units) (steps : List (FunnelStep N)) (gs : List (Option Units))
      → Meets db (all_conditions js db now project_id until steps gs) Any
  unfolding all_conditions
  all_conditions-Meets until [] gs = pure-Meets db
  all_conditions-Meets until (s ∷ steps) gs =
      bind-Meets db _ _ Any Any (step_condition-Meets s (get_or gs 0 none) []) (λ cond _.
        bind-Meets db _ _ Any Any (later_conditions-Meets steps (drop 1 gs) cond.1)
          (λ rest _. pure-Meets db))

  shape-Meets :
      (people : Option PeopleAt) (parts : PassParts) (s : FunnelSpine) (boundary : Units)
      (segment : Option Units)
      → Meets db (shape js db now project_id people parts s boundary segment) Any
  shape-Meets none parts s boundary segment =
      bind-Meets db _ _ Any Any (optional_counts-Meets db s s.optional 0) (λ optional _.
        bind-Meets db _ _ Any Any (continued_counts-Meets db parts.conditions s s.optional 0)
          (λ continued _. pure-Meets db))
  shape-Meets (some people) parts s boundary segment =
      bind-Meets db _ _ Any Any (people_after-Meets db people.select people.cursor) (λ after _.
        bind-Meets db _ _ Any Any
          (level_predicate-Meets db people.mode people.step (placement_of s people.step))
          (λ level _. people_text-Meets js db now people.select project_id _ _ _ _))

  pass_and_shape-Meets :
      (def : FunnelDefinition N) (segment : Option Units) (people : Option PeopleAt)
      (project since scan_end resolved : Units) (conditions : List Units) (event_list : Units)
      → Meets db
          (pass_and_shape js db now project_id def segment people project since scan_end resolved
            conditions event_list)
          Any
  unfolding pass_and_shape
  pass_and_shape-Meets def segment people project since scan_end resolved conditions event_list =
      bind-Meets db _ _ Any Any (add_value-Meets db _ uint32_type) (λ window _.
        bind-Meets db _ _ Any Any (add_date-Meets _) (λ boundary _.
          bind-Meets db _ _ Any Any (not_suppressed_expr-Meets db project_id resolved _)
            (λ kept _. shape-Meets people _ (spine_of def) boundary segment)))

  pub funnel_sql-Meets :
      (def : FunnelDefinition N) (range : Range) (segment : Option Units) (people : Option PeopleAt)
      → All (λ s. WithinCaps s.audience) def.steps
      → Meets db (funnel_sql js db now project_id def range segment people) Any
  unfolding funnel_sql
  funnel_sql-Meets def range segment people caps =
      bind-Meets db _ _ Any Any (add_value-Meets db _ uint32_type) (λ project _.
        bind-Meets db _ _ Any Any (add_date-Meets _) (λ since _.
          bind-Meets db _ _ Any Any (add_date-Meets _) (λ until _.
            bind-Meets db _ _ Any Any (add_date-Meets _) (λ scan_end _.
              bind-Meets db _ _ Any Any
                (lift-Meets db _ (resolved_person_expr-Allowed db (codes "e") e_safe))
                (λ resolved _.
                  bind-Meets db _ _ Any Any (gates-Meets resolved def.steps caps) (λ gated _.
                    bind-Meets db _ _ Any Any (all_conditions-Meets until def.steps gated)
                      (λ conditions _. pass_and_shape-Meets def segment people _ _ _ _ _ _)))))))
