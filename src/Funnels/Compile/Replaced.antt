-- ===== src/Funnels/Compile/Replaced.antt =====
-- A funnel of packages/core/src/funnels/compile.ts with other values, and the events that its
-- conditions name.
use lyraflow.Prelude.Orders.{Units}
use lyraflow.Prelude.Decimal.{units_eq}
use lyraflow.JsMap.{JsMap, get, set}
use lyraflow.Segments.Syntax.{FilterNode, text}
use lyraflow.Segments.Params.{string_type}
use lyraflow.Segments.Params.Alike.{AlikeBy, bind-AlikeBy, add-Alike}
use lyraflow.Segments.Replace.{Replacement, in_where, in_tree}
use lyraflow.Segments.Behaviour.{attribute_columns}
use lyraflow.Segments.Behaviour.Injection.{attributes_of-map, map-append}
use lyraflow.Funnels.Syntax.{FunnelStep, FunnelDefinition}
use lyraflow.Funnels.Compile.{spine_step, all_predicates, placeholder_from, event_placeholder}
use lyraflow.Prelude.{
  ◌≡◌, refl, ap, inl, inr, Option, none, some, List, [], ◌∷◌, map, arith, Bool-cases, ◌==◌, nat_eq,
  string_eq,
}

module _ {N : Type 0} (r : Replacement N) where
  abbrev pub in_audience : Option (FilterNode N) → Option (FilterNode N)
  in_audience none = none
  in_audience (some t) = some (in_tree r t)

  abbrev pub in_step : FunnelStep N → FunnelStep N
  in_step s = record s {
    event = r.of_text s.event;
    where_ = map (in_where r) s.where_;
    audience = in_audience s.audience;
  }

  abbrev pub in_funnel : FunnelDefinition N → FunnelDefinition N
  in_funnel def = record def { steps = map in_step def.steps }

  -- The events, each under the text that replaces it.
  abbrev pub in_events : JsMap Units Units → JsMap Units Units
  in_events events = map (λ e. (r.of_text e.0, e.1)) events

  pub placeholders-in_events :
      (m : JsMap Units Units) → map (λ e. e.1) (in_events m) ≡ map (λ e. e.1) m
  placeholders-in_events [] = refl
  placeholders-in_events (e ∷ m) = ap (λ t. e.1 ∷ t) (placeholders-in_events m)

  pub spine_step-map :
      (steps : List (FunnelStep N)) → map spine_step (map in_step steps) ≡ map spine_step steps
  spine_step-map [] = refl
  spine_step-map (s ∷ steps) = ap (λ t. spine_step s ∷ t) (spine_step-map steps)

  pub all_predicates-map :
      (steps : List (FunnelStep N))
      → all_predicates (map in_step steps) ≡ map (in_where r) (all_predicates steps)
  all_predicates-map [] = refl
  all_predicates-map (s ∷ steps) =
      rw (map-append r s.where_ (all_predicates steps), all_predicates-map steps) refl

  pub attributes-in_funnel :
      (steps : List (FunnelStep N))
      → attribute_columns (all_predicates (map in_step steps))
        ≡ attribute_columns (all_predicates steps)
  unfolding attribute_columns
  attributes-in_funnel steps =
      rw (all_predicates-map steps, attributes_of-map r (all_predicates steps) []) refl

-- The replacement tells texts apart as before.
abbrev pub IsInjective : {N : Type 0} → Replacement N → Type 0
IsInjective r = (s t : Units) → (r.of_text s == r.of_text t) ≡ (s == t)

module _ {N : Type 0} (r : Replacement N) (distinct : IsInjective r) where
  get-in_events :
      (event : Units) (m : JsMap Units Units) → get (r.of_text event) (in_events r m) ≡ get event m
  unfolding get
  get-in_events event [] = refl
  get-in_events event (e ∷ m) = rw (distinct e.0 event) (ground (arith, get-in_events event m))

  set-in_events :
      (event a : Units) (m : JsMap Units Units)
      → set (r.of_text event) a (in_events r m) ≡ in_events r (set event a m)
  unfolding set
  set-in_events event a [] = refl
  set-in_events event a (e ∷ m) = elim (Bool-cases (e.0 == event)) [
    | inl same ↦ rw (distinct e.0 event, same) refl
    | inr other ↦
        rw (distinct e.0 event, other)
          (ap (λ t. (r.of_text e.0, e.1) ∷ t) (set-in_events event a m))
  ]

  -- The same placeholder, and the events under their replacements.
  abbrev pub Named : {A : Type 0} → A × JsMap Units Units → A × JsMap Units Units → Type 0
  Named x y = (x.0 ≡ y.0) × (y.1 ≡ in_events r x.1)

  placeholder_from-Named :
      (found : Option Units) (event : Units) (events : JsMap Units Units)
      → AlikeBy {N = N} Named
          (placeholder_from found event events)
          (placeholder_from found (r.of_text event) (in_events r events))
  placeholder_from-Named (some a) event events = λ p q h. ((refl, refl), h)
  placeholder_from-Named none event events =
      bind-AlikeBy (λ a b. a ≡ b) Named _ _ _ _
        (add-Alike (text event) (text (r.of_text event)) string_type)
        (λ a b same p q h. ((same, rw same (set-in_events event b events)), h))

  pub event_placeholder-Named :
      (event : Units) (events : JsMap Units Units)
      → AlikeBy {N = N} Named
          (event_placeholder event events)
          (event_placeholder (r.of_text event) (in_events r events))
  unfolding event_placeholder
  event_placeholder-Named event events =
      rw (get-in_events event events) (placeholder_from-Named (get event events) event events)
