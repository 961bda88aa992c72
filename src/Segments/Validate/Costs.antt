-- ===== src/Segments/Validate/Costs.antt =====
-- Which warnings packages/core/src/segments/validate.ts gives for a tree, and what they name.
use mathlib.Core.List.{append_assoc, append-nil}
use lyraflow.Prelude.Orders.{Units}
use lyraflow.Prelude.Decimal.{decimal, units_eq}
use lyraflow.Prelude.Texts.{codes}
use lyraflow.Segments.Syntax.{
  Behavior, Window, FilterNode, FilterNodes, SegmentQuery, group, negation, trait, context,
  lifecycle, behavior, nil, cons, last, absolute, ever,
}
use lyraflow.Segments.Validate.{
  Visited, CostWarning, is_ever, walk, walk_children, ever_warning, any_event_warning, warn,
  node_warnings, cost_warnings,
}
use lyraflow.Prelude.{
  ℕ, ◌+◌, ◌≡◌, refl, sym, ap, ◌∙◌, List, [], ◌∷◌, ◌++◌, map, if◌then◌else◌, ◌==◌, nat_eq, string_eq,
}

-- The way from a node to one below it.
pub data Step : Type 0 where
  to_child : Step
  to_children : ℕ → Step

abbrev pub step_text : Step → Units
step_text to_child = codes ".child"
step_text (to_children i) = codes ".children[" ++ decimal i ++ codes "]"

unfoldable pub way_text : List Step → Units
way_text [] = []
way_text (s ∷ way) = step_text s ++ way_text way

abbrev pub costs_of_window : Units → Units → Window → List CostWarning
costs_of_window path event (last w) = []
costs_of_window path event (absolute from to) = []
costs_of_window path event ever =
    record {
      path = path;
      reason =
          codes "the `"
          ++ event
          ++ codes
              "` condition uses an `ever` window, which scans all history rather than a bounded window";
    }
    ∷ []

abbrev pub costs_of_event : Units → Units → List CostWarning
costs_of_event path event =
    if event == codes "*"
    then record {
      path = path;
      reason = codes "this condition matches every event, so it cannot use the event-name index";
    }
      ∷ []
    else []

way_append :
    (path : Units) (i : ℕ)
    → path ++ step_text (to_children i) ≡ path ++ codes ".children[" ++ decimal i ++ codes "]"
way_append path i =
    sym (append_assoc path (codes ".children[" ++ decimal i) (codes "]"))
    ∙ ap (λ t. t ++ codes "]") (sym (append_assoc path (codes ".children[") (decimal i)))

module _ {N : Type 0} where
  -- A behaviour and the way to it.
  abbrev pub under : Step → List Step × Behavior N → List Step × Behavior N
  under s found = (s ∷ found.0, found.1)

  -- Every behaviour of a tree, from left to right.
  unfoldable mutual
    pub behaviors_at : FilterNode N → List (List Step × Behavior N)
    behaviors_at (group op children) = behaviors_among children 0
    behaviors_at (negation child) = map (under to_child) (behaviors_at child)
    behaviors_at (behavior b) = ([], b) ∷ []
    behaviors_at _ = []

    pub behaviors_among : FilterNodes N → ℕ → List (List Step × Behavior N)
    behaviors_among nil i = []
    behaviors_among (cons child children) i =
        map (under (to_children i)) (behaviors_at child) ++ behaviors_among children (i + 1)

  -- What is said of one behaviour: first its window, then its event.
  abbrev pub costs_of : Units → List Step × Behavior N → List CostWarning
  costs_of path found =
      costs_of_window (path ++ way_text found.0) found.1.event found.1.window
      ++ costs_of_event (path ++ way_text found.0) found.1.event

  abbrev pub costs_of_all : Units → List (List Step × Behavior N) → List CostWarning
  costs_of_all path [] = []
  costs_of_all path (found ∷ rest) = costs_of path found ++ costs_of_all path rest

  node_warnings-behavior :
      (path : Units) (b : Behavior N) → node_warnings path (behavior b) ≡ costs_of path ([], b)
  unfolding node_warnings ever_warning any_event_warning way_text
  node_warnings-behavior path b = rw (append-nil path) (by_window b.window)
    where
      by_window :
          (w : Window)
          → (if is_ever w then ever_warning path b ∷ [] else [])
              ++ (if b.event == codes "*" then any_event_warning path ∷ [] else [])
            ≡ costs_of_window path b.event w ++ costs_of_event path b.event
      by_window (last w) = refl
      by_window (absolute from to) = refl
      by_window ever = refl

  costs_of_all-append :
      (path : Units) (xs ys : List (List Step × Behavior N))
      → costs_of_all path (xs ++ ys) ≡ costs_of_all path xs ++ costs_of_all path ys
  costs_of_all-append path [] ys = refl
  costs_of_all-append path (x ∷ xs) ys =
      rw (costs_of_all-append path xs ys)
        (sym (append_assoc (costs_of path x) (costs_of_all path xs) (costs_of_all path ys)))

  costs_of_all-under :
      (path : Units) (s : Step) (xs : List (List Step × Behavior N))
      → costs_of_all path (map (under s) xs) ≡ costs_of_all (path ++ step_text s) xs
  unfolding way_text
  costs_of_all-under path s [] = refl
  costs_of_all-under path s (x ∷ xs) =
      rw (append_assoc path (step_text s) (way_text x.0), costs_of_all-under path s xs) refl

  warn-append : (xs ys : List (Visited N)) → warn (xs ++ ys) ≡ warn xs ++ warn ys
  unfolding warn
  warn-append [] ys = refl
  warn-append (v ∷ xs) ys =
      rw (warn-append xs ys) (sym (append_assoc (node_warnings v.path v.node) (warn xs) (warn ys)))

  mutual
    unfolding walk behaviors_at warn node_warnings

    warn-walk :
        (t : FilterNode N) (path : Units) (d : ℕ)
        → warn (walk t path d) ≡ costs_of_all path (behaviors_at t)
    warn-walk (group op cs) path d = warn-walk_children cs path 0 (d + 1)
    warn-walk (negation t) path d =
        warn-walk t (path ++ codes ".child") (d + 1)
        ∙ sym (costs_of_all-under path to_child (behaviors_at t))
    warn-walk (trait t) path d = refl
    warn-walk (context t) path d = refl
    warn-walk (lifecycle t) path d = refl
    warn-walk (behavior b) path d = ap (λ ws. ws ++ []) (node_warnings-behavior path b)

    warn-walk_children :
        (cs : FilterNodes N) (path : Units) (i d : ℕ)
        → warn (walk_children cs path i d) ≡ costs_of_all path (behaviors_among cs i)
    warn-walk_children nil path i d = refl
    warn-walk_children (cons c cs) path i d =
        let inner : Units = path ++ codes ".children[" ++ decimal i ++ codes "]" in
        rw
          (
            warn-append (walk c inner d) (walk_children cs path (i + 1) d),
            warn-walk c inner d,
            warn-walk_children cs path (i + 1) d,
            costs_of_all-append path (map (under (to_children i)) (behaviors_at c))
                (behaviors_among cs (i + 1)),
          )
          (ap (λ ws. ws ++ costs_of_all path (behaviors_among cs (i + 1)))
            (ap (λ p. costs_of_all p (behaviors_at c)) (sym (way_append path i))
              ∙ sym (costs_of_all-under path (to_children i) (behaviors_at c))))

  -- The warnings of a tree are, for its behaviours from left to right, the one about an `ever` window
  -- where the behaviour has one and then the one about every event where its event is `*`, each with
  -- the path of children from the root to that behaviour.
  pub cost_warnings_lem :
      (q : SegmentQuery N) → cost_warnings q ≡ costs_of_all (codes "filter") (behaviors_at q.filter)
  unfolding cost_warnings
  cost_warnings_lem q = warn-walk q.filter (codes "filter") 0
