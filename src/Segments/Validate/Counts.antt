-- ===== src/Segments/Validate/Counts.antt =====
-- What packages/core/src/segments/validate.ts counts, said by recursion on the tree instead of by its
-- walk: the nodes, the levels below the root and the behaviours.
use lyraflow.Prelude.Orders.{Units}
use lyraflow.Prelude.Decimal.{decimal}
use lyraflow.Prelude.Texts.{codes}
use lyraflow.Segments.Syntax.{
  FilterNode, FilterNodes, group, negation, trait, context, lifecycle, behavior, nil, cons,
}
use lyraflow.Segments.Validate.{Visited, is_behavior, walk, walk_children}
use lyraflow.Prelude.{
  ℕ, suc, ◌+◌, max, ◌≡◌, refl, ap, ◌∙◌, List, [], ◌∷◌, ◌++◌, arith, if◌then◌else◌, length,
  length-append, nat_eq, string_eq,
}

module _ {N : Type 0} where
  unfoldable mutual
    pub nodes_in : FilterNode N → ℕ
    nodes_in (group op children) = suc (nodes_in_all children)
    nodes_in (negation child) = suc (nodes_in child)
    nodes_in _ = 1

    pub nodes_in_all : FilterNodes N → ℕ
    nodes_in_all nil = 0
    nodes_in_all (cons child children) = nodes_in child + nodes_in_all children

  -- The levels below a node, and below the node that holds the children.
  unfoldable mutual
    pub levels_below : FilterNode N → ℕ
    levels_below (group op children) = levels_of children
    levels_below (negation child) = suc (levels_below child)
    levels_below _ = 0

    pub levels_of : FilterNodes N → ℕ
    levels_of nil = 0
    levels_of (cons child children) = max (suc (levels_below child)) (levels_of children)

  unfoldable mutual
    pub behaviors_in : FilterNode N → ℕ
    behaviors_in (group op children) = behaviors_in_all children
    behaviors_in (negation child) = behaviors_in child
    behaviors_in (behavior b) = 1
    behaviors_in _ = 0

    pub behaviors_in_all : FilterNodes N → ℕ
    behaviors_in_all nil = 0
    behaviors_in_all (cons child children) = behaviors_in child + behaviors_in_all children

  abbrev pub behaviors_of : List (Visited N) → ℕ
  behaviors_of [] = 0
  behaviors_of (v ∷ vs) = (if is_behavior v.node then 1 else 0) + behaviors_of vs

  abbrev pub deepest : List (Visited N) → ℕ
  deepest [] = 0
  deepest (v ∷ vs) = max v.depth (deepest vs)

  pub behaviors_of-append :
      (xs ys : List (Visited N)) → behaviors_of (xs ++ ys) ≡ behaviors_of xs + behaviors_of ys
  behaviors_of-append [] ys = omega arith
  behaviors_of-append (x ∷ xs) ys = omega (arith, behaviors_of-append xs ys)

  pub deepest-append :
      (xs ys : List (Visited N)) → deepest (xs ++ ys) ≡ max (deepest xs) (deepest ys)
  deepest-append [] ys = omega arith
  deepest-append (x ∷ xs) ys = omega (arith, deepest-append xs ys)

  mutual
    unfolding walk nodes_in

    pub length-walk :
        (t : FilterNode N) (path : Units) (d : ℕ) → length (walk t path d) ≡ nodes_in t
    length-walk (group op cs) path d = ap suc (length-walk_children cs path 0 (d + 1))
    length-walk (negation t) path d = ap suc (length-walk t (path ++ codes ".child") (d + 1))
    length-walk (trait t) path d = omega arith
    length-walk (context t) path d = omega arith
    length-walk (lifecycle t) path d = omega arith
    length-walk (behavior t) path d = omega arith

    length-walk_children :
        (cs : FilterNodes N) (path : Units) (i d : ℕ)
        → length (walk_children cs path i d) ≡ nodes_in_all cs
    length-walk_children nil path i d = refl
    length-walk_children (cons c cs) path i d =
        let inner : Units = path ++ codes ".children[" ++ decimal i ++ codes "]" in
        length-append (walk c inner d) (walk_children cs path (i + 1) d)
        ∙ omega (arith, length-walk c inner d, length-walk_children cs path (i + 1) d)

  mutual
    unfolding walk levels_below

    -- The deepest node of a walk from depth `d`.
    pub deepest-walk :
        (t : FilterNode N) (path : Units) (d : ℕ) → deepest (walk t path d) ≡ d + levels_below t
    deepest-walk (group op cs) path d = omega (arith, deepest-walk_children cs path 0 d)
    deepest-walk (negation t) path d =
        omega (arith, deepest-walk t (path ++ codes ".child") (d + 1))
    deepest-walk (trait t) path d = omega arith
    deepest-walk (context t) path d = omega arith
    deepest-walk (lifecycle t) path d = omega arith
    deepest-walk (behavior t) path d = omega arith

    deepest-walk_children :
        (cs : FilterNodes N) (path : Units) (i d : ℕ)
        → max d (deepest (walk_children cs path i (d + 1))) ≡ d + levels_of cs
    deepest-walk_children nil path i d = omega arith
    deepest-walk_children (cons c cs) path i d =
        let inner : Units = path ++ codes ".children[" ++ decimal i ++ codes "]" in
        omega (
          arith,
          deepest-append (walk c inner (d + 1)) (walk_children cs path (i + 1) (d + 1)),
          deepest-walk c inner (d + 1),
          deepest-walk_children cs path (i + 1) d,
        )

  mutual
    unfolding walk behaviors_in

    pub behaviors_of-walk :
        (t : FilterNode N) (path : Units) (d : ℕ) → behaviors_of (walk t path d) ≡ behaviors_in t
    behaviors_of-walk (group op cs) path d =
        omega (arith, behaviors_of-walk_children cs path 0 (d + 1))
    behaviors_of-walk (negation t) path d =
        omega (arith, behaviors_of-walk t (path ++ codes ".child") (d + 1))
    behaviors_of-walk (trait t) path d = omega arith
    behaviors_of-walk (context t) path d = omega arith
    behaviors_of-walk (lifecycle t) path d = omega arith
    behaviors_of-walk (behavior t) path d = omega arith

    behaviors_of-walk_children :
        (cs : FilterNodes N) (path : Units) (i d : ℕ)
        → behaviors_of (walk_children cs path i d) ≡ behaviors_in_all cs
    behaviors_of-walk_children nil path i d = refl
    behaviors_of-walk_children (cons c cs) path i d =
        let inner : Units = path ++ codes ".children[" ++ decimal i ++ codes "]" in
        behaviors_of-append (walk c inner d) (walk_children cs path (i + 1) d)
        ∙ omega (arith, behaviors_of-walk c inner d, behaviors_of-walk_children cs path (i + 1) d)
