-- ===== src/Segments/Validate/Caps.antt =====
-- The caps of packages/core/src/segments/validate.ts against the counts of the tree.
use lyraflow.Prelude.Texts.{codes}
use lyraflow.Segments.Syntax.{FilterNode, SegmentQuery}
use lyraflow.Segments.Validate.{
  Code, SegmentValidationError, Visited, too_deep, too_many_nodes, too_many_behaviors, failure,
  is_behavior, walk, check, validate_tree, tally_behaviors, count_behaviour_nodes,
}
use lyraflow.Segments.Validate.Counts.{
  nodes_in, levels_below, behaviors_in, behaviors_of, deepest, length-walk, deepest-walk,
  behaviors_of-walk,
}
use lyraflow.Prelude.{
  ℕ, zero, suc, ◌+◌, ◌≤◌, ◌<◌, max, ◌≡◌, refl, subst, ◌↔◌, inl, inr, ◌&&◌, Option, none, some, List,
  [], ◌∷◌, arith, ltb, leb, if◌then◌else◌, Bool-cases, Option-cases, length, take, nat_eq,
  string_eq,
}

-- Whether counts exceed the cap that a code names.
abbrev pub Exceeds : Code → ℕ → ℕ → ℕ → Type 0
Exceeds too_deep depth nodes behaviors = 10 ≤ depth
Exceeds too_many_nodes depth nodes behaviors = 100 < nodes
Exceeds too_many_behaviors depth nodes behaviors = 25 < behaviors

abbrev pub Outcome : Option SegmentValidationError → ℕ → ℕ → ℕ → Type 0
Outcome none depth nodes behaviors = (depth < 10) × ((nodes ≤ 100) × (behaviors ≤ 25))
Outcome (some e) depth nodes behaviors =
    (code : Code) × ((e ≡ failure code) × Exceeds code depth nodes behaviors)

-- A node above the cap on the depth adds nothing to what was found below it.
Outcome-max :
    (o : Option SegmentValidationError) (e d n m b c : ℕ)
    → e < 10
    → n ≡ m
    → b ≡ c
    → Outcome o d n b
    → Outcome o (max e d) m c
Outcome-max none e d n m b c h p q k = ground (arith, k)
Outcome-max (some x) e d n m b c h p q (too_deep, (same, k)) = (too_deep, (same, omega arith))
Outcome-max (some x) e d n m b c h p q (too_many_nodes, (same, k)) =
    (too_many_nodes, (same, omega arith))
Outcome-max (some x) e d n m b c h p q (too_many_behaviors, (same, k)) =
    (too_many_behaviors, (same, omega arith))

zero_add : (n : ℕ) → 0 + n ≡ n
zero_add n = omega arith

check_nil : (N : Type 0) (n b : ℕ) → check {N = N} [] n b ≡ none
unfolding check
check_nil N n b = refl

module _ {N : Type 0} where
  check_step :
      (v : Visited N) (vs : List (Visited N)) (n b : ℕ)
      → check (v ∷ vs) n b ≡ (
          if leb 10 v.depth
          then some (failure too_deep)
          else if ltb 100 (n + 1)
          then some (failure too_many_nodes)
          else if is_behavior v.node && ltb 25 (b + 1)
          then some (failure too_many_behaviors)
          else check vs (n + 1) (if is_behavior v.node then b + 1 else b))
  unfolding check
  check_step v vs n b = refl

  check-Outcome :
      (vs : List (Visited N)) (n b : ℕ)
      → n ≤ 100
      → b ≤ 25
      → Outcome (check vs n b) (deepest vs) (n + length vs) (b + behaviors_of vs)
  check-Outcome [] n b hn hb = rw (check_nil N n b) (omega arith, (omega arith, omega arith))
  check-Outcome (v ∷ vs) n b hn hb = elim (Bool-cases (leb 10 v.depth)) [
    | inl deep ↦ rw (check_step v vs n b, deep) (too_deep, (refl, ground arith))
    | inr shallow ↦ elim (Bool-cases (ltb 100 (n + 1))) [
      | inl many ↦ rw (check_step v vs n b, shallow, many) (too_many_nodes, (refl, ground arith))
      | inr few ↦ elim (Bool-cases (is_behavior v.node)) [
        | inl one ↦ elim (Bool-cases (ltb 25 (b + 1))) [
          | inl over ↦
              rw (check_step v vs n b, shallow, few, one, over)
                (too_many_behaviors, (refl, ground arith))
          | inr under ↦
              rw (check_step v vs n b, shallow, few, one, under)
                (Outcome-max (check vs (n + 1) (b + 1)) v.depth (deepest vs) (n + 1 + length vs)
                  (n + suc (length vs)) (b + 1 + behaviors_of vs) (b + (1 + behaviors_of vs))
                  (ground arith) (omega arith) (omega arith)
                  (check-Outcome vs (n + 1) (b + 1) (ground arith) (ground arith)))
        ]
        | inr none_ ↦
            rw (check_step v vs n b, shallow, few, none_)
              (Outcome-max (check vs (n + 1) b) v.depth (deepest vs) (n + 1 + length vs)
                (n + suc (length vs)) (b + behaviors_of vs) (b + (0 + behaviors_of vs))
                (ground arith) (omega arith) (omega arith)
                (check-Outcome vs (n + 1) b (ground arith) hb))
      ]
    ]
  ]

  validate_tree-Outcome :
      (q : SegmentQuery N)
      → Outcome
          (validate_tree q)
          (levels_below q.filter)
          (nodes_in q.filter)
          (behaviors_in q.filter)
  unfolding validate_tree
  validate_tree-Outcome q =
      simp
        (
          zero_add,
          deepest-walk q.filter (codes "filter") 0,
          length-walk q.filter (codes "filter") 0,
          behaviors_of-walk q.filter (codes "filter") 0,
        )
        at (check-Outcome (walk q.filter (codes "filter") 0) 0 0 (omega arith) (omega arith))

  check-take :
      (vs : List (Visited N)) (k n b : ℕ) → n + k ≡ 100 → check vs n b ≡ check (take (suc k) vs) n b
  check-take [] k n b h = refl
  check-take (v ∷ vs) zero n b h = rw (check_step v vs n b, check_step v [] n b) (ground arith)
  check-take (v ∷ vs) (suc k) n b h =
      rw (check_step v vs n b, check_step v (take (suc k) vs) n b)
        (ground (arith, check-take vs k (n + 1) b, check-take vs k (n + 1) (b + 1)))

  -- A tree is accepted exactly when its root has fewer than 10 levels below it, and it has at most
  -- 100 nodes and at most 25 behaviours.
  pub validate_tree_iff :
      (q : SegmentQuery N)
      → (validate_tree q ≡ none) ↔ (
          (levels_below q.filter < 10) × ((nodes_in q.filter ≤ 100) × (behaviors_in q.filter ≤ 25)))
  validate_tree_iff q = (
    λ ok.
        subst (λ o. Outcome o (levels_below q.filter) (nodes_in q.filter) (behaviors_in q.filter))
          ok (validate_tree-Outcome q),
    λ caps. elim (Option-cases (validate_tree q)) [
      | inl ok ↦ ok
      | inr (e, thrown) ↦
          elim (within caps (
            subst
              (λ o. Outcome o (levels_below q.filter) (nodes_in q.filter) (behaviors_in q.filter))
              thrown (validate_tree-Outcome q))) [ ]
    ],
  )
    where
      within :
          {e : SegmentValidationError} {d n b : ℕ}
          → (d < 10) × ((n ≤ 100) × (b ≤ 25))
          → Outcome (some e) d n b
          → ⊥
      within caps (too_deep, (same, over)) = omega arith
      within caps (too_many_nodes, (same, over)) = omega arith
      within caps (too_many_behaviors, (same, over)) = omega arith

  -- What is thrown names a cap that the tree exceeds: the depth, the nodes or the behaviours.
  pub validate_tree-Exceeds :
      (q : SegmentQuery N) (e : SegmentValidationError)
      → validate_tree q ≡ some e
      → (code : Code) × ((e ≡ failure code)
          × Exceeds code (levels_below q.filter) (nodes_in q.filter) (behaviors_in q.filter))
  validate_tree-Exceeds q e thrown =
      subst (λ o. Outcome o (levels_below q.filter) (nodes_in q.filter) (behaviors_in q.filter))
        thrown (validate_tree-Outcome q)

  -- Only the first 101 nodes of the walk decide, however large the tree is.
  pub validate_tree-take :
      (q : SegmentQuery N)
      → validate_tree q ≡ check (take 101 (walk q.filter (codes "filter") 0)) 0 0
  unfolding validate_tree
  validate_tree-take q = check-take (walk q.filter (codes "filter") 0) 100 0 0 (omega arith)

  tally_behaviors_lem : (vs : List (Visited N)) (n : ℕ) → tally_behaviors vs n ≡ n + behaviors_of vs
  unfolding tally_behaviors
  tally_behaviors_lem [] n = omega arith
  tally_behaviors_lem (v ∷ vs) n =
      ground (arith, tally_behaviors_lem vs n, tally_behaviors_lem vs (n + 1))

  -- The count that the funnel validator uses is the one that the tree's cap is about.
  pub count_behaviour_nodes_lem : (t : FilterNode N) → count_behaviour_nodes t ≡ behaviors_in t
  unfolding count_behaviour_nodes
  count_behaviour_nodes_lem t = omega (
    arith,
    tally_behaviors_lem (walk t (codes "filter") 0) 0,
    behaviors_of-walk t (codes "filter") 0,
  )
