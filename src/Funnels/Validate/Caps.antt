-- ===== src/Funnels/Validate/Caps.antt =====
-- The caps of packages/core/src/funnels/validate.ts against the counts of the funnel.
use lyraflow.Segments.Syntax.{FilterNode}
use lyraflow.Segments.Validate.{SegmentValidationError, validate_tree, count_behaviour_nodes}
use lyraflow.Segments.Validate.Counts.{nodes_in, levels_below, behaviors_in}
use lyraflow.Segments.Validate.Caps.{validate_tree_iff, count_behaviour_nodes_lem}
use lyraflow.Funnels.Syntax.{FunnelStep, FunnelDefinition}
use lyraflow.Funnels.Validate.{
  Counted, counted, refused, total_check, is_optional_at, query_of, optional_step, count_audiences,
  optional_count, validate_funnel,
}
use lyraflow.Prelude.{
  ℕ, suc, ◌+◌, ◌-◌, ◌≤◌, ◌<◌, ◌≡◌, sym, ◌∙◌, subst, ◌↔◌, inl, inr, false, not, Option, none, some,
  List, [], ◌∷◌, arith, Option-cases, length, get_elem?, filter, All, nat_eq, string_eq,
}

zero_add : (n : ℕ) → 0 + n ≡ n
zero_add n = omega arith

-- The loop over the steps ends with the total, exactly when every audience is within the caps.
abbrev Loop : Counted → Type 0 → ℕ → Type 0
Loop (counted m) P n = P × (m ≡ n)
Loop (refused e) P n = P → ⊥

Loop-shift : (P Q : Type 0) (c : Counted) (n m : ℕ) → P → n ≡ m → Loop c Q n → Loop c (P × Q) m
Loop-shift P Q (counted k) n m p e (q, h) = ((p, q), h ∙ e)
Loop-shift P Q (refused x) n m p e h = λ both. h both.1

total_check-Loop :
    (c : Counted) (P : Type 0) (n : ℕ) → Loop c P n → (total_check c ≡ none) ↔ (P × (n ≤ 25))
total_check-Loop (counted m) P n (p, e) = (λ h. (p, ground arith), λ h. ground (arith, h.1))
total_check-Loop (refused e) P n h = (λ k. cc, λ k. elim (h k.0) [ ])

module _ {N : Type 0} where
  -- What the validator of segments admits, and nothing for a step without an audience.
  abbrev pub WithinCaps : Option (FilterNode N) → Type 0
  WithinCaps none = Unit
  WithinCaps (some t) = (levels_below t < 10) × ((nodes_in t ≤ 100) × (behaviors_in t ≤ 25))

  abbrev pub behaviors_at : Option (FilterNode N) → ℕ
  behaviors_at none = 0
  behaviors_at (some t) = behaviors_in t

  unfoldable pub behaviors_of_all : List (FunnelStep N) → ℕ
  behaviors_of_all [] = 0
  behaviors_of_all (s ∷ steps) = behaviors_at s.audience + behaviors_of_all steps

  optional_step-Loop :
      (i : ℕ) (a : Option (FilterNode N)) (b total : ℕ) (rest : ℕ → Counted) (Q : Type 0)
      → ((c : ℕ) → Loop (rest c) Q (c + total))
      → Loop (optional_step i a b rest) (WithinCaps a × Q) (b + (behaviors_at a + total))
  optional_step-Loop i none b total rest Q h = Loop-shift Unit Q (rest b) _ _ tt (omega arith) (h b)
  optional_step-Loop i (some t) b total rest Q h =
      elim (Option-cases (validate_tree (query_of t))) [
        | inl ok ↦ rw ok (
            Loop-shift (WithinCaps (some t)) Q (rest (b + count_behaviour_nodes t)) _ _
              ((validate_tree_iff (query_of t)).0 ok) (omega (arith, count_behaviour_nodes_lem t))
              (h (b + count_behaviour_nodes t)))
        | inr (e, thrown) ↦
            rw thrown (λ both. not_both (sym ((validate_tree_iff (query_of t)).1 both.0) ∙ thrown))
      ]
    where
      not_both : {e : SegmentValidationError} → none ≡ some e → ⊥
      not_both h = cc

  count_audiences-Loop :
      (steps : List (FunnelStep N)) (i b : ℕ)
      → Loop
          (count_audiences steps i b)
          (All (λ s. WithinCaps s.audience) steps)
          (b + behaviors_of_all steps)
  unfolding count_audiences behaviors_of_all
  count_audiences-Loop [] i b = (tt, omega arith)
  count_audiences-Loop (s ∷ steps) i b =
      optional_step-Loop i s.audience b (behaviors_of_all steps) _ _
        (count_audiences-Loop steps (i + 1))

  -- What the validator asks of a funnel, apart from the behaviours of its audiences.
  abbrev pub HasShape : FunnelDefinition N → Type 0
  HasShape def =
      (length def.steps ≤ 8)
      × ((def.window_seconds ≤ 2592000)
          × ((is_optional_at (get_elem? def.steps 0) ≡ false)
              × ((is_optional_at (get_elem? def.steps (length def.steps - 1)) ≡ false)
                  × (optional_count def.steps ≤ 2))))

  validate_funnel-HasShape :
      (def : FunnelDefinition N)
      → (validate_funnel def ≡ none)
        ↔ (HasShape def × (total_check (count_audiences def.steps 0 0) ≡ none))
  unfolding validate_funnel
  validate_funnel-HasShape def = ground arith

  -- A funnel is accepted exactly when it has at most 8 steps, a window of at most 30 days, no
  -- optional first or last step, at most 2 optional steps, audiences that the segment validator's
  -- caps admit, and at most 25 behaviours in them together.
  pub validate_funnel_iff :
      (def : FunnelDefinition N)
      → (validate_funnel def ≡ none) ↔ (
          HasShape def
          × (All (λ s. WithinCaps s.audience) def.steps × (behaviors_of_all def.steps ≤ 25)))
  validate_funnel_iff def =
      let shape = validate_funnel-HasShape def in
      let loop =
        total_check-Loop (count_audiences def.steps 0 0)
          (All (λ s. WithinCaps s.audience) def.steps) (behaviors_of_all def.steps)
          (subst
            (λ n.
              Loop (count_audiences def.steps 0 0) (All (λ s. WithinCaps s.audience) def.steps) n)
            (zero_add (behaviors_of_all def.steps)) (count_audiences-Loop def.steps 0 0)) in
      (λ ok. ((shape.0 ok).0, loop.0 (shape.0 ok).1), λ caps. shape.1 (caps.0, loop.1 caps.1))

  unfoldable pub required_count : List (FunnelStep N) → ℕ
  required_count steps = length (filter (λ s. not s.optional) steps)

  last-required_count :
      (s : FunnelStep N) (rest : List (FunnelStep N))
      → is_optional_at (get_elem? (s ∷ rest) (length rest)) ≡ false
      → 1 ≤ required_count (s ∷ rest)
  unfolding required_count
  last-required_count s [] h = ground (arith, h)
  last-required_count s (t ∷ rest) h = ground (arith, last-required_count t rest h)

  two_required :
      (steps : List (FunnelStep N))
      → 2 ≤ length steps
      → is_optional_at (get_elem? steps 0) ≡ false
      → is_optional_at (get_elem? steps (length steps - 1)) ≡ false
      → 2 ≤ required_count steps
  unfolding required_count
  two_required [] h first last = omega arith
  two_required (s ∷ []) h first last = omega arith
  two_required (s ∷ t ∷ rest) h first last =
      let index : suc (suc (length rest)) - 1 ≡ suc (length rest) = omega arith in
      let later : 1 ≤ required_count (t ∷ rest) =
        last-required_count t rest
          (subst (λ i. is_optional_at (get_elem? (s ∷ t ∷ rest) i) ≡ false) index last) in
      rw first (omega (arith, later))

  -- A funnel of two steps or more that is accepted has at least two required steps, though no check
  -- counts them.
  pub validate_funnel-required_count :
      (def : FunnelDefinition N)
      → validate_funnel def ≡ none
      → 2 ≤ length def.steps
      → 2 ≤ required_count def.steps
  validate_funnel-required_count def ok long =
      two_required def.steps long ((validate_funnel-HasShape def).0 ok).0.1.1.0
        ((validate_funnel-HasShape def).0 ok).0.1.1.1.0
