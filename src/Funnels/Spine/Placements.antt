-- ===== src/Funnels/Spine/Placements.antt =====
-- packages/core/src/funnels/spine.ts: the rank of each step, and the level of each branch.
use lyraflow.Prelude.{
  ℕ, ◌+◌, ◌≡◌, refl, sym, ap, ◌∙◌, inl, inr, Bool, true, false, not, none, some, List, [], ◌∷◌,
  ◌++◌, arith, if◌then◌else◌, Bool-cases, length, get_elem?, length-append, nat_eq, string_eq,
}
use mathlib.Core.List.{append-nil, append_assoc}
use lyraflow.Funnels.Spine.{FunnelStep, StepPlacement, FunnelSpine, place, place_all, funnel_spine}

-- How many of the steps are required, and how many are optional.
unfoldable pub count_required : List FunnelStep → ℕ
count_required [] = 0
count_required (step ∷ steps) = (if step.is_optional then 0 else 1) + count_required steps

unfoldable pub count_optional : List FunnelStep → ℕ
count_optional [] = 0
count_optional (step ∷ steps) = (if step.is_optional then 1 else 0) + count_optional steps

-- Counts one more, if the test holds.
abbrev pub up : Bool → ℕ → ℕ
up true n = n + 1
up false n = n

-- The placement of a step at a position, after `r` required and `o` optional ones.
abbrev pub placed : ℕ → ℕ → ℕ → FunnelStep → StepPlacement
placed position r o step = record {
  position = position;
  is_optional = step.is_optional;
  spine_rank = if step.is_optional then r else r + 1;
  branch = if step.is_optional then some (record { index = o; level = r + 1 }) else none;
}

pub get_elem?-append :
    {A : Type 0} (xs : List A) (x : A) (ys : List A) → get_elem? (xs ++ x ∷ ys) (length xs) ≡ some x
get_elem?-append [] x ys = refl
get_elem?-append (z ∷ xs) x ys = get_elem?-append xs x ys

length-snoc : {A : Type 0} (xs : List A) (x : A) → length (xs ++ x ∷ []) ≡ length xs + 1
length-snoc xs x = omega (arith, length-append xs (x ∷ []))

-- What the loop adds is the placements of the steps, one after the other.
placements_of : ℕ → ℕ → ℕ → List FunnelStep → List StepPlacement
placements_of position r o [] = []
placements_of position r o (step ∷ steps) =
    placed position r o step
    ∷ placements_of (position + 1) (up (not step.is_optional) r) (up step.is_optional o) steps

place-one :
    (position : ℕ) (step : FunnelStep) (s : FunnelSpine)
    → ((place position step s).placements
        ≡ s.placements ++ placed position (length s.required) (length s.optional) step ∷ [])
      × ((length (place position step s).required ≡ up (not step.is_optional) (length s.required))
          × (length (place position step s).optional ≡ up step.is_optional (length s.optional)))
place-one position step s = elim (Bool-cases step.is_optional) [
  | inl opt ↦ rw opt (refl, (refl, length-snoc s.optional position))
  | inr req ↦ rw (req, length-snoc s.required position) (refl, (refl, refl))
]

place_all-placements :
    (position : ℕ) (steps : List FunnelStep) (s : FunnelSpine)
    → (place_all position steps s).placements
      ≡ s.placements ++ placements_of position (length s.required) (length s.optional) steps
unfolding place_all placements_of
place_all-placements position [] s = sym (append-nil s.placements)
place_all-placements position (step ∷ steps) s =
    let (one, (r, o)) = place-one position step s in
    place_all-placements (position + 1) steps (place position step s)
    ∙ rw (one, r, o)
        (append_assoc s.placements
          (placed position (length s.required) (length s.optional) step ∷ []) _)

pub count_required-append :
    (xs ys : List FunnelStep) → count_required (xs ++ ys) ≡ count_required xs + count_required ys
unfolding count_required
count_required-append [] ys = omega arith
count_required-append (x ∷ xs) ys = omega (arith, count_required-append xs ys)

placed_same :
    {p q r s o n : ℕ} (step : FunnelStep)
    → p ≡ q
    → r ≡ s
    → o ≡ n
    → some (placed p r o step) ≡ some (placed q s n step)
placed_same step hp hr ho = rw (hp, hr, ho) refl

up-not : (b : Bool) (r n : ℕ) → up (not b) r + n ≡ r + ((if b then 0 else 1) + n)
up-not true r n = omega arith
up-not false r n = omega arith

up_plus : (b : Bool) (r n : ℕ) → up b r + n ≡ r + ((if b then 1 else 0) + n)
up_plus true r n = omega arith
up_plus false r n = omega arith

get_elem?-placements_of :
    (position r o : ℕ) (before : List FunnelStep) (step : FunnelStep) (after : List FunnelStep)
    → get_elem? (placements_of position r o (before ++ step ∷ after)) (length before)
      ≡ some (
          placed
            (position + length before)
            (r + count_required before)
            (o + count_optional before)
            step)
unfolding placements_of count_required count_optional
get_elem?-placements_of position r o [] step after =
    placed_same step (omega arith) (omega arith) (omega arith)
get_elem?-placements_of position r o (x ∷ before) step after =
    get_elem?-placements_of (position + 1) (up (not x.is_optional) r) (up x.is_optional o) before
      step after
    ∙ placed_same step (omega arith) (up-not x.is_optional r (count_required before))
        (up_plus x.is_optional o (count_optional before))

-- Each step is placed at its own position, by the number of required steps before it and, if it is
-- optional, on the branch numbered by the optional steps before it, with the level one above.
pub get_elem?-placements :
    (before : List FunnelStep) (step : FunnelStep) (after : List FunnelStep)
    → get_elem? (funnel_spine (before ++ step ∷ after)).placements (length before)
      ≡ some (placed (length before) (count_required before) (count_optional before) step)
unfolding funnel_spine
get_elem?-placements before step after =
    ap (λ ps. get_elem? ps (length before))
      (place_all-placements 0 (before ++ step ∷ after)
        (record { required = []; optional = []; placements = [] }))
    ∙ get_elem?-placements_of 0 0 0 before step after
    ∙ placed_same step (omega arith) (omega arith) (omega arith)

place_all-lengths :
    (position : ℕ) (steps : List FunnelStep) (s : FunnelSpine)
    → (length (place_all position steps s).required ≡ length s.required + count_required steps)
      × (length (place_all position steps s).optional ≡ length s.optional + count_optional steps)
unfolding place_all count_required count_optional
place_all-lengths position [] s = (omega arith, omega arith)
place_all-lengths position (step ∷ steps) s =
    let (one, (r, o)) = place-one position step s in
    let (rs, os) = place_all-lengths (position + 1) steps (place position step s) in
    (
      rs
          ∙ ap (λ n. n + count_required steps) r
          ∙ up-not step.is_optional (length s.required) (count_required steps),
      os
          ∙ ap (λ n. n + count_optional steps) o
          ∙ up_plus step.is_optional (length s.optional) (count_optional steps),
    )

pub length-required :
    (steps : List FunnelStep) → length (funnel_spine steps).required ≡ count_required steps
unfolding funnel_spine
length-required steps = omega (
  arith,
  (place_all-lengths 0 steps (record { required = []; optional = []; placements = [] })).0,
)

pub length-optional :
    (steps : List FunnelStep) → length (funnel_spine steps).optional ≡ count_optional steps
unfolding funnel_spine
length-optional steps = omega (
  arith,
  (place_all-lengths 0 steps (record { required = []; optional = []; placements = [] })).1,
)
