-- ===== src/Funnels/Spine.antt =====
-- packages/core/src/funnels/spine.ts: `funnelSpine`, which splits the steps of a funnel into the required
-- chain and the optional branches. Of a step it reads `optional` only; `where` and `audience` are left
-- out.
pub mod Placements
use lyraflow.Prelude.{
  ℕ, ◌+◌, String, Bool, true, false, Option, none, some, List, [], ◌∷◌, ◌++◌, if◌then◌else◌, length,
}

pub record FunnelStep : Type 0 where
  pub event : String
  pub is_optional : Bool

pub record Branch : Type 0 where
  pub index : ℕ
  pub level : ℕ

pub record StepPlacement : Type 0 where
  pub position : ℕ
  pub is_optional : Bool
  pub spine_rank : ℕ
  pub branch : Option Branch

pub record FunnelSpine : Type 0 where
  pub required : List ℕ
  pub optional : List ℕ
  pub placements : List StepPlacement

-- The body of the loop.
abbrev pub place : ℕ → FunnelStep → FunnelSpine → FunnelSpine
place position step s =
    if step.is_optional
    then record {
      required = s.required;
      optional = s.optional ++ position ∷ [];
      placements =
          s.placements
          ++ record {
            position = position;
            is_optional = true;
            spine_rank = length s.required;
            branch = some (record { index = length s.optional; level = length s.required + 1 });
          }
            ∷ [];
    }
    else record {
      required = s.required ++ position ∷ [];
      optional = s.optional;
      placements =
          s.placements
          ++ record {
            position = position;
            is_optional = false;
            spine_rank = length (s.required ++ position ∷ []);
            branch = none;
          }
            ∷ [];
    }

unfoldable pub place_all : ℕ → List FunnelStep → FunnelSpine → FunnelSpine
place_all position [] s = s
place_all position (step ∷ steps) s = place_all (position + 1) steps (place position step s)

unfoldable pub funnel_spine : List FunnelStep → FunnelSpine
funnel_spine steps = place_all 0 steps (record { required = []; optional = []; placements = [] })
