-- ===== src/Identity/Ranges/Tests.antt =====
-- packages/core/src/identity/ranges.ts: concrete tilings.
use lyraflow.Prelude.{
  ℕ, ◌≡◌, refl, ◌↔◌, Bool, true, false, ◌&&◌, some, List, [], ◌∷◌, Memᴰ, arith, All, Eq, ◌==◌,
  All-mem, nat_eq, string_eq,
}
use lyraflow.Prelude.Orders.{Units, units_order, units_lt}
use lyraflow.JsMap.{get, set}
use lyraflow.Identity.Ranges.{
  negative_infinity, instant, positive_infinity, BindEvent, insert_entry, tiles, sort, note_event,
  by_bound_at, derive_tiling, push_tile, coalesce_loop, coalesce_contiguous,
}
use lyraflow.Identity.Ranges.Owner.{owner, cover_count}
use lyraflow.Identity.Ranges.Tiling.{Decides, derive_tiling_ext, derive_tiling-Decides}
use lyraflow.Identity.Ranges.Coalesce.{owner-coalesce-derive_tiling}

-- What a run computes with.
ranges : Unit {0}
unfolding get set units_lt insert_entry tiles sort note_event by_bound_at derive_tiling push_tile
    coalesce_loop coalesce_contiguous owner
ranges = tt

-- Persons `a` and `b`, as code units.
abbrev alice : Units
alice = 97 ∷ []

abbrev bob : Units
bob = 98 ∷ []

abbrev bind_at : Units → ℕ → BindEvent Units
bind_at p t = record { person_id = p; bound_at = t }

abbrev late : List (BindEvent Units)
late = bind_at bob 30 ∷ bind_at alice 10 ∷ bind_at alice 20 ∷ bind_at alice 30 ∷ bind_at bob 40 ∷ []

abbrev early : List (BindEvent Units)
early =
    bind_at bob 40
    ∷ bind_at alice 30
    ∷ bind_at bob 30
    ∷ bind_at alice 20
    ∷ bind_at alice 10
    ∷ bind_at alice 10
    ∷ []

units_eq : Eq Units
units_eq = record { equal = units_beq; equal_iff = units_beq_iff }
  where
    units_beq : Units → Units → Bool
    units_beq [] [] = true
    units_beq (a ∷ x) (b ∷ y) = (a == b) && units_beq x y
    units_beq _ _ = false

    units_beq_iff : (x y : Units) → (units_beq x y ≡ true) ↔ (x ≡ y)
    units_beq_iff [] [] = (λ h. refl, λ h. refl)
    units_beq_iff [] (b ∷ y) = (λ h. cc, λ h. cc)
    units_beq_iff (a ∷ x) [] = (λ h. cc, λ h. cc)
    units_beq_iff (a ∷ x) (b ∷ y) = ground (arith, units_beq_iff x y)

merged :
    coalesce_contiguous ⦃q = units_eq⦄ (derive_tiling late)
    ≡ record { person_id = alice; from = negative_infinity; to = instant 40 }
      ∷ record { person_id = bob; from = instant 40; to = positive_infinity }
      ∷ []
unfolding ranges units_eq
merged = refl

derive_tiling-Decides_example :
    (cover_count (derive_tiling late) 25 ≡ 1)
    × ((p : Units) × (owner (derive_tiling late) 25 ≡ some p) × Decides late 25 p)
derive_tiling-Decides_example = derive_tiling-Decides late 25 (λ h. cc)

within :
    {e : BindEvent Units} (xs ys : List (BindEvent Units))
    → All (λ x. Memᴰ x ys) xs
    → Memᴰ e xs
    → Memᴰ e ys
within xs ys h i = All-mem (λ x. Memᴰ x ys) xs h i

derive_tiling_ext_example : derive_tiling late ≡ derive_tiling early
derive_tiling_ext_example =
    derive_tiling_ext late early (λ e. within late early (search (Memᴰ.head, Memᴰ.tail)))
      (λ e. within early late (search (Memᴰ.head, Memᴰ.tail)))

owner-coalesce-derive_tiling_example :
    owner (coalesce_contiguous ⦃q = units_eq⦄ (derive_tiling late)) 25
    ≡ owner (derive_tiling late) 25
owner-coalesce-derive_tiling_example = owner-coalesce-derive_tiling ⦃q = units_eq⦄ late 25
