-- ===== src/Prelude/Orders.antt =====
-- A total order by a Boolean test, as an interface, and the order of texts by their code units.
use Prim.Native.Nat.{ℕ}
use mathlib.Core.Path.{◌≡◌, refl}
use mathlib.Core.Logic.{◌⊎◌, inl, inr}
use mathlib.Core.Bool.{Bool, true, false, ◌&&◌, ◌||◌}
use mathlib.Core.List.{List, [], ◌∷◌}
use native.Mathlib.Omega.{arith}
use lyraflow.Prelude.Tests.{ltb, nat_beq}

pub record Order {ℓ} (A : Type ℓ) : Type ℓ where
  pub lt : A → A → Bool
  pub lt_irrefl : (a : A) → lt a a ≡ false
  pub lt_trans : (a b c : A) → lt a b ≡ true → lt b c ≡ true → lt a c ≡ true
  pub lt_total : (a b : A) → (lt a b ≡ true) ⊎ ((a ≡ b) ⊎ (lt b a ≡ true))

-- A text as its UTF-16 code units, which is how `<` compares two strings.
abbrev pub Units : Type 0
Units = List ℕ

unfoldable pub units_lt : Units → Units → Bool
units_lt [] [] = false
units_lt [] (b ∷ bs) = true
units_lt (a ∷ as_) [] = false
units_lt (a ∷ as_) (b ∷ bs) = ltb a b || (nat_beq a b && units_lt as_ bs)

pub units_lt_irrefl : (a : Units) → units_lt a a ≡ false
unfolding units_lt
units_lt_irrefl [] = refl
units_lt_irrefl (a ∷ as_) = ground (arith, units_lt_irrefl as_)

pub units_lt_trans :
    (a b c : Units) → units_lt a b ≡ true → units_lt b c ≡ true → units_lt a c ≡ true
unfolding units_lt
units_lt_trans [] [] c h k = ground arith
units_lt_trans [] (b ∷ bs) [] h k = ground arith
units_lt_trans [] (b ∷ bs) (c ∷ cs) h k = refl
units_lt_trans (a ∷ as_) [] c h k = ground arith
units_lt_trans (a ∷ as_) (b ∷ bs) [] h k = ground arith
units_lt_trans (a ∷ as_) (b ∷ bs) (c ∷ cs) h k = ground (arith, units_lt_trans as_ bs cs)

pub units_lt_total : (a b : Units) → (units_lt a b ≡ true) ⊎ ((a ≡ b) ⊎ (units_lt b a ≡ true))
unfolding units_lt
units_lt_total [] [] = inr (inl refl)
units_lt_total [] (b ∷ bs) = inl refl
units_lt_total (a ∷ as_) [] = inr (inr refl)
units_lt_total (a ∷ as_) (b ∷ bs) = ground (arith, units_lt_total as_ bs)

instance abbrev pub units_order : Order Units
units_order = record {
  lt = units_lt;
  lt_irrefl = units_lt_irrefl;
  lt_trans = units_lt_trans;
  lt_total = units_lt_total;
}
