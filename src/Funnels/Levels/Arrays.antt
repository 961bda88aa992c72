-- ===== src/Funnels/Levels/Arrays.antt =====
-- packages/core/src/funnels/levels.ts: reads after writes of the arrays that `summarise` fills.
use lyraflow.Prelude.{
  ℕ, zero, suc, ◌+◌, ◌<◌, ◌≡◌, refl, List, [], ◌∷◌, arith, if◌then◌else◌, length, get_or, ◌==◌,
  nat_eq, string_eq,
}
use lyraflow.Funnels.Levels.{zeros, add_at, set_at, add_each}

pub get_or-zeros : (n k : ℕ) → get_or (zeros n) k 0 ≡ 0
unfolding zeros
get_or-zeros zero k = refl
get_or-zeros (suc n) zero = refl
get_or-zeros (suc n) (suc k) = get_or-zeros n k

pub length-zeros : (n : ℕ) → length (zeros n) ≡ n
unfolding zeros
length-zeros zero = refl
length-zeros (suc n) = omega (arith, length-zeros n)

pub length-add_at : (i v : ℕ) (xs : List ℕ) → length (add_at i v xs) ≡ length xs
unfolding add_at
length-add_at i v [] = refl
length-add_at zero v (x ∷ xs) = refl
length-add_at (suc i) v (x ∷ xs) = omega (arith, length-add_at i v xs)

pub length-set_at : (i v : ℕ) (xs : List ℕ) → length (set_at i v xs) ≡ length xs
unfolding set_at
length-set_at i v [] = refl
length-set_at zero v (x ∷ xs) = refl
length-set_at (suc i) v (x ∷ xs) = omega (arith, length-set_at i v xs)

pub get_or-add_at :
    (i v k : ℕ) (xs : List ℕ)
    → i < length xs
    → get_or (add_at i v xs) k 0 ≡ get_or xs k 0 + (if i == k then v else 0)
unfolding add_at
get_or-add_at i v k [] lt = omega arith
get_or-add_at zero v zero (x ∷ xs) lt = ground arith
get_or-add_at zero v (suc k) (x ∷ xs) lt = ground arith
get_or-add_at (suc i) v zero (x ∷ xs) lt = ground arith
get_or-add_at (suc i) v (suc k) (x ∷ xs) lt = ground (arith, get_or-add_at i v k xs)

pub get_or-set_at :
    (i v k : ℕ) (xs : List ℕ)
    → i < length xs
    → get_or (set_at i v xs) k 0 ≡ (if i == k then v else get_or xs k 0)
unfolding set_at
get_or-set_at i v k [] lt = omega arith
get_or-set_at zero v zero (x ∷ xs) lt = ground arith
get_or-set_at zero v (suc k) (x ∷ xs) lt = ground arith
get_or-set_at (suc i) v zero (x ∷ xs) lt = ground arith
get_or-set_at (suc i) v (suc k) (x ∷ xs) lt = ground (arith, get_or-set_at i v k xs)

pub get_or-add_each :
    (j : ℕ) (ts counts : List ℕ)
    → j < length ts
    → get_or (add_each ts counts) j 0 ≡ get_or ts j 0 + get_or counts j 0
unfolding add_each
get_or-add_each j [] counts lt = ground arith
get_or-add_each j (t ∷ ts) [] lt = omega arith
get_or-add_each zero (t ∷ ts) (c ∷ counts) lt = refl
get_or-add_each (suc j) (t ∷ ts) (c ∷ counts) lt = get_or-add_each j ts counts (omega arith)

pub length-add_each : (ts counts : List ℕ) → length (add_each ts counts) ≡ length ts
unfolding add_each
length-add_each [] counts = refl
length-add_each (t ∷ ts) [] = refl
length-add_each (t ∷ ts) (c ∷ counts) = omega (arith, length-add_each ts counts)
