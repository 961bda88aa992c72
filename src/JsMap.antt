-- ===== src/JsMap.antt =====
-- A JavaScript `Map`: entries in insertion order. `set` on a key that is present keeps its place,
-- `delete` then `set` moves it to the end, and iteration starts at the oldest entry. The language's
-- own `Map`, as the code under packages/ uses it.
pub mod Laws
pub mod Unique
pub mod Weights
use lyraflow.Prelude.{
  ℕ, String, Bool, true, false, not, Option, none, some, List, [], ◌∷◌, map, filter, length, Eq,
  ◌==◌, if◌then◌else◌, is_some,
}

abbrev pub JsMap {ℓ κ} : Type ℓ → Type κ → Type (ℓ ⊔ κ)
JsMap K V = List (K × V)

module _ {ℓ κ} {K : Type ℓ} {V : Type κ} ⦃e : Eq K⦄ where
  unfoldable pub get : K → JsMap K V → Option V
  get k [] = none
  get k ((j, v) ∷ m) = if j == k then some v else get k m

  unfoldable pub set : K → V → JsMap K V → JsMap K V
  set k v [] = (k, v) ∷ []
  set k v ((j, w) ∷ m) = if j == k then (j, v) ∷ m else (j, w) ∷ set k v m

  unfoldable pub delete : K → JsMap K V → JsMap K V
  delete k m = filter (λ b. not (b.0 == k)) m

  abbrev pub has : K → JsMap K V → Bool
  has k m = is_some (get k m)

  -- `map.keys().next().value`
  unfoldable pub first_key : JsMap K V → Option K
  first_key [] = none
  first_key ((k, v) ∷ m) = some k
