-- ===== src/JsMap/Laws.antt =====
-- The laws of a JavaScript `Map`: reading after each write, and sizes.
use lyraflow.Prelude.{
  ◌+◌, ◌≤◌, ◌<◌, ◌≡◌, refl, not, none, some, [], ◌∷◌, length, arith, Eq, ◌==◌, ==_iff, ==_refl,
  if◌then◌else◌, length-filter-le,
}
use lyraflow.JsMap.{JsMap, get, set, delete, first_key}

module _ {ℓ κ} {K : Type ℓ} {V : Type κ} ⦃e : Eq K⦄ where
  pub get-set :
      (k j : K) (v : V) (m : JsMap K V) → get j (set k v m) ≡ (if k == j then some v else get j m)
  unfolding get set
  get-set k j v [] = refl
  get-set k j v ((i, w) ∷ m) = ground (arith, ==_iff k j, ==_iff i k, ==_iff i j, get-set k j v m)

  pub get-delete :
      (k j : K) (m : JsMap K V) → get j (delete k m) ≡ (if k == j then none else get j m)
  unfolding get delete
  get-delete k j [] = ground arith
  get-delete k j ((i, w) ∷ m) = ground (arith, ==_iff k j, ==_iff i k, ==_iff i j, get-delete k j m)

  pub length-set-le : (k : K) (v : V) (m : JsMap K V) → length (set k v m) ≤ length m + 1
  unfolding set
  length-set-le k v [] = omega arith
  length-set-le k v ((i, w) ∷ m) = ground (arith, length-set-le k v m)

  pub length-delete-le : (k : K) (m : JsMap K V) → length (delete k m) ≤ length m
  unfolding delete
  length-delete-le k m = length-filter-le _ m

  -- Deleting a key that is present shortens the map.
  pub length-delete-lt :
      (k : K) (m : JsMap K V) (v : V) → get k m ≡ some v → length (delete k m) < length m
  unfolding delete get
  length-delete-lt k [] v h = ground arith
  length-delete-lt k ((i, w) ∷ m) v h =
      ground (arith, length-filter-le (λ (b : K × V). not (b.0 == k)) m, length-delete-lt k m v)

  pub first_key-get : (m : JsMap K V) (k : K) → first_key m ≡ some k → (v : V) × (get k m ≡ some v)
  unfolding first_key get
  first_key-get ((j, v) ∷ m) k h = (v, ground (arith, ==_iff j k))
  first_key-get [] k h = cc

  pub first_key-none : (m : JsMap K V) → first_key m ≡ none → m ≡ []
  unfolding first_key
  first_key-none [] h = refl
  first_key-none ((j, v) ∷ m) h = cc

  pub delete-delete : (k : K) (m : JsMap K V) → delete k (delete k m) ≡ delete k m
  unfolding delete
  delete-delete k [] = refl
  delete-delete k ((i, w) ∷ m) = ground (arith, delete-delete k m)

  pub delete-set : (k : K) (v : V) (m : JsMap K V) → delete k (set k v m) ≡ delete k m
  unfolding delete set
  delete-set k v [] = ground (arith, ==_refl k)
  delete-set k v ((i, w) ∷ m) = ground (arith, ==_iff i k, delete-set k v m)
