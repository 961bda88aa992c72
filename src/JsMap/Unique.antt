-- ===== src/JsMap/Unique.antt =====
-- Keys that stand in a JavaScript `Map` once, under its operations.
use lyraflow.Prelude.{
  ◌≤◌, ◌≡◌, none, some, [], ◌∷◌, arith, length, All, Eq, ==_iff, nat_eq, string_eq,
}
use lyraflow.JsMap.{JsMap, get, set, delete}
use lyraflow.JsMap.Laws.{get-set, get-delete}

module _ {ℓ κ} {K : Type ℓ} {V : Type κ} ⦃e : Eq K⦄ where
  abbrev pub IsUnique : JsMap K V → Type κ
  IsUnique [] = Unit
  IsUnique ((k, v) ∷ m) = (get k m ≡ none) × IsUnique m

  pub set-IsUnique : (k : K) (v : V) (m : JsMap K V) → IsUnique m → IsUnique (set k v m)
  unfolding get set
  set-IsUnique k v [] h = ground arith
  set-IsUnique k v ((i, w) ∷ m) h =
      ground (arith, get-set k i v m, ==_iff k i, ==_iff i k, set-IsUnique k v m h.1)

  pub delete-IsUnique : (k : K) (m : JsMap K V) → IsUnique m → IsUnique (delete k m)
  unfolding get delete
  delete-IsUnique k [] h = tt
  delete-IsUnique k ((i, w) ∷ m) h = ground (arith, get-delete k i m, delete-IsUnique k m h.1)

  -- Writing to a key that is present does not lengthen the map.
  pub length-set_present :
      (k : K) (v w : V) (m : JsMap K V) → get k m ≡ some w → length (set k v m) ≡ length m
  unfolding get set
  length-set_present k v w [] h = cc
  length-set_present k v w ((i, u) ∷ m) h = ground (arith, length-set_present k v w m)

  -- A map all of whose keys are one key has at most one entry.
  pub length-le-one : (k : K) (m : JsMap K V) → All (λ b. b.0 ≡ k) m → IsUnique m → length m ≤ 1
  unfolding get
  length-le-one k [] h u = omega arith
  length-le-one k ((i, v) ∷ []) h u = omega arith
  length-le-one k ((i, v) ∷ (j, w) ∷ m) h u = ground (arith, ==_iff j i)
