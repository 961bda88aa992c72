-- ===== src/JsMap/Weights.antt =====
-- A weight summed over the values of a JavaScript `Map`, and entries at the ends of one.
use lyraflow.Prelude.{
  ℕ, ◌+◌, ◌≤◌, ◌≡◌, refl, ap, subst, inl, inr, none, some, [], ◌∷◌, ◌++◌, arith, length, Eq, ==_iff,
  ==_refl, ==_cases, nat_eq, string_eq,
}
use lyraflow.JsMap.{JsMap, get, set, delete}
use lyraflow.JsMap.Unique.{IsUnique}

module _ {ℓ κ} {K : Type ℓ} {V : Type κ} ⦃e : Eq K⦄ where
  pub delete_absent : (k : K) (m : JsMap K V) → get k m ≡ none → delete k m ≡ m
  unfolding get delete
  delete_absent k [] h = refl
  delete_absent k ((j, v) ∷ m) h = ground (arith, delete_absent k m)

  -- A key that is new is written at the end.
  pub set_absent : (k : K) (v : V) (m : JsMap K V) → get k m ≡ none → set k v m ≡ m ++ (k, v) ∷ []
  unfolding get set
  set_absent k v [] h = refl
  set_absent k v ((j, w) ∷ m) h = ground (arith, set_absent k v m)

  pub delete_first :
      (k : K) (v : V) (m : JsMap K V) → IsUnique ((k, v) ∷ m) → delete k ((k, v) ∷ m) ≡ m
  unfolding delete
  delete_first k v m (new, u) = rw (==_refl k) (delete_absent k m new)

  module _ (w : V → ℕ) where
    abbrev pub weight : JsMap K V → ℕ
    weight [] = 0
    weight ((k, v) ∷ m) = w v + weight m

    pub weight_empty : (m : JsMap K V) → length m ≤ 0 → weight m ≡ 0
    weight_empty [] h = refl
    weight_empty (b ∷ m) h = omega arith

    pub weight-append : (m n : JsMap K V) → weight (m ++ n) ≡ weight m + weight n
    weight-append [] n = omega arith
    weight-append (b ∷ m) n = omega (arith, weight-append m n)

    pub weight-delete :
        (k : K) (v : V) (m : JsMap K V)
        → IsUnique m
        → get k m ≡ some v
        → weight (delete k m) + w v ≡ weight m
    unfolding get delete
    weight-delete k v [] u h = cc
    weight-delete k v ((j, x) ∷ m) (new, u) h = elim (==_cases j k) [
      | inl same ↦
          ground (
            arith,
            ==_iff j k,
            ap weight (delete_absent k m (subst (λ i. get i m ≡ none) same new)),
          )
      | inr other ↦ ground (arith, ==_iff j k, weight-delete k v m u)
    ]
