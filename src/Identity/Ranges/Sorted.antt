-- ===== src/Identity/Ranges/Sorted.antt =====
-- The sort of packages/core/src/identity/ranges.ts, as a function of what the map holds.
use lyraflow.Prelude.{
  ℕ, suc, ◌≤◌, ◌<◌, ◌≡◌, refl, ◌∙◌, none, some, [], ◌∷◌, Memᴰ, arith, if◌then◌else◌, ◌==◌, nat_eq,
  string_eq,
}
use lyraflow.JsMap.{JsMap, get}
use lyraflow.JsMap.Unique.{IsUnique}
use lyraflow.Identity.Ranges.{insert_entry, sort}

module _ {P : Type 0} where
  -- The instants rise strictly, from `n` on.
  abbrev pub Above : ℕ → JsMap ℕ P → Type 0
  Above n [] = Unit
  Above n ((k, p) ∷ m) = (n ≤ k) × Above (suc k) m

  abbrev pub IsSorted : JsMap ℕ P → Type 0
  IsSorted m = Above 0 m

  get-insert_entry :
      (k j : ℕ) (p : P) (m : JsMap ℕ P)
      → get j (insert_entry (k, p) m) ≡ (if k == j then some p else get j m)
  unfolding get insert_entry
  get-insert_entry k j p [] = refl
  get-insert_entry k j p ((i, q) ∷ m) = ground (arith, get-insert_entry k j p m)

  insert_entry-Above :
      (n k : ℕ) (p : P) (m : JsMap ℕ P)
      → n ≤ k
      → get k m ≡ none
      → Above n m
      → Above n (insert_entry (k, p) m)
  unfolding get insert_entry
  insert_entry-Above n k p [] lt new h = (lt, tt)
  insert_entry-Above n k p ((i, q) ∷ m) lt new (lo, h) =
      ground (arith, insert_entry-Above (suc i) k p m)

  pub get-sort : (j : ℕ) (m : JsMap ℕ P) → get j (sort m) ≡ get j m
  unfolding sort get
  get-sort j [] = refl
  get-sort j ((k, p) ∷ m) = ground (arith, get-insert_entry k j p (sort m), get-sort j m)

  pub sort-IsSorted : (m : JsMap ℕ P) → IsUnique m → IsSorted (sort m)
  unfolding sort
  sort-IsSorted [] u = tt
  sort-IsSorted ((k, p) ∷ m) (new, u) =
      insert_entry-Above 0 k p (sort m) (omega arith) (get-sort k m ∙ new) (sort-IsSorted m u)

  get_below : (n k : ℕ) (m : JsMap ℕ P) → Above n m → k < n → get k m ≡ none
  unfolding get
  get_below n k [] h le = refl
  get_below n k ((i, q) ∷ m) (lo, h) le = ground (arith, get_below (suc i) k m h)

  -- Two sorted lists in which the same is found at each instant are one list.
  Above-ext :
      (n : ℕ) (xs ys : JsMap ℕ P)
      → Above n xs
      → Above n ys
      → ((k : ℕ) → n ≤ k → get k xs ≡ get k ys)
      → xs ≡ ys
  unfolding get
  Above-ext n [] [] h g same = refl
  Above-ext n [] ((j, q) ∷ ys) h (lo, g) same = absurd (ground (arith, same j lo))
  Above-ext n ((k, p) ∷ xs) [] (lo, h) g same = absurd (ground (arith, same k lo))
  Above-ext n ((k, p) ∷ xs) ((j, q) ∷ ys) (lk, h) (lj, g) same =
      ground (arith, heads, people, Above-ext (suc k) xs ys h (rw heads g) later)
    where
      heads : k ≡ j
      heads =
          ground (arith, same k lk, same j lj, get_below (suc j) k ys g, get_below (suc k) j xs h)

      people : p ≡ q
      people = ground (arith, heads, same k lk)

      later : (i : ℕ) → suc k ≤ i → get i xs ≡ get i ys
      later i le = ground (arith, heads, same i (omega arith))

  pub IsSorted-ext :
      (xs ys : JsMap ℕ P) → IsSorted xs → IsSorted ys → ((k : ℕ) → get k xs ≡ get k ys) → xs ≡ ys
  IsSorted-ext xs ys h g same = Above-ext 0 xs ys h g (λ k le. same k)

  -- An entry of a sorted list is the one that is found.
  pub get_of_mem : (n k : ℕ) (p : P) (m : JsMap ℕ P) → Above n m → Memᴰ (k, p) m → get k m ≡ some p
  unfolding get
  get_of_mem n k p [] h i = elim i [ ]
  get_of_mem n k p ((j, q) ∷ m) (lo, h) (Memᴰ.head e) = ground arith
  get_of_mem n k p ((j, q) ∷ m) (lo, h) (Memᴰ.tail i) =
      ground (arith, get_of_mem (suc j) k p m h i, get_below (suc j) k m h)
