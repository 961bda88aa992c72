-- ===== src/Prelude/Members.antt =====
-- Membership with its position, in the lists that the models build.
use mathlib.Core.Path.{◌≡◌, ap, sym, ◌∙◌}
use mathlib.Core.Logic.{inl, inr}
use mathlib.Core.Bool.{Bool, true}
use mathlib.Core.List.{List, [], ◌∷◌, ◌++◌, Memᴰ}
use lyraflow.Prelude.Tests.{Bool-cases}
use lyraflow.Prelude.Lists.{filter, All}

module _ {ℓ} {A : Type ℓ} where
  pub mem-append_left : {x : A} (xs ys : List A) → Memᴰ x xs → Memᴰ x (xs ++ ys)
  mem-append_left [] ys m = elim m [ ]
  mem-append_left (y ∷ xs) ys (Memᴰ.head e) = Memᴰ.head e
  mem-append_left (y ∷ xs) ys (Memᴰ.tail m) = Memᴰ.tail (mem-append_left xs ys m)

  pub mem-append_right : {x : A} (xs ys : List A) → Memᴰ x ys → Memᴰ x (xs ++ ys)
  mem-append_right [] ys m = m
  mem-append_right (y ∷ xs) ys m = Memᴰ.tail (mem-append_right xs ys m)

  pub mem-filter :
      {x : A} (p : A → Bool) (xs : List A) → Memᴰ x xs → p x ≡ true → Memᴰ x (filter p xs)
  mem-filter p [] m h = elim m [ ]
  mem-filter p (y ∷ xs) (Memᴰ.head e) h = rw (ap p (sym e) ∙ h) (Memᴰ.head e)
  mem-filter p (y ∷ xs) (Memᴰ.tail m) h = elim (Bool-cases (p y)) [
    | inl kept ↦ rw kept (Memᴰ.tail (mem-filter p xs m h))
    | inr gone ↦ rw gone (mem-filter p xs m h)
  ]

  pub All-mem {κ} : {x : A} (P : A → Type κ) (xs : List A) → All P xs → Memᴰ x xs → P x
  All-mem P [] hs m = elim m [ ]
  All-mem P (y ∷ xs) (h, hs) (Memᴰ.head e) = rw e h
  All-mem P (y ∷ xs) (h, hs) (Memᴰ.tail m) = All-mem P xs hs m
