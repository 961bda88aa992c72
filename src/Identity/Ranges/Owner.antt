-- ===== src/Identity/Ranges/Owner.antt =====
-- Who owns an instant in the ranges of packages/core/src/identity/ranges.ts, and in how many it lies.
use lyraflow.Prelude.{
  ℕ, suc, ◌+◌, ◌≤◌, ◌<◌, ◌≡◌, refl, ap, ◌∙◌, inl, inr, Bool, true, false, ◌&&◌, Option, none, some,
  List, [], ◌∷◌, Memᴰ, arith, ltb, leb, if◌then◌else◌, Bool-cases, ==_cases, nat_eq, string_eq,
}
use lyraflow.JsMap.{JsMap, get}
use lyraflow.Identity.Ranges.{Bound, negative_infinity, instant, positive_infinity, Binding, tiles}
use lyraflow.Identity.Ranges.Sorted.{Above}

-- `from <= t` and `t < to`, the half-open range.
abbrev pub starts_by : Bound → ℕ → Bool
starts_by negative_infinity t = true
starts_by (instant k) t = leb k t
starts_by positive_infinity t = false

abbrev pub ends_after : Bound → ℕ → Bool
ends_after negative_infinity t = false
ends_after (instant k) t = ltb t k
ends_after positive_infinity t = true

module _ {P : Type 0} where
  abbrev pub covers : Binding P → ℕ → Bool
  covers b t = starts_by b.from t && ends_after b.to t

  -- The person of the first range that covers the instant.
  unfoldable pub owner : List (Binding P) → ℕ → Option P
  owner [] t = none
  owner (b ∷ bs) t = if covers b t then some b.person_id else owner bs t

  -- How many ranges cover the instant.
  pub cover_count : List (Binding P) → ℕ → ℕ
  cover_count [] t = 0
  cover_count (b ∷ bs) t = (if covers b t then 1 else 0) + cover_count bs t

  -- The person in force among sorted entries: that of the last entry by then, or the first.
  pub in_force : P → JsMap ℕ P → ℕ → P
  in_force p [] t = p
  in_force p ((k, q) ∷ m) t = let rest = in_force q m t in if leb k t then rest else p

  cover_count_before :
      (k : ℕ) (m : JsMap ℕ P) (t : ℕ) → Above k m → t < k → cover_count (tiles false m) t ≡ 0
  unfolding tiles cover_count
  cover_count_before k [] t h lt = refl
  cover_count_before k ((j, q) ∷ m) t (lo, h) lt = ground (arith, cover_count_before (suc j) m t h)

  owner-tiles_later :
      (k : ℕ) (p : P) (m : JsMap ℕ P) (t : ℕ)
      → Above (suc k) m
      → k ≤ t
      → (owner (tiles false ((k, p) ∷ m)) t ≡ some (in_force p m t))
        × (cover_count (tiles false ((k, p) ∷ m)) t ≡ 1)
  unfolding owner tiles cover_count in_force
  owner-tiles_later k p [] t h le = ground arith
  owner-tiles_later k p ((j, q) ∷ m) t (lo, h) le =
      ground
        (arith, owner-tiles_later j q m t h, cover_count_before j ((j, q) ∷ m) t (omega arith, h))

  -- The first range starts at minus infinity, so every instant is covered, and covered once.
  pub owner-tiles :
      (k : ℕ) (p : P) (m : JsMap ℕ P) (t : ℕ)
      → Above (suc k) m
      → (owner (tiles true ((k, p) ∷ m)) t ≡ some (in_force p m t))
        × (cover_count (tiles true ((k, p) ∷ m)) t ≡ 1)
  unfolding owner tiles cover_count in_force
  owner-tiles k p [] t h = ground arith
  owner-tiles k p ((j, q) ∷ m) t (lo, h) =
      ground
        (arith, owner-tiles_later j q m t h, cover_count_before j ((j, q) ∷ m) t (omega arith, h))

  -- Where `in_force` takes its answer from.
  pub data Source (k : ℕ) (p : P) (m : JsMap ℕ P) (t : ℕ) : Type 0 where
    first : in_force p m t ≡ p → ((j : ℕ) (q : P) → Memᴰ (j, q) m → t < j) → Source k p m t
    later :
        (j : ℕ)
        → Memᴰ (j, in_force p m t) m
        → j ≤ t
        → ((i : ℕ) (q : P) → Memᴰ (i, q) m → i ≤ t → i ≤ j)
        → Source k p m t

  pub Above-mem : (n j : ℕ) (q : P) (m : JsMap ℕ P) → Above n m → Memᴰ (j, q) m → n ≤ j
  Above-mem n j q [] h i = elim i [ ]
  Above-mem n j q ((k, p) ∷ m) (lo, h) (Memᴰ.head e) = ground arith
  Above-mem n j q ((k, p) ∷ m) (lo, h) (Memᴰ.tail i) = omega (arith, Above-mem (suc k) j q m h i)

  pub in_force-Source : (k : ℕ) (p : P) (m : JsMap ℕ P) (t : ℕ) → Above (suc k) m → Source k p m t
  unfolding in_force
  in_force-Source k p [] t h = first refl (λ j q i. elim i [ ])
  in_force-Source k p ((j, q) ∷ m) t (lo, h) = elim (Bool-cases (leb j t)) [
    | inr early ↦
        first (rw (early, in_force))
          (λ i r mem. ground (arith, Above-mem j i r ((j, q) ∷ m) (omega arith, h) mem))
    | inl due ↦ pass due (rw (due, in_force)) (in_force-Source j q m t h)
  ]
    where
      pass :
          leb j t ≡ true
          → in_force p ((j, q) ∷ m) t ≡ in_force q m t
          → Source j q m t
          → Source k p ((j, q) ∷ m) t
      pass due same (first e none_due) =
          later j (Memᴰ.head (ap (λ r. (j, r)) (same ∙ e))) (ground arith) last
        where
          last : (i : ℕ) (r : P) → Memᴰ (i, r) ((j, q) ∷ m) → i ≤ t → i ≤ j
          last i r (Memᴰ.head eq) le = ground arith
          last i r (Memᴰ.tail mem) le = absurd (omega (arith, none_due i r mem))
      pass due same (later i mem le max_due) = later i (Memᴰ.tail (rw same mem)) le last
        where
          last : (n : ℕ) (r : P) → Memᴰ (n, r) ((j, q) ∷ m) → n ≤ t → n ≤ i
          last n r (Memᴰ.head eq) nt = ground (arith, Above-mem (suc j) i (in_force q m t) m h mem)
          last n r (Memᴰ.tail other) nt = max_due n r other nt

  pub mem_of_get : (k : ℕ) (p : P) (m : JsMap ℕ P) → get k m ≡ some p → Memᴰ (k, p) m
  unfolding get
  mem_of_get k p [] h = cc
  mem_of_get k p ((j, q) ∷ m) h = elim (==_cases j k) [
    | inl same ↦ Memᴰ.head (ground arith)
    | inr other ↦ Memᴰ.tail (mem_of_get k p m (ground arith))
  ]
