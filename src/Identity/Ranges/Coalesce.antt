-- ===== src/Identity/Ranges/Coalesce.antt =====
-- `coalesceContiguous` of packages/core/src/identity/ranges.ts: the owners of instants before and after.
use lyraflow.Prelude.{
  ℕ, suc, ◌+◌, ◌≤◌, ◌≡◌, refl, sym, ap, ◌∙◌, inl, inr, Bool, true, false, ◌&&◌, ◌||◌, Option, none,
  some, List, [], ◌∷◌, ◌++◌, arith, Bool-cases, length, All, Eq, ◌==◌, ==_iff, nat_eq, string_eq,
}
use mathlib.Core.List.{reverse, reverse-cons, append_assoc, append-nil}
use lyraflow.Prelude.Orders.{Order}
use lyraflow.JsMap.{JsMap}
use lyraflow.Identity.Ranges.{
  Bound, negative_infinity, instant, positive_infinity, bound_beq, BindEvent, Binding, tiles,
  derive_tiling, push_tile, coalesce_loop, coalesce_contiguous,
}
use lyraflow.Identity.Ranges.Events.{by_bound_at-IsUnique}
use lyraflow.Identity.Ranges.Sorted.{Above, sort-IsSorted}
use lyraflow.Identity.Ranges.Owner.{starts_by, ends_after, owner}

-- The order of bounds.
abbrev pub BoundLe : Bound → Bound → Type 0
BoundLe negative_infinity n = Unit
BoundLe (instant k) negative_infinity = ⊥
BoundLe (instant k) (instant n) = k ≤ n
BoundLe (instant k) positive_infinity = Unit
BoundLe positive_infinity positive_infinity = Unit
BoundLe positive_infinity _ = ⊥

bound_beq_sound : (m n : Bound) → bound_beq m n ≡ true → m ≡ n
bound_beq_sound negative_infinity negative_infinity h = refl
bound_beq_sound (instant m) (instant n) h = ground arith
bound_beq_sound positive_infinity positive_infinity h = refl
bound_beq_sound negative_infinity (instant n) h = cc
bound_beq_sound negative_infinity positive_infinity h = cc
bound_beq_sound (instant m) negative_infinity h = cc
bound_beq_sound (instant m) positive_infinity h = cc
bound_beq_sound positive_infinity negative_infinity h = cc
bound_beq_sound positive_infinity (instant n) h = cc

BoundLe-trans : (a b c : Bound) → BoundLe a b → BoundLe b c → BoundLe a c
BoundLe-trans negative_infinity b c h k = tt
BoundLe-trans (instant i) (instant j) (instant k) h g = omega arith
BoundLe-trans (instant i) (instant j) positive_infinity h g = tt
BoundLe-trans (instant i) (instant j) negative_infinity h g = absurd g
BoundLe-trans (instant i) negative_infinity c h g = absurd h
BoundLe-trans (instant i) positive_infinity positive_infinity h g = tt
BoundLe-trans (instant i) positive_infinity negative_infinity h g = absurd g
BoundLe-trans (instant i) positive_infinity (instant k) h g = absurd g
BoundLe-trans positive_infinity positive_infinity c h g = g
BoundLe-trans positive_infinity negative_infinity c h g = absurd h
BoundLe-trans positive_infinity (instant j) c h g = absurd h

abbrev range_covers : Bound → Bound → ℕ → Bool
range_covers from to t = starts_by from t && ends_after to t

range_covers_union :
    (f m n : Bound) (t : ℕ)
    → BoundLe f m
    → BoundLe m n
    → range_covers f n t ≡ (range_covers f m t || range_covers m n t)
range_covers_union negative_infinity m n t h k = split m n k
  where
    split : (a b : Bound) → BoundLe a b → ends_after b t ≡ (ends_after a t || range_covers a b t)
    split negative_infinity b k = refl
    split (instant i) (instant j) k = ground arith
    split (instant i) positive_infinity k = ground arith
    split (instant i) negative_infinity k = absurd k
    split positive_infinity positive_infinity k = refl
    split positive_infinity negative_infinity k = absurd k
    split positive_infinity (instant j) k = absurd k
range_covers_union (instant i) (instant m) (instant n) t h k = ground arith
range_covers_union (instant i) (instant m) positive_infinity t h k = ground arith
range_covers_union (instant i) (instant m) negative_infinity t h k = absurd k
range_covers_union (instant i) negative_infinity n t h k = absurd h
range_covers_union (instant i) positive_infinity positive_infinity t h k = ground arith
range_covers_union (instant i) positive_infinity negative_infinity t h k = absurd k
range_covers_union (instant i) positive_infinity (instant n) t h k = absurd k
range_covers_union positive_infinity m n t h k = ground arith

module _ {P : Type 0} where
  -- A range that does not end before it starts.
  abbrev pub IsProper : Binding P → Type 0
  IsProper b = BoundLe b.from b.to

  abbrev or_else : Option P → Option P → Option P
  or_else none r = r
  or_else (some p) r = some p

  owner-append :
      (xs ys : List (Binding P)) (t : ℕ) → owner (xs ++ ys) t ≡ or_else (owner xs t) (owner ys t)
  unfolding owner
  owner-append [] ys t = refl
  owner-append (x ∷ xs) ys t = ground (arith, owner-append xs ys t)

module _ {P : Type 0} ⦃q : Eq P⦄ where
  -- The one merged range answers like the two.
  owner_merged :
      (last b : Binding P) (t : ℕ)
      → IsProper last
      → IsProper b
      → last.person_id ≡ b.person_id
      → last.to ≡ b.from
      → owner (record last { to = b.to } ∷ []) t ≡ owner (last ∷ b ∷ []) t
  unfolding owner
  owner_merged last b t hl hb same meet = ground (
    arith,
    range_covers_union last.from last.to b.to t hl (rw meet hb),
    ap (λ m. range_covers m b.to t) meet,
  )

  owner_last :
      (out : List (Binding P)) (last b : Binding P) (t : ℕ)
      → owner (record last { to = b.to } ∷ []) t ≡ owner (last ∷ b ∷ []) t
      → owner (reverse (record last { to = b.to } ∷ out)) t
        ≡ owner (reverse (last ∷ out) ++ b ∷ []) t
  owner_last out last b t e = rw (
    reverse-cons (record last { to = b.to }) out,
    reverse-cons last out,
    append_assoc,
    owner-append (reverse out),
    owner-append (reverse out) (last ∷ b ∷ []),
    e,
  )

  -- Pushing a range answers like appending it, and what is gathered stays proper.
  owner-push_tile :
      (out : List (Binding P)) (b : Binding P) (t : ℕ)
      → All IsProper out
      → IsProper b
      → (owner (reverse (push_tile out b)) t ≡ owner (reverse out ++ b ∷ []) t)
        × All IsProper (push_tile out b)
  unfolding push_tile
  owner-push_tile [] b t h hb = (refl, (hb, tt))
  owner-push_tile (last ∷ out) b t (hl, h) hb =
      elim (Bool-cases ((last.person_id == b.person_id) && bound_beq last.to b.from)) [
        | inr apart ↦
            rw (apart, push_tile) (ap (λ l. owner l t) (reverse-cons b (last ∷ out)), (hb, (hl, h)))
        | inl merge ↦
            let same = (==_iff last.person_id b.person_id).0 (ground arith) in
            let meet = bound_beq_sound last.to b.from (ground arith) in
            rw (merge, push_tile)
              (
                owner_last out last b t (owner_merged last b t hl hb same meet),
                (BoundLe-trans last.from last.to b.to hl (rw meet hb), h),
              )
      ]

  owner-coalesce_loop :
      (out bs : List (Binding P)) (t : ℕ)
      → All IsProper out
      → All IsProper bs
      → owner (reverse (coalesce_loop out bs)) t ≡ owner (reverse out ++ bs) t
  unfolding coalesce_loop
  owner-coalesce_loop out [] t h hb = ap (λ l. owner l t) (sym (append-nil (reverse out)))
  owner-coalesce_loop out (b ∷ bs) t h (hb, hbs) =
      let (same, proper) = owner-push_tile out b t h hb in
      owner-coalesce_loop (push_tile out b) bs t proper hbs
      ∙ owner-append (reverse (push_tile out b)) bs t
      ∙ ap (λ r. or_else r (owner bs t)) same
      ∙ sym (owner-append (reverse out ++ b ∷ []) bs t)
      ∙ ap (λ l. owner l t) (append_assoc (reverse out) (b ∷ []) bs)

  -- Merging changes the owner of no instant, whatever ranges it is given, as long as none ends
  -- before it starts.
  pub owner-coalesce_contiguous :
      (bs : List (Binding P)) (t : ℕ)
      → All IsProper bs
      → owner (coalesce_contiguous bs) t ≡ owner bs t
  unfolding coalesce_contiguous
  owner-coalesce_contiguous bs t h = owner-coalesce_loop [] bs t tt h

  length-push_tile-le :
      (out : List (Binding P)) (b : Binding P) → length (push_tile out b) ≤ length out + 1
  unfolding push_tile
  length-push_tile-le [] b = omega arith
  length-push_tile-le (last ∷ out) b = ground arith

module _ {P : Type 0} ⦃o : Order P⦄ where
  tiles-IsProper : (n : ℕ) (first : Bool) (m : JsMap ℕ P) → Above n m → All IsProper (tiles first m)
  unfolding tiles
  tiles-IsProper n first [] h = tt
  tiles-IsProper n true ((k, p) ∷ []) h = (tt, tt)
  tiles-IsProper n false ((k, p) ∷ []) h = (tt, tt)
  tiles-IsProper n true ((k, p) ∷ (j, q) ∷ m) (lo, h) =
      (tt, tiles-IsProper (suc k) false ((j, q) ∷ m) h)
  tiles-IsProper n false ((k, p) ∷ (j, q) ∷ m) (lo, h) =
      (omega arith, tiles-IsProper (suc k) false ((j, q) ∷ m) h)

  pub derive_tiling-IsProper : (es : List (BindEvent P)) → All IsProper (derive_tiling es)
  unfolding derive_tiling
  derive_tiling-IsProper es =
      tiles-IsProper 0 true _ (sort-IsSorted _ (by_bound_at-IsUnique es [] tt))

  -- Coalescing a derived tiling changes the owner of no instant.
  pub owner-coalesce-derive_tiling :
      ⦃q : Eq P⦄ (es : List (BindEvent P)) (t : ℕ)
      → owner (coalesce_contiguous (derive_tiling es)) t ≡ owner (derive_tiling es) t
  owner-coalesce-derive_tiling es t =
      owner-coalesce_contiguous (derive_tiling es) t (derive_tiling-IsProper es)
