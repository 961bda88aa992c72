-- ===== src/Identity/Ranges.antt =====
-- packages/core/src/identity/ranges.ts: who a device belonged to at each instant. A person is of any
-- type with an order (`Prelude.Orders` has the one of strings); an instant is a number of
-- milliseconds since the earliest one in use, and the two infinities are constructors.
mod Tests
pub mod Events
pub mod Sorted
pub mod Owner
pub mod Tiling
pub mod Coalesce
use lyraflow.Prelude.{
  ℕ, Bool, true, false, ◌&&◌, Option, none, some, List, [], ◌∷◌, leb, if◌then◌else◌, Eq, ◌==◌,
  nat_eq, string_eq,
}
use mathlib.Core.List.{reverse, foldl}
use lyraflow.Prelude.Orders.{Order}
use lyraflow.JsMap.{JsMap, get, set}

pub data Bound : Type 0 where
  negative_infinity : Bound
  instant : ℕ → Bound
  positive_infinity : Bound

abbrev pub bound_beq : Bound → Bound → Bool
bound_beq negative_infinity negative_infinity = true
bound_beq (instant m) (instant n) = m == n
bound_beq positive_infinity positive_infinity = true
bound_beq _ _ = false

pub record BindEvent (P : Type 0) : Type 0 where
  pub person_id : P
  pub bound_at : ℕ

pub record Binding (P : Type 0) : Type 0 where
  pub person_id : P
  pub from : Bound
  pub to : Bound

module _ {P : Type 0} where
  -- The comparison sort of `deriveTiling`, on the distinct instants.
  pub insert_entry : ℕ × P → JsMap ℕ P → JsMap ℕ P
  insert_entry e [] = e ∷ []
  insert_entry e (f ∷ m) = if leb e.0 f.0 then e ∷ f ∷ m else f ∷ insert_entry e m

  pub sort : JsMap ℕ P → JsMap ℕ P
  sort [] = []
  sort (e ∷ m) = insert_entry e (sort m)

  abbrev pub next_bound : JsMap ℕ P → Bound
  next_bound [] = positive_infinity
  next_bound ((k, p) ∷ m) = instant k

  -- The `map` of `deriveTiling`; the flag says that the index is 0.
  pub tiles : Bool → JsMap ℕ P → List (Binding P)
  tiles first [] = []
  tiles first ((k, p) ∷ m) =
      record {
        person_id = p;
        from = if first then negative_infinity else instant k;
        to = next_bound m;
      }
      ∷ tiles false m

module _ {P : Type 0} ⦃o : Order P⦄ where
  abbrev pub smaller : Option P → P → Bool
  smaller none p = true
  smaller (some q) p = o.lt p q

  -- The body of the loop over the events: on a tie the smaller person wins.
  pub note_event : JsMap ℕ P → BindEvent P → JsMap ℕ P
  note_event m e =
      if smaller (get e.bound_at m) e.person_id then set e.bound_at e.person_id m else m

  pub by_bound_at : JsMap ℕ P → List (BindEvent P) → JsMap ℕ P
  by_bound_at m [] = m
  by_bound_at m (e ∷ es) = by_bound_at (note_event m e) es

  pub derive_tiling : List (BindEvent P) → List (Binding P)
  derive_tiling es = tiles true (sort (by_bound_at [] es))

module _ {P : Type 0} ⦃q : Eq P⦄ where
  -- The body of the loop of `coalesceContiguous`; `out` has its last element at the head.
  pub push_tile : List (Binding P) → Binding P → List (Binding P)
  push_tile [] b = b ∷ []
  push_tile (last ∷ out) b =
      if (last.person_id == b.person_id) && bound_beq last.to b.from
      then record last { to = b.to } ∷ out
      else b ∷ last ∷ out

  pub coalesce_loop : List (Binding P) → List (Binding P) → List (Binding P)
  coalesce_loop out [] = out
  coalesce_loop out (b ∷ bs) = coalesce_loop (push_tile out b) bs

  pub coalesce_contiguous : List (Binding P) → List (Binding P)
  coalesce_contiguous bs = reverse (coalesce_loop [] bs)
