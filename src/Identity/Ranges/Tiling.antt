-- ===== src/Identity/Ranges/Tiling.antt =====
-- `deriveTiling` of packages/core/src/identity/ranges.ts: the tiles over the timeline, and the events that
-- decide their persons.
use lyraflow.Prelude.{
  ℕ, suc, ◌≤◌, ◌<◌, ◌≡◌, refl, sym, ap, ◌∙◌, subst, ◌≢◌, true, Option, none, some, List, [], ◌∷◌,
  Memᴰ, arith, nat_eq, string_eq,
}
use lyraflow.Prelude.Orders.{Order}
use lyraflow.JsMap.{JsMap, get}
use lyraflow.Identity.Ranges.{BindEvent, tiles, sort, by_bound_at, derive_tiling}
use lyraflow.Identity.Ranges.Events.{
  IsLeast, by_bound_at-IsLeast, by_bound_at-ne-none, by_bound_at-IsUnique, get-by_bound_at,
}
use lyraflow.Identity.Ranges.Owner.{
  owner, cover_count, in_force, owner-tiles, Source, first, later, Above-mem, in_force-Source,
  mem_of_get,
}
use lyraflow.Identity.Ranges.Sorted.{
  Above, IsSorted, get-sort, sort-IsSorted, IsSorted-ext, get_of_mem,
}

module _ {P : Type 0} ⦃o : Order P⦄ where
  -- The tiling depends on which events there are, never on their order or how often one comes.
  pub derive_tiling_ext :
      (xs ys : List (BindEvent P))
      → ((e : BindEvent P) → Memᴰ e xs → Memᴰ e ys)
      → ((e : BindEvent P) → Memᴰ e ys → Memᴰ e xs)
      → derive_tiling xs ≡ derive_tiling ys
  unfolding derive_tiling
  derive_tiling_ext xs ys to back = ap (tiles true) (
      IsSorted-ext (sort (by_bound_at [] xs)) (sort (by_bound_at [] ys))
        (sort-IsSorted _ (by_bound_at-IsUnique xs [] tt))
        (sort-IsSorted _ (by_bound_at-IsUnique ys [] tt))
        (λ k.
          get-sort k (by_bound_at [] xs)
          ∙ get-by_bound_at xs ys to back k
          ∙ sym (get-sort k (by_bound_at [] ys))))

  -- The event that decides an instant: the latest one by then, or the first of all if none is due,
  -- and of those at its own instant the one with the smallest person.
  pub record Decides (es : List (BindEvent P)) (t : ℕ) (p : P) : Type 0 where
    pub bound : ℕ
    pub chosen : IsLeast bound p es
    pub latest : (e : BindEvent P) → Memᴰ e es → e.bound_at ≤ t → e.bound_at ≤ bound
    pub retroactive : t < bound → (e : BindEvent P) → Memᴰ e es → bound ≤ e.bound_at

  sorted_entry :
      (es : List (BindEvent P)) (e : BindEvent P)
      → Memᴰ e es
      → (p : P) × Memᴰ (e.bound_at, p) (sort (by_bound_at [] es))
  sorted_entry es e i = held (get e.bound_at (by_bound_at [] es)) refl
    where
      held :
          (r : Option P)
          → get e.bound_at (by_bound_at [] es) ≡ r
          → (p : P) × Memᴰ (e.bound_at, p) (sort (by_bound_at [] es))
      held none h = absurd (by_bound_at-ne-none e es i h)
      held (some p) h = (p, mem_of_get e.bound_at p _ (get-sort e.bound_at (by_bound_at [] es) ∙ h))

  IsLeast-of_mem :
      (es : List (BindEvent P)) (k : ℕ) (p : P)
      → Memᴰ (k, p) (sort (by_bound_at [] es))
      → IsLeast k p es
  IsLeast-of_mem es k p i = by_bound_at-IsLeast k es p (
      sym (get-sort k (by_bound_at [] es))
      ∙ get_of_mem 0 k p _ (sort-IsSorted _ (by_bound_at-IsUnique es [] tt)) i)

  Source-Decides :
      (es : List (BindEvent P)) (k : ℕ) (p : P) (m : JsMap ℕ P) (t : ℕ)
      → sort (by_bound_at [] es) ≡ (k, p) ∷ m
      → Above (suc k) m
      → Source k p m t
      → Decides es t (in_force p m t)
  Source-Decides es k p m t eq h (first e none_due) = record {
    bound = k;
    chosen = rw e (IsLeast-of_mem es k p (rw eq (Memᴰ.head refl)));
    latest = λ f i due. due_first f due (subst (Memᴰ _) eq (sorted_entry es f i).1);
    retroactive = λ early f i.
        Above-mem k f.bound_at _ ((k, p) ∷ m) (omega arith, h)
          (subst (Memᴰ _) eq (sorted_entry es f i).1);
  }
    where
      due_first :
          (f : BindEvent P) {r : P}
          → f.bound_at ≤ t
          → Memᴰ (f.bound_at, r) ((k, p) ∷ m)
          → f.bound_at ≤ k
      due_first f due (Memᴰ.head same) = ground arith
      due_first f {r} due (Memᴰ.tail i) = absurd (omega (arith, none_due f.bound_at r i))
  Source-Decides es k p m t eq h (later j mem le max_due) = record {
    bound = j;
    chosen = IsLeast-of_mem es j _ (rw eq (Memᴰ.tail mem));
    latest = λ f i due. due_later f due (subst (Memᴰ _) eq (sorted_entry es f i).1);
    retroactive = λ early f i. absurd (omega arith);
  }
    where
      due_later :
          (f : BindEvent P) {r : P}
          → f.bound_at ≤ t
          → Memᴰ (f.bound_at, r) ((k, p) ∷ m)
          → f.bound_at ≤ j
      due_later f due (Memᴰ.head same) =
          ground (arith, Above-mem (suc k) j (in_force p m t) m h mem)
      due_later f {r} due (Memᴰ.tail i) = max_due f.bound_at r i due

  not-mem-nil : {x : ℕ × P} {m : JsMap ℕ P} → m ≡ [] → Memᴰ x m → ⊥
  not-mem-nil {m = []} e i = elim i [ ]
  not-mem-nil {m = y ∷ m} e i = cc

  -- Unless there is no event at all, every instant lies in exactly one range, and its person is the
  -- one of the event that decides it.
  pub derive_tiling-Decides :
      (es : List (BindEvent P)) (t : ℕ)
      → es ≢ []
      → (cover_count (derive_tiling es) t ≡ 1)
        × ((p : P) × (owner (derive_tiling es) t ≡ some p) × Decides es t p)
  unfolding derive_tiling
  derive_tiling-Decides [] t h = absurd (h refl)
  derive_tiling-Decides (e ∷ es) t h =
      decided (sort (by_bound_at [] (e ∷ es))) refl
        (sort-IsSorted _ (by_bound_at-IsUnique (e ∷ es) [] tt))
    where
      decided :
          (m : JsMap ℕ P)
          → sort (by_bound_at [] (e ∷ es)) ≡ m
          → IsSorted m
          → (cover_count (tiles true (sort (by_bound_at [] (e ∷ es)))) t ≡ 1)
            × ((p : P) × (owner (tiles true (sort (by_bound_at [] (e ∷ es)))) t ≡ some p)
                × Decides (e ∷ es) t p)
      decided [] eq sorted = absurd (not-mem-nil eq (sorted_entry (e ∷ es) e (Memᴰ.head refl)).1)
      decided ((k, p) ∷ m) eq (lo, sorted) =
          let (owned, once) = owner-tiles k p m t sorted in
          (
            ap (λ l. cover_count (tiles true l) t) eq ∙ once,
            (
              in_force p m t,
              ap (λ l. owner (tiles true l) t) eq ∙ owned,
              Source-Decides (e ∷ es) k p m t eq sorted (in_force-Source k p m t sorted),
            ),
          )
