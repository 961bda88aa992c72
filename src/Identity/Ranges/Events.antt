-- ===== src/Identity/Ranges/Events.antt =====
-- packages/core/src/identity/ranges.ts: what the map from an instant to a person holds after the loop over
-- the events.
use lyraflow.Prelude.{
  ℕ, ◌≡◌, refl, sym, ap, ◌∙◌, subst, ◌≢◌, ◌⊎◌, inl, inr, Bool, true, false, ◌&&◌, Option, none,
  some, List, [], ◌∷◌, Memᴰ, arith, if◌then◌else◌, ◌==◌, ==_cases, nat_eq, string_eq,
}
use lyraflow.Prelude.Orders.{Order}
use lyraflow.JsMap.{JsMap, get}
use lyraflow.JsMap.Laws.{get-set}
use lyraflow.JsMap.Unique.{IsUnique, set-IsUnique}
use lyraflow.Identity.Ranges.{BindEvent, smaller, note_event, by_bound_at}

module _ {P : Type 0} ⦃o : Order P⦄ where
  -- Somebody among the events at the instant, and nobody there is smaller.
  pub record IsLeast (k : ℕ) (p : P) (es : List (BindEvent P)) : Type 0 where
    pub event : BindEvent P
    pub listed : Memᴰ event es
    pub person : event.person_id ≡ p
    pub bound : event.bound_at ≡ k
    pub least : (e : BindEvent P) → Memᴰ e es → e.bound_at ≡ k → o.lt e.person_id p ≡ false

  -- There is a person, and `q` is not smaller.
  abbrev Below : Option P → P → Type 0
  Below none q = ⊥
  Below (some p) q = o.lt q p ≡ false

  get-note_event :
      (k : ℕ) (m : JsMap ℕ P) (e : BindEvent P)
      → get k (note_event m e)
        ≡ (if (e.bound_at == k) && smaller (get k m) e.person_id then some e.person_id else get k m)
  unfolding note_event
  get-note_event k m e = elim (==_cases e.bound_at k) [
    | inl same ↦ subst Noted same (ground (arith, get-set e.bound_at e.bound_at e.person_id m))
    | inr other ↦ ground (arith, get-set e.bound_at k e.person_id m)
  ]
    where
      Noted : ℕ → Type 0
      Noted j = get j (note_event m e) ≡ (
          if (e.bound_at == j) && smaller (get j m) e.person_id then some e.person_id else get j m)

  note_event-Below :
      (k : ℕ) (m : JsMap ℕ P) (e : BindEvent P) (q : P)
      → Below (get k m) q
      → Below (get k (note_event m e)) q
  note_event-Below k m e q h = rw (get-note_event k m e) (kept (get k m) h)
    where
      kept :
          (r : Option P)
          → Below r q
          → Below (if (e.bound_at == k) && smaller r e.person_id then some e.person_id else r) q
      kept none b = absurd b
      kept (some p) b = ground (arith, o.lt_trans q e.person_id p)

  note_event-Below_self :
      (m : JsMap ℕ P) (e : BindEvent P) → Below (get e.bound_at (note_event m e)) e.person_id
  note_event-Below_self m e = rw (get-note_event e.bound_at m e) (held (get e.bound_at m))
    where
      held :
          (r : Option P)
          → Below
              (if (e.bound_at == e.bound_at) && smaller r e.person_id then some e.person_id else r)
              e.person_id
      held none = ground (arith, o.lt_irrefl e.person_id)
      held (some p) = ground (arith, o.lt_irrefl e.person_id)

  by_bound_at-Below :
      (k : ℕ) (es : List (BindEvent P)) (m : JsMap ℕ P) (q : P)
      → Below (get k m) q
      → Below (get k (by_bound_at m es)) q
  unfolding by_bound_at
  by_bound_at-Below k [] m q h = h
  by_bound_at-Below k (e ∷ es) m q h =
      by_bound_at-Below k es (note_event m e) q (note_event-Below k m e q h)

  by_bound_at-Below_mem :
      (e : BindEvent P) (es : List (BindEvent P)) (m : JsMap ℕ P)
      → Memᴰ e es
      → Below (get e.bound_at (by_bound_at m es)) e.person_id
  unfolding by_bound_at
  by_bound_at-Below_mem e [] m i = elim i [ ]
  by_bound_at-Below_mem e (f ∷ es) m (Memᴰ.head same) =
      by_bound_at-Below e.bound_at es (note_event m f) e.person_id (
        subst (λ g. Below (get e.bound_at (note_event m g)) e.person_id) same
          (note_event-Below_self m e))
  by_bound_at-Below_mem e (f ∷ es) m (Memᴰ.tail i) = by_bound_at-Below_mem e es (note_event m f) i

  by_bound_at_origin :
      (k : ℕ) (es : List (BindEvent P)) (m : JsMap ℕ P) (p : P)
      → get k (by_bound_at m es) ≡ some p
      → (get k m ≡ some p) ⊎ ((e : BindEvent P) × Memᴰ e es × (e.person_id ≡ p) × (e.bound_at ≡ k))
  unfolding by_bound_at
  by_bound_at_origin k [] m p h = inl h
  by_bound_at_origin k (f ∷ es) m p h = earlier (by_bound_at_origin k es (note_event m f) p h)
    where
      Origin : Type 0
      Origin =
          (get k m ≡ some p)
          ⊎ ((e : BindEvent P) × Memᴰ e (f ∷ es) × (e.person_id ≡ p) × (e.bound_at ≡ k))

      noted :
          (b : Bool)
          → ((f.bound_at == k) && smaller (get k m) f.person_id) ≡ b
          → (if b then some f.person_id else get k m) ≡ some p
          → Origin
      noted true t e = inr (f, Memᴰ.head refl, ground arith, ground arith)
      noted false t e = inl e

      earlier :
          (get k (note_event m f) ≡ some p)
            ⊎ ((e : BindEvent P) × Memᴰ e es × (e.person_id ≡ p) × (e.bound_at ≡ k))
          → Origin
      earlier (inl e) = noted _ refl (sym (get-note_event k m f) ∙ e)
      earlier (inr (e, i, same, here)) = inr (e, Memᴰ.tail i, same, here)

  -- The map holds the least person at each instant,
  pub by_bound_at-IsLeast :
      (k : ℕ) (es : List (BindEvent P)) (p : P)
      → get k (by_bound_at [] es) ≡ some p
      → IsLeast k p es
  unfolding get
  by_bound_at-IsLeast k es p h = from (by_bound_at_origin k es [] p h)
    where
      from :
          (none ≡ some p) ⊎ ((e : BindEvent P) × Memᴰ e es × (e.person_id ≡ p) × (e.bound_at ≡ k))
          → IsLeast k p es
      from (inl e) = cc
      from (inr (e, i, same, here)) = record {
        event = e;
        listed = i;
        person = same;
        bound = here;
        least = λ f j there.
            subst (λ r. Below r f.person_id) (ap (λ n. get n (by_bound_at [] es)) there ∙ h)
              (by_bound_at-Below_mem f es [] j);
      }

  -- and holds one wherever there is an event.
  pub by_bound_at-ne-none :
      (e : BindEvent P) (es : List (BindEvent P))
      → Memᴰ e es
      → get e.bound_at (by_bound_at [] es) ≢ none
  by_bound_at-ne-none e es i h =
      subst (λ r. Below r e.person_id) h (by_bound_at-Below_mem e es [] i)

  pub by_bound_at-IsUnique :
      (es : List (BindEvent P)) (m : JsMap ℕ P) → IsUnique m → IsUnique (by_bound_at m es)
  unfolding by_bound_at note_event
  by_bound_at-IsUnique [] m u = u
  by_bound_at-IsUnique (e ∷ es) m u =
      by_bound_at-IsUnique es (note_event m e)
        (ground (arith, set-IsUnique e.bound_at e.person_id m u))

  -- Two lists with the same events give the same answer at every instant.
  pub get-by_bound_at :
      (xs ys : List (BindEvent P))
      → ((e : BindEvent P) → Memᴰ e xs → Memᴰ e ys)
      → ((e : BindEvent P) → Memᴰ e ys → Memᴰ e xs)
      → (k : ℕ) → get k (by_bound_at [] xs) ≡ get k (by_bound_at [] ys)
  get-by_bound_at xs ys to back k =
      compare_found (get k (by_bound_at [] xs)) (get k (by_bound_at [] ys)) refl refl
    where
      compare_found :
          (r s : Option P) → get k (by_bound_at [] xs) ≡ r → get k (by_bound_at [] ys) ≡ s → r ≡ s
      compare_found none none h g = refl
      compare_found none (some q) h g =
          let v = by_bound_at-IsLeast k ys q g in
          absurd (by_bound_at-ne-none v.event xs (back v.event v.listed) (rw v.bound h))
      compare_found (some p) none h g =
          let v = by_bound_at-IsLeast k xs p h in
          absurd (by_bound_at-ne-none v.event ys (to v.event v.listed) (rw v.bound g))
      compare_found (some p) (some q) h g =
          let v = by_bound_at-IsLeast k xs p h in
          let w = by_bound_at-IsLeast k ys q g in
          ground (
            arith,
            o.lt_total p q,
            w.least v.event (to v.event v.listed) v.bound,
            v.person,
            v.least w.event (back w.event w.listed) w.bound,
            w.person,
          )
