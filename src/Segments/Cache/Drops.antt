-- ===== src/Segments/Cache/Drops.antt =====
-- packages/server/src/segments/cache.ts: what `#drop`, `#evict` and the loop of `clearProject` leave of
-- the entries and of the generations.
use lyraflow.Prelude.{
  ℕ, zero, suc, ◌≡◌, refl, sym, ap, ◌∙◌, subst, inl, inr, true, false, none, List, [], ◌∷◌, map,
  arith, Bool-cases, Option-cases, ◌==◌, ==_iff, ==_cases, nat_eq, string_eq,
}
use lyraflow.Prelude.Orders.{Units}
use lyraflow.Prelude.Decimal.{starts_with, units_eq}
use lyraflow.JsMap.{JsMap, get, first_key}
use lyraflow.Segments.Cache.{Entry, Cache, drop_key, is_over, evict_loop, drop_prefixed}
use lyraflow.Segments.Cache.Bounds.{drop_cases, get-drop_key}

module _ {A : Type 0} where
  pub drop_key-absent :
      (key j : Units) (c : Cache A) → get j c.entries ≡ none → get j (drop_key key c).entries ≡ none
  drop_key-absent key j c h = rw get-drop_key (ground (arith, ==_iff key j, h))

  pub generations-drop_key :
      (key : Units) (c : Cache A) → (drop_key key c).generations ≡ c.generations
  generations-drop_key key c =
      drop_cases (λ c'. c'.generations ≡ c.generations) key c (λ h. refl) (λ e h. refl)

  pub evict_loop-absent :
      (fuel : ℕ) (j : Units) (c : Cache A)
      → get j c.entries ≡ none
      → get j (evict_loop fuel c).entries ≡ none
  unfolding evict_loop
  evict_loop-absent zero j c h = h
  evict_loop-absent (suc fuel) j c h = elim (Bool-cases (is_over c)) [
    | inl over ↦ elim (Option-cases (first_key c.entries)) [
      | inl gone ↦ rw (over, gone, evict_loop) h
      | inr (k, first) ↦
          rw (over, first, evict_loop)
            (evict_loop-absent fuel j (drop_key k c) (drop_key-absent k j c h))
    ]
    | inr fits ↦ rw (fits, evict_loop) h
  ]

  pub generations-evict_loop :
      (fuel : ℕ) (c : Cache A) → (evict_loop fuel c).generations ≡ c.generations
  unfolding evict_loop
  generations-evict_loop zero c = refl
  generations-evict_loop (suc fuel) c = elim (Bool-cases (is_over c)) [
    | inl over ↦ elim (Option-cases (first_key c.entries)) [
      | inl gone ↦ rw (over, gone, evict_loop) refl
      | inr (k, first) ↦
          rw (over, first, evict_loop)
            (generations-evict_loop fuel (drop_key k c) ∙ generations-drop_key k c)
    ]
    | inr fits ↦ rw (fits, evict_loop) refl
  ]

  -- The key `j`, if it is among the keys that are gone through.
  pub drop_prefixed-own :
      (prefix j : Units) (m : JsMap Units (Entry A)) (c : Cache A)
      → starts_with prefix j ≡ true
      → (get j m ≡ none → get j c.entries ≡ none)
      → get j (drop_prefixed prefix (map (λ b. b.0) m) c).entries ≡ none
  unfolding drop_prefixed get
  drop_prefixed-own prefix j [] c own h = h refl
  drop_prefixed-own prefix j ((k, v) ∷ m) c own h = elim (==_cases k j) [
    | inl same ↦
        rw (subst (λ i. starts_with prefix i ≡ true) (sym same) own, drop_prefixed)
          (drop_prefixed-own prefix j m (drop_key k c) own
            (λ gone. rw get-drop_key (ground (arith, ==_iff k j))))
    | inr other ↦ elim (Bool-cases (starts_with prefix k)) [
      | inl dropped ↦
          rw (dropped, drop_prefixed)
            (drop_prefixed-own prefix j m (drop_key k c) own
              (λ gone. drop_key-absent k j c (h (ground (arith, ==_iff k j)))))
      | inr kept ↦
          rw (kept, drop_prefixed)
            (drop_prefixed-own prefix j m c own (λ gone. h (ground (arith, ==_iff k j))))
    ]
  ]

  pub drop_prefixed_other :
      (prefix j : Units) (keys : List Units) (c : Cache A)
      → starts_with prefix j ≡ false
      → get j (drop_prefixed prefix keys c).entries ≡ get j c.entries
  unfolding drop_prefixed
  drop_prefixed_other prefix j [] c other = refl
  drop_prefixed_other prefix j (k ∷ keys) c other = elim (Bool-cases (starts_with prefix k)) [
    | inl dropped ↦
        rw (dropped, drop_prefixed)
          (drop_prefixed_other prefix j keys (drop_key k c) other
            ∙ rw get-drop_key (rw (different dropped) refl))
    | inr kept ↦ rw (kept, drop_prefixed) (drop_prefixed_other prefix j keys c other)
  ]
    where
      different : starts_with prefix k ≡ true → (k == j) ≡ false
      different dropped = elim (Bool-cases (k == j)) [
        | inl same ↦ cc (dropped, other, ap (starts_with prefix) ((==_iff k j).0 same))
        | inr apart ↦ apart
      ]

  pub generations-drop_prefixed :
      (prefix : Units) (keys : List Units) (c : Cache A)
      → (drop_prefixed prefix keys c).generations ≡ c.generations
  unfolding drop_prefixed
  generations-drop_prefixed prefix [] c = refl
  generations-drop_prefixed prefix (k ∷ keys) c = elim (Bool-cases (starts_with prefix k)) [
    | inl dropped ↦
        rw (dropped, drop_prefixed)
          (generations-drop_prefixed prefix keys (drop_key k c) ∙ generations-drop_key k c)
    | inr kept ↦ rw (kept, drop_prefixed) (generations-drop_prefixed prefix keys c)
  ]

  pub drop_prefixed-absent :
      (prefix j : Units) (keys : List Units) (c : Cache A)
      → get j c.entries ≡ none
      → get j (drop_prefixed prefix keys c).entries ≡ none
  unfolding drop_prefixed
  drop_prefixed-absent prefix j [] c h = h
  drop_prefixed-absent prefix j (k ∷ keys) c h = elim (Bool-cases (starts_with prefix k)) [
    | inl dropped ↦
        rw (dropped, drop_prefixed)
          (drop_prefixed-absent prefix j keys (drop_key k c) (drop_key-absent k j c h))
    | inr kept ↦ rw (kept, drop_prefixed) (drop_prefixed-absent prefix j keys c h)
  ]
