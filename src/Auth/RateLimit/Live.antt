-- ===== src/Auth/RateLimit/Live.antt =====
-- `#namespace`, `#live` and `check` of packages/server/src/auth/rate-limit.ts: what they read back.
use lyraflow.Prelude.{
  ℕ, ◌+◌, ◌≤◌, String, ◌≡◌, refl, ◌≢◌, ◌⊎◌, inl, inr, Option, none, some, List, [], ◌∷◌, arith,
  if◌then◌else◌, Option-cases, get_or_else, length, ◌==◌, ==_iff, ==_refl, nat_eq, string_eq,
}
use lyraflow.JsMap.{get, set, delete, first_key}
use lyraflow.JsMap.Laws.{get-set, get-delete, length-set-le, delete-delete, delete-set}
use lyraflow.Auth.RateLimit.{
  Config, Namespace, Hits, namespace_of, drop_oldest, create, namespace, found, recent,
  put_nonempty, live,
}

pub found-set :
    (name j : String) (ns : Namespace) (hits : Hits)
    → found j (set name ns hits) ≡ (if name == j then ns else found j hits)
unfolding found
found-set name j ns hits = ground (arith, get-set name j ns hits)

pub found-set_ne :
    (name j : String) (ns : Namespace) (hits : Hits)
    → name ≢ j
    → found j (set name ns hits) ≡ found j hits
found-set_ne name j ns hits ne = ground (arith, found-set name j ns hits, ==_iff name j)

found-delete :
    (name j : String) (hits : Hits)
    → found j (delete name hits) ≡ (if name == j then [] else found j hits)
unfolding found
found-delete name j hits = ground (arith, get-delete name j hits)

found-absent : (name : String) (hits : Hits) → get name hits ≡ none → found name hits ≡ []
unfolding found
found-absent name hits h = rw h

found-drop_oldest_self :
    (name : String) (o : Option String) (hits : Hits)
    → found name (drop_oldest name o hits) ≡ found name hits
unfolding drop_oldest
found-drop_oldest_self name none hits = refl
found-drop_oldest_self name (some oldest) hits = ground (arith, found-delete oldest name hits)

found-drop_oldest_other :
    (name j : String) (o : Option String) (hits : Hits)
    → (found j (drop_oldest name o hits) ≡ found j hits) ⊎ (found j (drop_oldest name o hits) ≡ [])
unfolding drop_oldest
found-drop_oldest_other name j none hits = inl refl
found-drop_oldest_other name j (some oldest) hits = ground (arith, found-delete oldest j hits)

namespace_cases {ℓ} :
    (P : Hits → Type ℓ) (c : Config) (name : String) (hits : Hits)
    → P hits
    → (get name hits ≡ none → P (create c name hits))
    → P (namespace c name hits)
unfolding namespace
namespace_cases P c name hits old new = elim (Option-cases (get name hits)) [
  | inr (ns, held) ↦ rw (held, namespace) old
  | inl absent ↦ rw (absent, namespace) (new absent)
]

module _ (c : Config) where
  -- `#namespace` reads back the namespace that it was asked for.
  pub found-namespace_self :
      (name : String) (hits : Hits) → found name (namespace c name hits) ≡ found name hits
  unfolding create
  found-namespace_self name hits =
      namespace_cases (λ h. found name h ≡ found name hits) c name hits refl
        λ absent. ground (
          arith,
          found-absent name hits absent,
          found-set name name [] hits,
          ==_refl name,
          found-drop_oldest_self name (first_key (set name [] hits)) (set name [] hits),
        )

  -- Another namespace is untouched, or was the oldest and is gone.
  pub found-namespace_other :
      (name j : String) (hits : Hits)
      → (found j (namespace c name hits) ≡ found j hits) ⊎ (found j (namespace c name hits) ≡ [])
  unfolding create
  found-namespace_other name j hits =
      namespace_cases (λ h. (found j h ≡ found j hits) ⊎ (found j h ≡ [])) c name hits (inl refl)
        λ absent. ground (
          arith,
          found-set name j [] hits,
          found-drop_oldest_other name j (first_key (set name [] hits)) (set name [] hits),
        )

  -- Below the cap on namespaces nothing is evicted.
  pub found-namespace_fits :
      (name j : String) (hits : Hits)
      → length hits + 1 ≤ c.max_namespaces
      → found j (namespace c name hits) ≡ found j hits
  unfolding create
  found-namespace_fits name j hits fits =
      namespace_cases (λ h. found j h ≡ found j hits) c name hits refl
        λ absent. ground (
          arith,
          found-absent name hits absent,
          found-set name j [] hits,
          ==_iff name j,
          length-set-le {V = Namespace} name [] hits,
        )

  recent_idem : (now : ℕ) (times : List ℕ) → recent c now (recent c now times) ≡ recent c now times
  unfolding recent
  recent_idem now [] = refl
  recent_idem now (t ∷ times) = ground (arith, recent_idem now times)

  -- The attempts that `#live` returns.
  pub live-0 :
      (now : ℕ) (key : String) (hits : Hits)
      → (live c now key hits).0
        ≡ recent c now (get_or_else (get key (found (namespace_of key) hits)) [])
  unfolding live
  live-0 now key hits = rw (found-namespace_self (namespace_of key) hits)

  -- Deleting the key from its namespace undoes the change that `#live` made there.
  pub delete-found-live :
      (now : ℕ) (key : String) (hits : Hits)
      → delete key (found (namespace_of key) (live c now key hits).1)
        ≡ delete key (found (namespace_of key) hits)
  unfolding live
  delete-found-live now key hits =
      go (recent c now (get_or_else (get key (found (namespace_of key) held)) []))
    where
      held : Hits
      held = namespace c (namespace_of key) hits

      go :
          (kept : List ℕ)
          → delete key (
              found (namespace_of key) (
                set
                  (namespace_of key)
                  (put_nonempty key kept (delete key (found (namespace_of key) held)))
                  held))
            ≡ delete key (found (namespace_of key) hits)
      go [] = ground (
        arith,
        found-set (namespace_of key) (namespace_of key) (delete key (found (namespace_of key) held))
            held,
        ==_refl (namespace_of key),
        found-namespace_self (namespace_of key) hits,
        delete-delete key (found (namespace_of key) hits),
      )
      go (t ∷ ts) = ground (
        arith,
        found-set (namespace_of key) (namespace_of key)
            (set key (t ∷ ts) (delete key (found (namespace_of key) held))) held,
        ==_refl (namespace_of key),
        found-namespace_self (namespace_of key) hits,
        delete-set key (t ∷ ts) (delete key (found (namespace_of key) hits)),
        delete-delete key (found (namespace_of key) hits),
      )

  pub found-live_other :
      (now : ℕ) (key j : String) (hits : Hits)
      → namespace_of key ≢ j
      → found j (live c now key hits).1 ≡ found j (namespace c (namespace_of key) hits)
  unfolding live
  found-live_other now key j hits ne = found-set_ne _ j _ _ ne
