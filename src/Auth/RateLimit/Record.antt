-- ===== src/Auth/RateLimit/Record.antt =====
-- `record` of packages/server/src/auth/rate-limit.ts: its effect on the key's namespace, the bound
-- on memory, and the keys that it leaves alone.
use lyraflow.Prelude.{
  ℕ, ◌+◌, ◌-◌, ◌≤◌, ◌<◌, min, max, String, ◌≡◌, refl, ap, ◌∙◌, subst, ◌≢◌, ◌⊎◌, inl, inr, some,
  List, [], ◌∷◌, ◌++◌, arith, get_or_else, length, length-append, length-drop, All, All-append,
  All-drop, ==_iff, ==_refl, ==_cases, nat_eq, string_eq,
}
use lyraflow.JsMap.{get, set, delete}
use lyraflow.JsMap.Laws.{get-set, get-delete, length-set-le, length-delete-le}
use lyraflow.JsMap.Unique.{IsUnique, set-IsUnique, delete-IsUnique}
use lyraflow.Auth.RateLimit.Evict.{
  attempts, get-evict_just, evict-IsUnique, length-evict, get-evict_blocked,
}
use lyraflow.Auth.RateLimit.Live.{
  found-set, found-set_ne, found-live_other, found-namespace_self, found-namespace_other, live-0,
  delete-found-live,
}
use lyraflow.Auth.RateLimit.{
  Config, Namespace, Hits, namespace_of, namespace, found, recent, evict, newest, record_key,
}

module _ (c : Config) where
  -- The namespace of the key after its attempt is added and before anything is evicted.
  added : ℕ → String → Namespace → Namespace
  added now key ns =
      set key (newest c (recent c now (get_or_else (get key ns) []) ++ now ∷ [])) (delete key ns)

  found-record_key :
      (now : ℕ) (key : String) (hits : Hits)
      → found (namespace_of key) (record_key c now key hits)
        ≡ evict c now key (added now key (found (namespace_of key) hits))
  unfolding record_key added
  found-record_key now key hits =
      simp (found-set, ==_refl, live-0, delete-found-live, found-namespace_self)

  -- Other namespaces keep their entries, or were evicted whole for a new one.
  found-record_key_other :
      (now : ℕ) (key j : String) (hits : Hits)
      → namespace_of key ≢ j
      → (found j (record_key c now key hits) ≡ found j hits)
        ⊎ (found j (record_key c now key hits) ≡ [])
  unfolding record_key
  found-record_key_other now key j hits ne =
      rw (found-set_ne (namespace_of key) j _ _ ne, found-live_other c now key j _ ne)
        (ground (
          arith,
          found-namespace_other c (namespace_of key) j (namespace c (namespace_of key) hits),
          found-namespace_other c (namespace_of key) j hits,
        ))

  -- Every namespace is a map with at most `max_keys` keys.
  abbrev pub IsBounded : Hits → Type 0
  IsBounded hits =
      (name : String) → IsUnique (found name hits) × (length (found name hits) ≤ max 1 c.max_keys)

  -- Recording a key leaves every namespace a map without repeated keys and with at most `max_keys`
  -- of them, or with one if `max_keys` is 0, where that held before.
  pub record_key-IsBounded :
      (now : ℕ) (key : String) (hits : Hits)
      → IsBounded hits
      → IsBounded (record_key c now key hits)
  unfolding added
  record_key-IsBounded now key hits b name = elim (==_cases (namespace_of key) name) [
    | inl same ↦ subst Good same (
        rw (found-record_key now key hits)
          (evict-IsUnique c now key _ unique, length-evict c now key _ unique))
    | inr other ↦ kept (found-record_key_other now key name hits other)
  ]
    where
      Good : String → Type 0
      Good n =
          IsUnique (found n (record_key c now key hits))
          × (length (found n (record_key c now key hits)) ≤ max 1 c.max_keys)

      unique : IsUnique (added now key (found (namespace_of key) hits))
      unique = set-IsUnique key _ _ (delete-IsUnique key _ (b (namespace_of key)).0)

      kept :
          (found name (record_key c now key hits) ≡ found name hits)
            ⊎ (found name (record_key c now key hits) ≡ [])
          → Good name
      kept (inl same) = rw same (b name)
      kept (inr gone) = rw gone (tt, omega arith)

  length-newest : (times : List ℕ) → length (newest c times) ≡ min (length times) c.max_attempts
  unfolding newest
  length-newest times = ground (arith, length-drop (length times - c.max_attempts) times)

  abbrev pub AllRecent : ℕ → List ℕ → Type 0
  AllRecent now = All (λ t. now < t + c.window_ms)

  recent-AllRecent : (now : ℕ) (times : List ℕ) → AllRecent now (recent c now times)
  unfolding recent
  recent-AllRecent now [] = tt
  recent-AllRecent now (t ∷ times) = ground (arith, recent-AllRecent now times)

  -- What is inside the window later is inside it now.
  pub recent_of_AllRecent :
      (now later : ℕ) (times : List ℕ)
      → now ≤ later
      → AllRecent later times
      → recent c now times ≡ times
  unfolding recent
  recent_of_AllRecent now later [] le h = refl
  recent_of_AllRecent now later (t ∷ times) le h =
      ground (arith, recent_of_AllRecent now later times le h.1)

  newest-AllRecent :
      (now : ℕ) (times : List ℕ) → AllRecent now times → AllRecent now (newest c times)
  unfolding newest
  newest-AllRecent now times h = ground (arith, All-drop _ (length times - c.max_attempts) times h)

  get-added :
      (now : ℕ) (key : String) (ns : Namespace)
      → get key (added now key ns)
        ≡ some (newest c (recent c now (get_or_else (get key ns) []) ++ now ∷ []))
  unfolding added
  get-added now key ns = simp (get-set, ==_refl)

  get-added_ne :
      (now : ℕ) (key k : String) (ns : Namespace) → k ≢ key → get k (added now key ns) ≡ get k ns
  unfolding added
  get-added_ne now key k ns ne = ground (
    arith,
    get-set key k (newest c (recent c now (get_or_else (get key ns) []) ++ now ∷ []))
        (delete key ns),
    get-delete key k ns,
    ==_iff key k,
  )

  length-added-le :
      (now : ℕ) (key : String) (ns : Namespace) → length (added now key ns) ≤ length ns + 1
  unfolding added
  length-added-le now key ns =
      omega (arith, length-set-le key _ (delete key ns), length-delete-le {V = List ℕ} key ns)

  added-IsUnique :
      (now : ℕ) (key : String) (ns : Namespace) → IsUnique ns → IsUnique (added now key ns)
  unfolding added
  added-IsUnique now key ns u = set-IsUnique key _ _ (delete-IsUnique key ns u)

  pub get-found-record_key :
      (now : ℕ) (key : String) (hits : Hits)
      → get key (found (namespace_of key) (record_key c now key hits))
        ≡ some (
            newest c
              (recent c now (get_or_else (get key (found (namespace_of key) hits)) []) ++ now ∷ []))
  get-found-record_key now key hits =
      rw (found-record_key now key hits, get-evict_just) (get-added now key _)

  -- The attempts that are left when one is added, all of them inside the window.
  pub length-recent-newest :
      (now later t : ℕ) (times : List ℕ)
      → now ≤ later
      → AllRecent later times
      → later < t + c.window_ms
      → AllRecent later (newest c (recent c now times ++ t ∷ []))
        × (length (newest c (recent c now times ++ t ∷ [])) ≡ min (length times + 1) c.max_attempts)
  length-recent-newest now later t times le h pos = rw (recent_of_AllRecent now later times le h) (
    newest-AllRecent later (times ++ t ∷ []) (All-append _ times (t ∷ []) h (pos, tt)),
    omega (arith, length-newest (times ++ t ∷ []), length-append times (t ∷ [])),
  )

  -- With a positive window, recording a key raises its attempts inside the window by one, up to the
  -- limit: the attempt that is recorded is never the one that is evicted.
  pub attempts-record_key :
      (now : ℕ) (key : String) (hits : Hits)
      → 0 < c.window_ms
      → attempts c now key (found (namespace_of key) (record_key c now key hits))
        ≡ min (attempts c now key (found (namespace_of key) hits) + 1) c.max_attempts
  attempts-record_key now key hits pos =
      rw (get-found-record_key now key hits) (counted old (recent-AllRecent now old))
    where
      old : List ℕ
      old = get_or_else (get key (found (namespace_of key) hits)) []

      counted :
          (times : List ℕ)
          → AllRecent now (recent c now times)
          → length (recent c now (newest c (recent c now times ++ now ∷ [])))
            ≡ min (length (recent c now times) + 1) c.max_attempts
      counted times h =
          let (all_in, size) =
            length-recent-newest now now now (recent c now times) (omega arith) h (omega arith) in
          let same = recent_of_AllRecent now now (recent c now times) (omega arith) h in
          omega (
            arith,
            size,
            ap (λ ts. length (newest c (ts ++ now ∷ []))) same,
            ap length (
                recent_of_AllRecent now now (newest c (recent c now times ++ now ∷ []))
                  (omega arith)
                  (newest-AllRecent now _
                    (All-append _ (recent c now times) (now ∷ []) h (omega arith, tt)))),
          )

  -- Recording another key leaves a blocked key of its namespace with the same attempts, where the
  -- maps are within their bounds, `max_keys` is positive and a third key of the namespace is under
  -- the limit.
  pub attempts-record_key_blocked :
      (now : ℕ) (key k j : String) (hits : Hits) (times : List ℕ)
      → IsBounded hits
      → 0 < c.max_keys
      → k ≢ key
      → j ≢ key
      → c.max_attempts ≤ attempts c now k (found (namespace_of key) hits)
      → get j (found (namespace_of key) hits) ≡ some times
      → length (recent c now times) < c.max_attempts
      → attempts c now k (found (namespace_of key) (record_key c now key hits))
        ≡ attempts c now k (found (namespace_of key) hits)
  attempts-record_key_blocked now key k j hits times b pos ne other blocked held under =
      rw (found-record_key now key hits, kept)
    where
      ns : Namespace
      ns = found (namespace_of key) hits

      same : get k (added now key ns) ≡ get k ns
      same = get-added_ne now key k ns ne

      kept : get k (evict c now key (added now key ns)) ≡ get k ns
      kept =
          get-evict_blocked c now key (added now key ns) k j times
            (added-IsUnique now key ns (b (namespace_of key)).0)
            (omega (arith, length-added-le now key ns, (b (namespace_of key)).1)) (rw same blocked)
            other (rw (get-added_ne now key j ns other) held) under
          ∙ same
