-- ===== src/Auth/RateLimit/Lockout.antt =====
-- Repeated calls of `record` of packages/server/src/auth/rate-limit.ts for one key, and the `check`
-- that follows them.
use lyraflow.Prelude.{
  ℕ, ◌+◌, ◌≤◌, ◌<◌, min, String, ◌≡◌, ap, false, none, List, [], ◌∷◌, ◌++◌, arith, get_or_else,
  length, All, nat_eq, string_eq,
}
use lyraflow.JsMap.{get}
use lyraflow.Auth.RateLimit.Live.{live-0}
use lyraflow.Auth.RateLimit.Record.{
  AllRecent, recent_of_AllRecent, length-recent-newest, get-found-record_key,
}
use lyraflow.Auth.RateLimit.{
  Config, Hits, namespace_of, found, recent, check, newest, record_key, record_keys,
}

module _ (c : Config) where
  -- Failed attempts of one key, at the given times.
  pub record_at : List ℕ → String → Hits → Hits
  record_at [] key hits = hits
  record_at (t ∷ times) key hits = record_at times key (record_keys c t (key ∷ []) hits)

  -- The attempts stored for the key, when all fall inside the window at `now`.
  stored : String → Hits → List ℕ
  stored key hits = get_or_else (get key (found (namespace_of key) hits)) []

  stored-record_key :
      (t : ℕ) (key : String) (hits : Hits)
      → stored key (record_key c t key hits) ≡ newest c (recent c t (stored key hits) ++ t ∷ [])
  unfolding stored
  stored-record_key t key hits = ap (λ o. get_or_else o []) (get-found-record_key c t key hits)

  -- `n` attempts are held, or as many as the limit, all inside the window at `now`.
  abbrev Holds : ℕ → ℕ → String → Hits → Type 0
  Holds now n key hits =
      AllRecent c now (stored key hits) × (length (stored key hits) ≡ min n c.max_attempts)

  record_key-Holds :
      (now t n : ℕ) (key : String) (hits : Hits)
      → t ≤ now
      → now < t + c.window_ms
      → Holds now n key hits
      → Holds now (n + 1) key (record_key c t key hits)
  record_key-Holds now t n key hits le pos (h, size) =
      let (kept, grown) = length-recent-newest c t now t (stored key hits) le h pos in
      rw (stored-record_key t key hits) (kept, omega arith)

  record_at-Holds :
      (now n : ℕ) (times : List ℕ) (key : String) (hits : Hits)
      → All (λ t. (t ≤ now) × (now < t + c.window_ms)) times
      → Holds now n key hits
      → Holds now (n + length times) key (record_at times key hits)
  unfolding record_at record_keys
  record_at-Holds now n [] key hits ts (h, size) = (h, omega arith)
  record_at-Holds now n (t ∷ times) key hits ((le, pos), ts) h =
      let (kept, grown) =
        record_at-Holds now (n + 1) times key (record_key c t key hits) ts
          (record_key-Holds now t n key hits le pos h) in
      (kept, omega arith)

  -- A key with no stored attempts that then fails at least as often as the limit, at times that all
  -- lie within one window before `now`, is refused by `check` at `now`, whatever the order of the
  -- times and whatever other keys are stored.
  pub lockout :
      (now : ℕ) (times : List ℕ) (key : String) (hits : Hits)
      → get key (found (namespace_of key) hits) ≡ none
      → All (λ t. (t ≤ now) × (now < t + c.window_ms)) times
      → c.max_attempts ≤ length times
      → (check c now (key ∷ []) (record_at times key hits)).0 ≡ false
  unfolding check stored
  lockout now times key hits new ts enough =
      let (kept, size) = record_at-Holds now 0 times key hits ts none_stored in
      ground (
        arith,
        ap length (live-0 c now key (record_at times key hits)),
        ap length (
            recent_of_AllRecent c now now (stored key (record_at times key hits)) (omega arith)
              kept),
      )
    where
      none_stored : Holds now 0 key hits
      none_stored = rw (new, stored) (tt, omega arith)
