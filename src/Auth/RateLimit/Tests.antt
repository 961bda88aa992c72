-- ===== src/Auth/RateLimit/Tests.antt =====
-- packages/server/src/auth/rate-limit.ts: concrete runs of the limiter.
use lyraflow.Prelude.{◌≡◌, refl, true, false, [], ◌∷◌, arith, ==_iff, nat_eq, string_eq}
use lyraflow.JsMap.{get, set, delete, first_key}
use lyraflow.Auth.RateLimit.{
  Config, Hits, namespace_of, namespace, drop_oldest, create, found, recent, live, check, evict,
  evict_loop, victim, first_under, first_other, newest, record_key, record_keys, reset,
}
use lyraflow.Auth.RateLimit.Lockout.{record_at, lockout}
use lyraflow.Auth.RateLimit.Record.{IsBounded, record_key-IsBounded}

-- What a run computes with.
limiter : Unit {0}
unfolding get set delete first_key namespace_of namespace drop_oldest create found recent live check
    evict evict_loop victim first_under first_other newest record_key record_keys reset
limiter = tt

-- Two attempts within 100 ms, two keys to a namespace.
abbrev tight : Config
tight = record { max_attempts = 2; window_ms = 100; max_keys = 2; max_namespaces = 32 }

namespaces : (namespace_of "ip:1.2.3.4" ≡ "ip") × (namespace_of "root" ≡ "root")
unfolding limiter
namespaces = (refl, refl)

-- `email:a` is blocked and `email:b` is not: a third key evicts `email:b`.
abbrev crowded : Hits
crowded = ("email", ("email:a", 10 ∷ 20 ∷ []) ∷ ("email:b", 30 ∷ []) ∷ []) ∷ []

third_key :
    record_key tight 40 "email:c" crowded
    ≡ ("email", ("email:a", 10 ∷ 20 ∷ []) ∷ ("email:c", 40 ∷ []) ∷ []) ∷ []
unfolding limiter
third_key = refl

reset_one : (check tight 50 ("email:a" ∷ []) (reset ("email:a" ∷ []) crowded)).0 ≡ true
unfolding limiter
reset_one = refl

crowded-IsBounded : IsBounded tight crowded
unfolding limiter
crowded-IsBounded name = ground (arith, ==_iff "email" name)

lockout_example :
    (check tight 50 ("email:z" ∷ []) (record_at tight (10 ∷ 20 ∷ 30 ∷ []) "email:z" crowded)).0
    ≡ false
unfolding limiter
lockout_example =
    lockout tight 50 (10 ∷ 20 ∷ 30 ∷ []) "email:z" crowded refl (omega arith) (omega arith)

record_key-IsBounded_example : IsBounded tight (record_key tight 40 "email:c" crowded)
record_key-IsBounded_example = record_key-IsBounded tight 40 "email:c" crowded crowded-IsBounded
