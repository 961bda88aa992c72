-- ===== src/Auth/ProjectCache/Scan.antt =====
-- packages/server/src/auth/project-cache.ts: what unknown keys and failing queries cannot do to a
-- project that is cached.
use lyraflow.Prelude.{
  ℕ, zero, suc, ◌≡◌, refl, ap, ◌∙◌, subst, ◌≢◌, ◌⊎◌, inl, inr, Option, none, some, List, [], ◌∷◌,
  arith, Bool-cases, get_or_else, get_elem?, All, All-append, ==_iff, ==_cases, nat_eq, string_eq,
}
use lyraflow.Prelude.Orders.{Units}
use lyraflow.Prelude.Decimal.{units_eq}
use lyraflow.JsMap.{get}
use lyraflow.JsMap.Laws.{get-set, get-delete}
use lyraflow.Auth.ProjectCache.{
  Entry, Entries, Config, Hit, ProjectCache, Credential, cache_key, touch, read_both, read, store,
  serve, begin_lookup, Answer, answered, failed, end_at, without, end_lookup, Event, begins, ends,
  invalidates, step, run,
}

get-touch :
    (j k : Units) (e : Entry) (m : Entries) → get k m ≡ some e → get j (touch k e m) ≡ get j m
get-touch j k e m there = elim (==_cases k j) [
  | inl same ↦ rw get-set (ground (arith, ==_iff k j, subst (λ i. get i m ≡ some e) same there))
  | inr other ↦ rw (get-set, get-delete) (ground (arith, ==_iff k j))
]

read-positive :
    (o : Config) (now : ℕ) (key j : Units) (c : ProjectCache)
    → get j (read o now key c).1.positive ≡ get j c.positive
unfolding read
read-positive o now key j c = go (get key c.positive) (get key c.negative) refl
  where
    go :
        (a b : Option Entry)
        → get key c.positive ≡ a
        → get j (read_both o now key a b c).1.positive ≡ get j c.positive
    go (some e) b ha = get-touch j key e c.positive ha
    go none (some e) ha = refl
    go none none ha = refl

read-waiting :
    (o : Config) (now : ℕ) (key : Units) (c : ProjectCache)
    → (read o now key c).1.waiting ≡ c.waiting
unfolding read
read-waiting o now key c = go (get key c.positive) (get key c.negative)
  where
    go : (a b : Option Entry) → (read_both o now key a b c).1.waiting ≡ c.waiting
    go (some e) b = refl
    go none (some e) = refl
    go none none = refl

-- The entry of `j` is held, and no query for `j` is awaited.
abbrev Keeps : Units → Entry → ProjectCache → Type 0
Keeps j e c = (get j c.positive ≡ some e) × All (λ w. w.0 ≢ j) c.waiting

-- The query of a credential that names no project.
abbrev pub IsMissing : Answer → Type 0
IsMissing answer = (answer ≡ answered none) ⊎ (answer ≡ failed)

-- An event of a scan: a credential other than the one cached under `j` is looked up, or a query ends
-- without a project.
abbrev pub IsScan : Units → Event → Type 0
IsScan j (begins now credential) = cache_key credential ≢ j
IsScan j (ends now i answer) = IsMissing answer
IsScan j invalidates = invalidates ≢ invalidates

begins-Keeps :
    (o : Config) (now : ℕ) (credential : Credential) (j : Units) (e : Entry) (c : ProjectCache)
    → cache_key credential ≢ j
    → Keeps j e c
    → Keeps j e (begin_lookup o now credential c).1
unfolding begin_lookup
begins-Keeps o now credential j e c ne (held, others) =
    served (read o now (cache_key credential) c).0 _
      (read-positive o now (cache_key credential) j c ∙ held, rw read-waiting others)
  where
    served :
        (hit : Option Hit) (d : ProjectCache)
        → Keeps j e d
        → Keeps j e (serve (cache_key credential) hit d).1
    served none d (h, w) =
        (h, All-append _ d.waiting ((cache_key credential, none) ∷ []) w (ne, tt))
    served (some hit) d (h, w) = elim (Bool-cases hit.is_fresh) [
      | inl fresh ↦ rw fresh (h, w)
      | inr stale ↦ rw stale (h, All-append _ d.waiting _ w (ne, tt))
    ]

without-All :
    (j : Units) (i : ℕ) (ws : List (Units × Option Hit))
    → All (λ w. w.0 ≢ j) ws
    → All (λ w. w.0 ≢ j) (without i ws)
without-All j i [] h = tt
without-All j zero (w ∷ ws) h = h.1
without-All j (suc i) (w ∷ ws) h = (h.0, without-All j i ws h.1)

get_elem?-All :
    (j : Units) (i : ℕ) (ws : List (Units × Option Hit)) (w : Units × Option Hit)
    → All (λ w. w.0 ≢ j) ws
    → get_elem? ws i ≡ some w
    → w.0 ≢ j
get_elem?-All j i [] w h e = cc
get_elem?-All j zero (x ∷ ws) w h e =
    subst {A = Units × Option Hit} (λ v. v.0 ≢ j) (ap (λ q. get_or_else q x) e) h.0
get_elem?-All j (suc i) (x ∷ ws) w h e = get_elem?-All j i ws w h.1 e

ends-Keeps :
    (now i : ℕ) (answer : Answer) (j : Units) (e : Entry) (c : ProjectCache)
    → IsMissing answer
    → Keeps j e c
    → Keeps j e (end_lookup now i answer c).1
unfolding end_lookup store
ends-Keeps now i answer j e c missing (held, others) =
    go (get_elem? c.waiting i) refl answer missing
  where
    go :
        (w : Option (Units × Option Hit))
        → get_elem? c.waiting i ≡ w
        → (a : Answer) → IsMissing a
        → Keeps j e (end_at now w (without i c.waiting) a c).1
    go none at_i a m = (held, others)
    go (some (key, none)) at_i failed m = (held, without-All j i c.waiting others)
    go (some (key, some hit)) at_i failed m = (held, without-All j i c.waiting others)
    go (some (key, hit)) at_i (answered (some p)) (inl m) = cc
    go (some (key, hit)) at_i (answered (some p)) (inr m) = cc
    go (some (key, hit)) at_i (answered none) m = (
      rw get-delete
          (ground (arith, ==_iff key j, get_elem?-All j i c.waiting (key, hit) others at_i, held)),
      without-All j i c.waiting others,
    )

step-Keeps :
    (o : Config) (ev : Event) (j : Units) (e : Entry) (c : ProjectCache)
    → IsScan j ev
    → Keeps j e c
    → Keeps j e (step o ev c)
unfolding step
step-Keeps o (begins now credential) j e c scan k = begins-Keeps o now credential j e c scan k
step-Keeps o (ends now i answer) j e c scan k = ends-Keeps now i answer j e c scan k
step-Keeps o invalidates j e c scan k = elim (scan refl) [ ]

-- A scan cannot evict a project: while other credentials are looked up and every query ends without
-- a project, or fails, an entry of the positive map stays as it is, if no query for its own key is
-- awaited.
pub get-run_scan :
    (o : Config) (es : List Event) (j : Units) (e : Entry) (c : ProjectCache)
    → get j c.positive ≡ some e
    → All (λ w. w.0 ≢ j) c.waiting
    → All (IsScan j) es
    → get j (run o es c).positive ≡ some e
unfolding run
get-run_scan o [] j e c held others scan = held
get-run_scan o (ev ∷ es) j e c held others (now_scan, scan) =
    let (held', others') = step-Keeps o ev j e c now_scan (held, others) in
    get-run_scan o es j e (step o ev c) held' others' scan
