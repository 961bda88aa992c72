-- ===== src/Ingest/Counters/Changes.antt =====
-- `#getOrCreate` of packages/server/src/ingest/counters.ts: what a change of one project-month's tally
-- does to the counts of every project-month, and to the keys of the map.
use lyraflow.Prelude.{
  ℕ, ◌+◌, ◌≡◌, refl, sym, ap, inl, inr, true, ◌&&◌, Option, none, some, [], ◌∷◌, arith,
  if◌then◌else◌, Bool-cases, get_or_else, All, ◌==◌, ==_iff, ==_cases, nat_eq, string_eq,
}
use lyraflow.Prelude.Orders.{Units}
use lyraflow.Prelude.Decimal.{tagged, units_eq, tagged_inj}
use lyraflow.JsMap.{get, set}
use lyraflow.JsMap.Laws.{get-set}
use lyraflow.JsMap.Unique.{IsUnique, set-IsUnique}
use lyraflow.Ingest.Counters.{
  Kind, accepted, rejected, throttled, over_quota, bot, Tally, empty_tally, count_of, count_in,
  bump, plus, Entry, Tallies, Counters, fresh, change, look,
}

pub tagged-eq : (p q : ℕ) (m n : Units) → (tagged p m == tagged q n) ≡ (p == q && m == n)
tagged-eq p q m n = elim (==_cases (tagged p m) (tagged q n)) [
  | inl same ↦
      ground
        (arith, ==_iff (tagged p m) (tagged q n), ==_iff p q, ==_iff m n, tagged_inj p q m n same)
  | inr other ↦ elim (Bool-cases (p == q && m == n)) [
    | inl both ↦
        ground (arith, ==_iff p q, ==_iff m n, other (ground (arith, ==_iff p q, ==_iff m n)))
    | inr not_both ↦ ground (arith, ==_iff (tagged p m) (tagged q n))
  ]
]

-- What one tally adds to the count of a project-month.
abbrev pub share : Kind → ℕ → Units → ℕ → Units → Tally → ℕ
share kind p m q n t = if q == p && n == m then count_of kind t else 0

pub count_of-plus :
    (kind : Kind) (t u : Tally) → count_of kind (plus t u) ≡ count_of kind t + count_of kind u
count_of-plus accepted t u = refl
count_of-plus rejected t u = refl
count_of-plus throttled t u = refl
count_of-plus over_quota t u = refl
count_of-plus bot t u = refl

pub count_of-bump :
    (k kind : Kind) (n : ℕ) (t : Tally)
    → count_of k (bump kind n t) ≡ count_of k t + count_of k (bump kind n empty_tally)
count_of-bump k kind n t = ground arith

pub count_of-empty_tally : (kind : Kind) → count_of kind empty_tally ≡ 0
count_of-empty_tally kind = ground arith

pub look-change :
    (kind : Kind) (f : Tally → Tally) (d p q : ℕ) (m n : Units) (es : Tallies)
    → ((t : Tally) → count_of kind (f t) ≡ count_of kind t + d)
    → look kind p m (change f q n es) ≡ look kind p m es + (if q == p && n == m then d else 0)
unfolding look change fresh
look-change kind f d p q m n es h = elim (Bool-cases (q == p && n == m)) [
  | inl here ↦ rw (get-set, tagged-eq, here) (changed (get (tagged q n) es) (same here))
  | inr other ↦ rw (get-set, tagged-eq, other) (omega arith)
]
  where
    same : (q == p && n == m) ≡ true → get (tagged q n) es ≡ get (tagged p m) es
    same here =
        ap (λ k. get k es) (ground (arith, ==_iff (tagged q n) (tagged p m), tagged-eq q p n m))

    changed :
        (o : Option Entry)
        → o ≡ get (tagged p m) es
        → count_of kind (f (get_or_else o (fresh q n)).tally)
          ≡ count_in kind (get (tagged p m) es) + d
    changed none e = rw (sym e) (omega (arith, h empty_tally, count_of-empty_tally kind))
    changed (some x) e = rw (sym e) (h x.tally)

-- Every entry stands under the key of its own project-month.
abbrev pub IsKeyed : Tallies → Type 0
IsKeyed = All (λ b. b.0 ≡ tagged b.1.project_id b.1.month)

abbrev pub IsKept : Counters → Type 0
IsKept c = IsUnique c.tallies × IsKeyed c.tallies

set-IsKeyed :
    (k : Units) (e : Entry) (es : Tallies)
    → k ≡ tagged e.project_id e.month
    → IsKeyed es
    → IsKeyed (set k e es)
unfolding set
set-IsKeyed k e [] h hs = (h, tt)
set-IsKeyed k e ((j, x) ∷ es) h hs = ground (arith, ==_iff j k, set-IsKeyed k e es h hs.1)

get-IsKeyed :
    (k : Units) (e : Entry) (es : Tallies)
    → IsKeyed es
    → get k es ≡ some e
    → k ≡ tagged e.project_id e.month
unfolding get
get-IsKeyed k e [] hs h = cc
get-IsKeyed k e ((j, x) ∷ es) hs h = ground (arith, ==_iff j k, get-IsKeyed k e es hs.1)

pub change-IsKeyed :
    (f : Tally → Tally) (p : ℕ) (m : Units) (es : Tallies) → IsKeyed es → IsKeyed (change f p m es)
unfolding change fresh
change-IsKeyed f p m es hs = set-IsKeyed _ _ es (own (get (tagged p m) es) refl) hs
  where
    own :
        (o : Option Entry)
        → get (tagged p m) es ≡ o
        → tagged p m
          ≡ tagged (get_or_else o (fresh p m)).project_id (get_or_else o (fresh p m)).month
    own none e = refl
    own (some x) e = get-IsKeyed (tagged p m) x es hs e

pub change-IsUnique :
    (f : Tally → Tally) (p : ℕ) (m : Units) (es : Tallies)
    → IsUnique es
    → IsUnique (change f p m es)
unfolding change
change-IsUnique f p m es u = set-IsUnique _ _ es u
