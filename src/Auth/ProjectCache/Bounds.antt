-- ===== src/Auth/ProjectCache/Bounds.antt =====
-- packages/server/src/auth/project-cache.ts: the bounds of its two maps, and what each holds.
use lyraflow.Prelude.{
  ℕ, zero, suc, ◌≤◌, ◌<◌, ◌≡◌, refl, ap, subst, inl, inr, true, not, Option, none, some, List, [],
  ◌∷◌, arith, leb, Bool-cases, Option-cases, is_some, length, All, All-filter, ◌==◌, nat_eq,
  string_eq,
}
use lyraflow.Prelude.Orders.{Units}
use lyraflow.Prelude.Decimal.{units_eq}
use lyraflow.JsMap.{get, set, delete, first_key}
use lyraflow.JsMap.Laws.{
  length-set-le, length-delete-le, length-delete-lt, first_key-get, first_key-none,
}
use lyraflow.Auth.ProjectCache.{
  Project, Entry, Entries, Config, Hit, ProjectCache, max_positive_entries, max_negative_entries,
  invalidate, cache_key, touch, read_both, read, trim, put, store, serve, begin_lookup, Answer,
  project_of, answered, failed, end_at, end_lookup, Event, begins, ends, invalidates, step, run,
}

module _ (P : Entry → Type 0) where
  abbrev pub AllEntries : Entries → Type 0
  AllEntries = All (λ b. P b.1)

  set-AllEntries :
      (k : Units) (e : Entry) (m : Entries) → P e → AllEntries m → AllEntries (set k e m)
  unfolding set
  set-AllEntries k e [] h hs = (h, tt)
  set-AllEntries k e ((j, x) ∷ m) h hs = ground (arith, set-AllEntries k e m h hs.1)

  delete-AllEntries : (k : Units) (m : Entries) → AllEntries m → AllEntries (delete k m)
  unfolding delete
  delete-AllEntries k m hs = All-filter (λ b. P b.1) (λ b. not (b.0 == k)) m hs

  get-AllEntries : (k : Units) (e : Entry) (m : Entries) → AllEntries m → get k m ≡ some e → P e
  unfolding get
  get-AllEntries k e [] hs h = cc
  get-AllEntries k e ((j, x) ∷ m) (hx, hs) h = elim (Bool-cases (j == k)) [
    | inl same ↦ subst P (ground arith) hx
    | inr other ↦ get-AllEntries k e m hs (ground arith)
  ]

  -- A map of entries that satisfy the predicate, and of at most `cap` of them.
  abbrev pub Fits : ℕ → Entries → Type 0
  Fits cap m = AllEntries m × (length m ≤ cap)

  delete-Fits : (cap : ℕ) (k : Units) (m : Entries) → Fits cap m → Fits cap (delete k m)
  delete-Fits cap k m (hs, le) = (delete-AllEntries k m hs, omega (arith, length-delete-le k m))

  touch-Fits :
      (cap : ℕ) (k : Units) (e : Entry) (m : Entries)
      → get k m ≡ some e
      → Fits cap m
      → Fits cap (touch k e m)
  touch-Fits cap k e m there (hs, le) = (
    set-AllEntries k e (delete k m) (get-AllEntries k e m hs there) (delete-AllEntries k m hs),
    omega (arith, length-set-le k e (delete k m), length-delete-lt k m e there),
  )

  trim-Fits :
      (fuel cap : ℕ) (m : Entries)
      → length m ≤ fuel
      → 0 < cap
      → AllEntries m
      → AllEntries (trim fuel cap m) × (length (trim fuel cap m) < cap)
  unfolding trim
  trim-Fits zero cap m le pos hs = (hs, omega arith)
  trim-Fits (suc fuel) cap m le pos hs = elim (Bool-cases (leb cap (length m))) [
    | inl full ↦ elim (Option-cases (first_key m)) [
      | inl gone ↦ rw (full, gone, trim) (hs, omega (arith, ap length (first_key-none m gone)))
      | inr (k, first) ↦
          let (v, there) = first_key-get m k first in
          rw (full, first, trim)
            (trim-Fits fuel cap (delete k m) (omega (arith, length-delete-lt k m v there)) pos
              (delete-AllEntries k m hs))
    ]
    | inr room ↦ rw (room, trim) (hs, ground arith)
  ]

  put-Fits :
      (cap now : ℕ) (key : Units) (value : Option Project) (m : Entries)
      → 0 < cap
      → P (record { value = value; fetched_at = now })
      → Fits cap m
      → Fits cap (put cap now key value m)
  unfolding put
  put-Fits cap now key value m pos own (hs, le) =
      let (kept, room) =
        trim-Fits (length (delete key m)) cap (delete key m) (omega arith) pos
          (delete-AllEntries key m hs) in
      (
        set-AllEntries key (record { value = value; fetched_at = now }) _ own kept,
        omega (
          arith,
          length-set-le key (record { value = value; fetched_at = now })
              (trim (length (delete key m)) cap (delete key m)),
          room,
        ),
      )

abbrev IsProject : Entry → Type 0
IsProject e = is_some e.value ≡ true

abbrev IsMiss : Entry → Type 0
IsMiss e = e.value ≡ none

-- The positive map holds at most 1000 entries, all with a project; the negative one at most 128, none
-- with a project.
abbrev pub IsCapped : ProjectCache → Type 0
IsCapped c =
    Fits IsProject max_positive_entries c.positive × Fits IsMiss max_negative_entries c.negative

read-IsCapped :
    (o : Config) (now : ℕ) (key : Units) (c : ProjectCache)
    → IsCapped c
    → IsCapped (read o now key c).1
unfolding read
read-IsCapped o now key c (p, n) = go (get key c.positive) (get key c.negative) refl refl
  where
    go :
        (a b : Option Entry)
        → get key c.positive ≡ a
        → get key c.negative ≡ b
        → IsCapped (read_both o now key a b c).1
    go (some e) b ha hb = (touch-Fits IsProject max_positive_entries key e c.positive ha p, n)
    go none (some e) ha hb = (p, touch-Fits IsMiss max_negative_entries key e c.negative hb n)
    go none none ha hb = (p, n)

serve-IsCapped :
    (key : Units) (hit : Option Hit) (c : ProjectCache) → IsCapped c → IsCapped (serve key hit c).1
serve-IsCapped key none c b = b
serve-IsCapped key (some hit) c b = elim (Bool-cases hit.is_fresh) [
  | inl fresh ↦ rw fresh b
  | inr stale ↦ rw stale b
]

store-IsCapped :
    (now : ℕ) (key : Units) (value : Option Project) (c : ProjectCache)
    → IsCapped c
    → IsCapped (store now key value c)
unfolding store
store-IsCapped now key (some project) c (p, n) = (
  put-Fits IsProject max_positive_entries now key (some project) c.positive (omega arith) refl p,
  delete-Fits IsMiss max_negative_entries key c.negative n,
)
store-IsCapped now key none c (p, n) = (
  delete-Fits IsProject max_positive_entries key c.positive p,
  put-Fits IsMiss max_negative_entries now key none c.negative (omega arith) refl n,
)

end_at-IsCapped :
    (now : ℕ) (w : Option (Units × Option Hit)) (rest : List (Units × Option Hit)) (answer : Answer)
    (c : ProjectCache)
    → IsCapped c
    → IsCapped (end_at now w rest answer c).1
end_at-IsCapped now none rest answer c b = b
end_at-IsCapped now (some (key, hit)) rest (answered row) c b =
    store-IsCapped now key (project_of row) (record c { waiting = rest }) b
end_at-IsCapped now (some (key, none)) rest failed c b = b
end_at-IsCapped now (some (key, some hit)) rest failed c b = b

step-IsCapped : (o : Config) (e : Event) (c : ProjectCache) → IsCapped c → IsCapped (step o e c)
unfolding step begin_lookup end_lookup invalidate
step-IsCapped o (begins now credential) c b =
    serve-IsCapped (cache_key credential) (read o now (cache_key credential) c).0 _
      (read-IsCapped o now (cache_key credential) c b)
step-IsCapped o (ends now i answer) c b = end_at-IsCapped now _ _ answer c b
step-IsCapped o invalidates c b = ((tt, omega arith), (tt, omega arith))

-- However lookups interleave, and whatever keys are asked for and whatever the queries answer, the
-- positive map keeps at most 1000 entries, each with a project, and the negative one at most 128,
-- each without, where that held before.
pub run-IsCapped :
    (o : Config) (es : List Event) (c : ProjectCache) → IsCapped c → IsCapped (run o es c)
unfolding run
run-IsCapped o [] c b = b
run-IsCapped o (e ∷ es) c b = run-IsCapped o es (step o e c) (step-IsCapped o e c b)
