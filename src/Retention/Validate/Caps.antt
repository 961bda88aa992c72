-- ===== src/Retention/Validate/Caps.antt =====
-- The caps of packages/core/src/retention/ast.ts, without its division, and the calendar rows that an
-- accepted range has.
use lyraflow.Prelude.Orders.{Units}
use lyraflow.Retention.Validate.{
  Granularity, day, week, month, RetentionQuery, RetentionValidationError, in_cohorts, cohorts_of,
  too_many_cohorts, validate_between, validate_instants, validate_retention,
}
use lyraflow.Prelude.{
  ℕ, ◌+◌, ◌-◌, ◌/◌, ◌≤◌, ◌<◌, ◌≡◌, refl, ◌↔◌, ◌⊎◌, inl, inr, true, Option, none, some, arith, ltb,
  Bool-cases, nat_eq, string_eq,
}

-- The longest range: 60 days, 60 weeks, and for months 1,680 days, which is 60 times 28.
abbrev pub longest : Granularity → ℕ
longest day = 5184000000
longest week = 36288000000
longest month = 145152000000

-- Both texts are dates, the second is later, and the time between them is no longer than that.
abbrev pub IsMeasurable : Granularity → Option ℕ → Option ℕ → Type 0
IsMeasurable g (some since) (some until) = (since < until) × (until ≤ since + longest g)
IsMeasurable g none until = ⊥
IsMeasurable g (some since) none = ⊥

cohorts_of-le :
    (g : Granularity) (since until : ℕ)
    → since < until
    → (cohorts_of g since until ≤ 60) ↔ (until ≤ since + longest g)
unfolding cohorts_of
cohorts_of-le day since until h = (λ k. omega (arith, h, k), λ k. omega (arith, h, k))
cohorts_of-le week since until h = (λ k. omega (arith, h, k), λ k. omega (arith, h, k))
cohorts_of-le month since until h = (λ k. omega (arith, h, k), λ k. omega (arith, h, k))

validate_between_iff :
    (g : Granularity) (since until : ℕ)
    → (validate_between g since until ≡ none) ↔ ((since < until) × (until ≤ since + longest g))
unfolding validate_between
validate_between_iff g since until = ground (arith, cohorts_of-le g since until)

validate_instants_iff :
    (g : Granularity) (s u : Option ℕ) → (validate_instants g s u ≡ none) ↔ IsMeasurable g s u
validate_instants_iff g (some since) (some until) = validate_between_iff g since until
validate_instants_iff g none until = (λ h. cc, λ h. elim h [ ])
validate_instants_iff g (some since) none = (λ h. cc, λ h. elim h [ ])

-- A range is accepted exactly when both of its texts are dates, the second is later, and the time
-- between them is at most 60 times 24 hours for days, 60 times 7 days for weeks and 60 times 28 days
-- for months. That is a cap on the length and not on the calendar rows of the range.
pub validate_retention_iff :
    {N : Type 0} (parse : Units → Option ℕ) (q : RetentionQuery N)
    → (validate_retention parse q ≡ none)
      ↔ IsMeasurable q.granularity (parse q.since) (parse q.until)
unfolding validate_retention
validate_retention_iff parse q = validate_instants_iff q.granularity (parse q.since) (parse q.until)

-- The number of the calendar day, and of the calendar week from its Monday, of an instant in
-- milliseconds since 1970, which began on a Thursday.
abbrev pub bucket_number : Granularity → ℕ → ℕ
bucket_number day t = t / 86400000
bucket_number week t = (t + 259200000) / 604800000
bucket_number month t = 0

-- The rows that a range can have, for days and weeks.
abbrev pub rows_of : Granularity → ℕ → ℕ → ℕ
rows_of g since until = bucket_number g (until - 1) - bucket_number g since + 1

abbrev pub IsDaily : Granularity → Type 0
IsDaily day = Unit
IsDaily week = Unit
IsDaily month = ⊥

too_many_rows :
    (g : Granularity) (since until : ℕ)
    → IsDaily g
    → since < until
    → since + longest g < until
    → 61 ≤ rows_of g since until
too_many_rows day since until h later long = omega (arith, later, long)
too_many_rows week since until h later long = omega (arith, later, long)
too_many_rows month since until h later long = elim h [ ]

few_rows :
    (g : Granularity) (since until : ℕ)
    → IsDaily g
    → since < until
    → until ≤ since + longest g
    → rows_of g since until ≤ 61
few_rows day since until h later short = omega (arith, later, short)
few_rows week since until h later short = omega (arith, later, short)
few_rows month since until h later short = elim h [ ]

-- For days and weeks, a range that is not empty is accepted and has at most 61 calendar rows, or is
-- refused for its cohorts and has at least 61: one of 61 rows may be either.
pub validate_between-rows_of :
    (g : Granularity) (since until : ℕ)
    → IsDaily g
    → since < until
    → ((validate_between g since until ≡ none) × (rows_of g since until ≤ 61))
      ⊎ (((err : RetentionValidationError) × ((validate_between g since until ≡ some err)
              × (err.code ≡ in_cohorts)))
          × (61 ≤ rows_of g since until))
unfolding validate_between too_many_cohorts
validate_between-rows_of g since until daily later =
    elim (Bool-cases (ltb 60 (cohorts_of g since until))) [
      | inl many ↦
          let starts : ltb since until ≡ true = ground (arith, later) in
          let long : since + longest g < until =
            ground (arith, many, (cohorts_of-le g since until later).1) in
          inr (
            (too_many_cohorts g (cohorts_of g since until), (rw (starts, many) refl, refl)),
            too_many_rows g since until daily later long,
          )
      | inr few ↦
          let starts : ltb since until ≡ true = ground (arith, later) in
          let short : until ≤ since + longest g =
            (cohorts_of-le g since until later).0 (ground (arith, few)) in
          inl (rw (starts, few) refl, few_rows g since until daily later short)
    ]
