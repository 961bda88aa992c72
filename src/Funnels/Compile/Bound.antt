-- ===== src/Funnels/Compile/Bound.antt =====
-- What the query of packages/core/src/funnels/compile.ts binds, and when there is none.
use lyraflow.Funnels.Compile.Binding.{funnel_sql-Meets}
use lyraflow.Prelude.Orders.{Units}
use lyraflow.Prelude.Decimal.{units_eq}
use lyraflow.Identity.Resolve.{is_safe_identifier}
use lyraflow.Segments.Validate.{CostWarning}
use lyraflow.Segments.Params.{
  Params, Result, ok, throw, Thrown, Compiler, pure, invalid_tree, unsafe_identifier, invalid_date,
  unregistered_behavior, invalid_funnel, invalid_retention, continue,
}
use lyraflow.Segments.Params.Dates.{Platform}
use lyraflow.Segments.Params.Bound.{IsPositional, Extends, Allowed, Good, Any}
use lyraflow.Segments.Compile.{CompiledQuery}
use lyraflow.Funnels.Syntax.{FunnelDefinition}
use lyraflow.Funnels.Validate.{
  FunnelValidationError, Range, validate_funnel, validate_range, funnel_cost_warnings,
}
use lyraflow.Funnels.Validate.Caps.{validate_funnel_iff}
use lyraflow.Funnels.Chains.{byte_length, query_too_long}
use lyraflow.Funnels.People.{PeopleAt}
use lyraflow.Funnels.Compile.{unless_refused, within_size, funnel_sql, compile_funnel}
use lyraflow.Prelude.{
  ℕ, ◌≤◌, ◌<◌, ◌≡◌, refl, ap, subst, ◌⊎◌, inl, inr, false, Option, none, some, List, arith, ltb,
  Bool-cases, Option-cases, nat_eq, string_eq,
}

-- Why a validator, or the cap on the text, refuses a funnel.
abbrev pub Refusal : {N : Type 0} → FunnelDefinition N → Range → FunnelValidationError → Type 0
Refusal def range err =
    (validate_funnel def ≡ some err)
    ⊎ ((validate_range range ≡ some err)
        ⊎ ((sql : Units) × ((err ≡ query_too_long (byte_length sql)) × (230000 < byte_length sql))))

-- Why there is no query: a refusal, the database's name or a date.
abbrev pub FunnelReason : {N : Type 0} → Units → FunnelDefinition N → Range → Thrown → Type 0
FunnelReason db def range e =
    ((err : FunnelValidationError) × ((e ≡ invalid_funnel err) × Refusal def range err))
    ⊎ (((e ≡ unsafe_identifier db) × (is_safe_identifier db ≡ false)) ⊎ (e ≡ invalid_date))

-- A query that is returned is within the cap.
abbrev FunnelOutcome :
    {N : Type 0}
    → Units
    → FunnelDefinition N
    → Range
    → Params N
    → Result (CompiledQuery × Params N)
    → Type 0
FunnelOutcome db def range p (ok x) =
    (IsPositional x.1 × Extends p x.1) × (byte_length x.0.sql ≤ 230000)
FunnelOutcome db def range p (throw e) = FunnelReason db def range e

module _ {N : Type 0} (db : Units) (def : FunnelDefinition N) (range : Range) where
  Allowed-FunnelReason : (e : Thrown) → Allowed db e → FunnelReason db def range e
  Allowed-FunnelReason (invalid_tree err) h = elim h [ ]
  Allowed-FunnelReason (unsafe_identifier d) (same, bad) =
      inr (inl (ap unsafe_identifier same, subst (λ x. is_safe_identifier x ≡ false) same bad))
  Allowed-FunnelReason invalid_date h = inr (inr refl)
  Allowed-FunnelReason unregistered_behavior h = elim h [ ]
  Allowed-FunnelReason (invalid_funnel err) h = elim h [ ]
  Allowed-FunnelReason (invalid_retention err) h = elim h [ ]

  unless_refused-Outcome :
      (e : Option FunnelValidationError) (m : Compiler N CompiledQuery) (p : Params N)
      → ((err : FunnelValidationError) → e ≡ some err → Refusal def range err)
      → (e ≡ none → FunnelOutcome db def range p (m p))
      → FunnelOutcome db def range p (unless_refused e m p)
  unfolding unless_refused
  unless_refused-Outcome none m p why h = h refl
  unless_refused-Outcome (some err) m p why h = inl (err, (refl, why err refl))

  within_size-Refusal :
      (sql : Units) (err : FunnelValidationError)
      → within_size sql ≡ some err
      → Refusal def range err
  unfolding within_size
  within_size-Refusal sql err h = elim (Bool-cases (ltb 230000 (byte_length sql))) [
    | inl long ↦ inr (inr (sql, (ground (arith, h, long), ground (arith, long))))
    | inr short ↦ ground (arith, h, short)
  ]

  within_size-bytes : (sql : Units) → within_size sql ≡ none → byte_length sql ≤ 230000
  unfolding within_size
  within_size-bytes sql h = ground (arith, h)

  sized-Outcome :
      (sql : Units) (w : List CostWarning) (p q : Params N)
      → IsPositional q × Extends p q
      → FunnelOutcome db def range p
          (unless_refused (within_size sql) (pure (record { sql = sql; warnings = w })) q)
  unfolding unless_refused
  sized-Outcome sql w p q h = elim (Option-cases (within_size sql)) [
    | inl fits ↦ rw fits (h, within_size-bytes sql fits)
    | inr (err, long) ↦ rw long (inl (err, (refl, within_size-Refusal sql err long)))
  ]

  continue-FunnelOutcome :
      (w : List CostWarning) (p : Params N) (k : Result (Units × Params N))
      → Good db Any p k
      → FunnelOutcome db def range p (
          continue k
            (λ sql. unless_refused (within_size sql) (pure (record { sql = sql; warnings = w }))))
  continue-FunnelOutcome w p (ok (sql, q)) h = sized-Outcome sql w p q h.1
  continue-FunnelOutcome w p (throw e) h = Allowed-FunnelReason e h

module _ {N : Type 0} (js : Platform N ℕ) (db : Units) (now : ℕ) (project_id : ℕ) where
  compile_funnel-Outcome :
      (def : FunnelDefinition N) (range : Range) (segment : Option Units) (people : Option PeopleAt)
      (p : Params N)
      → IsPositional p
      → FunnelOutcome db def range p
          (compile_funnel js db now project_id def range segment people p)
  unfolding compile_funnel
  compile_funnel-Outcome def range segment people p pos =
      unless_refused-Outcome db def range (validate_funnel def) _ p (λ err h. inl h)
        (λ valid.
          unless_refused-Outcome db def range (validate_range range) _ p (λ err h. inr (inl h))
            (λ _.
              continue-FunnelOutcome db def range (funnel_cost_warnings def range) p
                (funnel_sql js db now project_id def range segment people p)
                (funnel_sql-Meets js db now project_id def range segment people
                  ((validate_funnel_iff def).0 valid).1.0 p pos)))

  -- A funnel is refused only by a validator, or for a text of more than 230,000 bytes; otherwise it
  -- throws only for a database whose name is no plain identifier or for a date that is not valid: no
  -- audience of a funnel that passed the validator is refused when the audience is compiled.
  pub compile_funnel-throws :
      (def : FunnelDefinition N) (range : Range) (segment : Option Units) (people : Option PeopleAt)
      (p : Params N) (e : Thrown)
      → IsPositional p
      → compile_funnel js db now project_id def range segment people p ≡ throw e
      → FunnelReason db def range e
  compile_funnel-throws def range segment people p e pos h =
      subst (FunnelOutcome db def range p) h (compile_funnel-Outcome def range segment people p pos)

  -- If the parameters that were bound before are numbered without a gap, so are those after a
  -- compilation that returns, every one that was bound before has its value still, and the text has
  -- at most 230,000 bytes.
  pub compile_funnel-IsPositional :
      (def : FunnelDefinition N) (range : Range) (segment : Option Units) (people : Option PeopleAt)
      (p : Params N) (x : CompiledQuery × Params N)
      → IsPositional p
      → compile_funnel js db now project_id def range segment people p ≡ ok x
      → (IsPositional x.1 × Extends p x.1) × (byte_length x.0.sql ≤ 230000)
  compile_funnel-IsPositional def range segment people p x pos h =
      subst (FunnelOutcome db def range p) h (compile_funnel-Outcome def range segment people p pos)
