-- ===== src/Retention/Compile/Bound.antt =====
-- What the query of packages/core/src/retention/compile.ts binds, and when there is none.
use lyraflow.Prelude.Orders.{Units}
use lyraflow.Prelude.Decimal.{units_eq}
use lyraflow.Prelude.Texts.{codes}
use lyraflow.Identity.Resolve.{is_safe_identifier}
use lyraflow.Segments.Syntax.{WherePredicate, text}
use lyraflow.Segments.Params.{
  Params, Result, ok, throw, Thrown, string_type, uint32_type, date_time_type, invalid_tree,
  unsafe_identifier, invalid_date, unregistered_behavior, invalid_funnel, invalid_retention,
}
use lyraflow.Segments.Params.Dates.{Platform}
use lyraflow.Segments.Params.Bound.{
  IsPositional, Extends, Allowed, Good, Any, Meets, pure-Meets, add-Meets, add_value-Meets,
  bind-Meets, lift-Meets, if-Meets, resolved_person_expr-Allowed,
}
use lyraflow.Segments.Predicates.Bound.{ch_date_time-Allowed}
use lyraflow.Segments.Behaviour.Bound.{e_safe, where_parts-Meets, not_suppressed_expr-Meets}
use lyraflow.Retention.Validate.{
  any_event, RetentionQuery, RetentionValidationError, validate_retention,
}
use lyraflow.Retention.Compile.{
  unless_invalid, add_name, add_parsed, clause, retention_sql, compile_retention,
}
use lyraflow.Prelude.{
  ℕ, ◌≡◌, refl, ap, subst, ◌⊎◌, inl, inr, false, Option, none, some, List, Option-cases, ◌==◌,
  nat_eq, string_eq,
}

module _ {N : Type 0} (js : Platform N ℕ) (db : Units) (now : ℕ) (project_id : ℕ) where
  add_parsed-Meets : (d : Option ℕ) → Meets db (add_parsed js db now project_id d) Any
  unfolding add_parsed
  add_parsed-Meets d =
      bind-Meets db _ _ Any Any (lift-Meets db _ (ch_date_time-Allowed js now db d))
        (λ at _. add-Meets db (text at) date_time_type)

  add_name-Meets : (event : Units) → Meets {N = N} db (add_name event) Any
  unfolding add_name
  add_name-Meets event =
      if-Meets db (event == any_event) _ _ Any (pure-Meets db) (
        bind-Meets db _ _ Any Any (add-Meets db (text event) string_type) (λ name _. pure-Meets db))

  clause-Meets :
      (name : Option Units) (ws : List (WherePredicate N))
      → Meets db (clause js db now project_id name ws) Any
  clause-Meets name ws =
      bind-Meets db _ _ Any Any (where_parts-Meets js now db ws) (λ parts _. pure-Meets db)

  retention_sql-Meets :
      (q : RetentionQuery N) (segment : Option Units)
      → Meets db (retention_sql js db now project_id q segment) Any
  unfolding retention_sql
  retention_sql-Meets q segment =
      bind-Meets db _ _ Any Any (add_value-Meets db _ uint32_type) (λ project _.
        bind-Meets db _ _ Any Any (add_parsed-Meets _) (λ since _.
          bind-Meets db _ _ Any Any (add_parsed-Meets _) (λ until _.
            bind-Meets db _ _ Any Any (add_parsed-Meets _) (λ scan_end _.
              bind-Meets db _ _ Any Any (add_value-Meets db _ uint32_type) (λ periods _.
                bind-Meets db _ _ Any Any
                  (lift-Meets db _ (resolved_person_expr-Allowed db (codes "e") e_safe))
                  (λ resolved _.
                    bind-Meets db _ _ Any Any (not_suppressed_expr-Meets db project_id resolved _)
                      (λ kept _.
                        bind-Meets db _ _ Any Any (add_name-Meets q.start_event) (λ start _.
                          bind-Meets db _ _ Any Any (add_name-Meets q.return_event) (λ end _.
                            bind-Meets db _ _ Any Any (clause-Meets start q.start_where) (λ entry _.
                              bind-Meets db _ _ Any Any (clause-Meets end q.return_where)
                                (λ back _. pure-Meets db)))))))))))

-- Why there is no query: the validator, the database's name or a date.
abbrev pub RetentionReason :
    {N : Type 0} → (Units → Option ℕ) → Units → RetentionQuery N → Thrown → Type 0
RetentionReason parse db q e =
    ((err : RetentionValidationError) × ((e ≡ invalid_retention err)
        × (validate_retention parse q ≡ some err)))
    ⊎ (((e ≡ unsafe_identifier db) × (is_safe_identifier db ≡ false)) ⊎ (e ≡ invalid_date))

abbrev RetentionOutcome :
    {N : Type 0}
    → (Units → Option ℕ)
    → Units
    → RetentionQuery N
    → Params N
    → Result (Units × Params N)
    → Type 0
RetentionOutcome parse db q p (ok x) =
    (validate_retention parse q ≡ none) × (IsPositional x.1 × Extends p x.1)
RetentionOutcome parse db q p (throw e) = RetentionReason parse db q e

module _ {N : Type 0} (parse : Units → Option ℕ) (db : Units) (q : RetentionQuery N) where
  Allowed-RetentionReason : (e : Thrown) → Allowed db e → RetentionReason parse db q e
  Allowed-RetentionReason (invalid_tree err) h = elim h [ ]
  Allowed-RetentionReason (unsafe_identifier d) (same, bad) =
      inr (inl (ap unsafe_identifier same, subst (λ x. is_safe_identifier x ≡ false) same bad))
  Allowed-RetentionReason invalid_date h = inr (inr refl)
  Allowed-RetentionReason unregistered_behavior h = elim h [ ]
  Allowed-RetentionReason (invalid_funnel err) h = elim h [ ]
  Allowed-RetentionReason (invalid_retention err) h = elim h [ ]

  Good-RetentionOutcome :
      (p : Params N) (k : Result (Units × Params N))
      → validate_retention parse q ≡ none
      → Good db Any p k
      → RetentionOutcome parse db q p k
  Good-RetentionOutcome p (ok x) valid h = (valid, h.1)
  Good-RetentionOutcome p (throw e) valid h = Allowed-RetentionReason e h

module _ {N : Type 0} (js : Platform N ℕ) (db : Units) (now : ℕ) (project_id : ℕ) where
  compile_retention-Outcome :
      (q : RetentionQuery N) (segment : Option Units) (p : Params N)
      → IsPositional p
      → RetentionOutcome js.parse db q p (compile_retention js db now project_id q segment p)
  unfolding compile_retention unless_invalid
  compile_retention-Outcome q segment p pos = elim (Option-cases (validate_retention js.parse q)) [
    | inl valid ↦ rw valid (
        Good-RetentionOutcome js.parse db q p (retention_sql js db now project_id q segment p) valid
          (retention_sql-Meets js db now project_id q segment p pos))
    | inr (err, found) ↦ rw found (inl (err, (refl, found)))
  ]

  -- A report throws only the error of the validator, for a range that it refuses, or an error for a
  -- database whose name is no plain identifier, or one for a date that is not valid.
  pub compile_retention-throws :
      (q : RetentionQuery N) (segment : Option Units) (p : Params N) (e : Thrown)
      → IsPositional p
      → compile_retention js db now project_id q segment p ≡ throw e
      → RetentionReason js.parse db q e
  compile_retention-throws q segment p e pos h =
      subst (RetentionOutcome js.parse db q p) h (compile_retention-Outcome q segment p pos)

  -- If the parameters that were bound before are numbered without a gap and a report compiles, then
  -- the validator has accepted it, the parameters are numbered without a gap still, and every one
  -- that was bound before has its value still.
  pub compile_retention-IsPositional :
      (q : RetentionQuery N) (segment : Option Units) (p : Params N) (x : Units × Params N)
      → IsPositional p
      → compile_retention js db now project_id q segment p ≡ ok x
      → (validate_retention js.parse q ≡ none) × (IsPositional x.1 × Extends p x.1)
  compile_retention-IsPositional q segment p x pos h =
      subst (RetentionOutcome js.parse db q p) h (compile_retention-Outcome q segment p pos)
