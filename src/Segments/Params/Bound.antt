-- ===== src/Segments/Params/Bound.antt =====
-- What compilers do to the parameters of packages/core/src/segments/params.ts, and what they throw.
use mathlib.Core.List.{append_assoc, append-nil}
use lyraflow.Prelude.Orders.{Units}
use lyraflow.Prelude.Decimal.{decimal_inj, units_eq}
use lyraflow.Prelude.Texts.{codes}
use lyraflow.JsMap.{JsMap, set}
use lyraflow.Identity.Resolve.{is_safe_identifier, resolved_person_expr}
use lyraflow.Segments.Syntax.{Scalar}
use lyraflow.Segments.Params.{
  ChType, Value, Params, Result, ok, throw, Thrown, Compiler, continue, lift, ◌>>=◌, add, add_value,
  scalar, param_name, invalid_tree, unsafe_identifier, invalid_date, unregistered_behavior,
  invalid_funnel, invalid_retention,
}
use lyraflow.Prelude.{
  ℕ, zero, suc, ◌+◌, ◌≤◌, ◌≡◌, refl, sym, ap, ◌∙◌, subst, ◌≢◌, inl, inr, Bool, true, false, some,
  List, [], ◌∷◌, ◌++◌, map, arith, if◌then◌else◌, Bool-cases, All, All-append, ==_iff, nat_eq,
  string_eq,
}

-- The names below a number, from `p0`.
unfoldable pub names_below : ℕ → List Units
names_below zero = []
names_below (suc n) = names_below n ++ param_name n ∷ []

module _ {N : Type 0} where
  abbrev pub names_of : JsMap Units (Value N) → List Units
  names_of m = map (λ b. b.0) m

  -- The parameters are numbered from 0 with no gap, and every name has one value.
  abbrev pub IsPositional : Params N → Type 0
  IsPositional p = names_of p.values ≡ names_below p.next

  -- Nothing that was bound has changed.
  abbrev pub Extends : Params N → Params N → Type 0
  Extends p q = (vs : JsMap Units (Value N)) × (q.values ≡ p.values ++ vs)

  set_fresh :
      (k : Units) (v : Value N) (m : JsMap Units (Value N))
      → All (λ n. n ≢ k) (names_of m)
      → set k v m ≡ m ++ (k, v) ∷ []
  unfolding set
  set_fresh k v [] h = refl
  set_fresh k v ((j, w) ∷ m) (other, h) = ground (arith, ==_iff j k, set_fresh k v m h)

  names_of-append : (m n : JsMap Units (Value N)) → names_of (m ++ n) ≡ names_of m ++ names_of n
  names_of-append [] n = refl
  names_of-append (b ∷ m) n = ap (λ t. b.0 ∷ t) (names_of-append m n)

append-head_inj : (x y : Units) → codes "p" ++ x ≡ codes "p" ++ y → x ≡ y
unfolding codes
append-head_inj x y h = ap tail h
  where
    tail : Units → Units
    tail [] = []
    tail (c ∷ s) = s

names_below-suc : (n : ℕ) → names_below (n + 1) ≡ names_below n ++ param_name n ∷ []
unfolding names_below
names_below-suc n = let next : n + 1 ≡ suc n = omega arith in ap names_below next

names_below-fresh : (n m : ℕ) → m ≤ n → All (λ k. k ≢ param_name n) (names_below m)
unfolding names_below param_name
names_below-fresh n zero h = tt
names_below-fresh n (suc m) h =
    All-append _ (names_below m) (param_name m ∷ []) (names_below-fresh n m (omega arith))
      (λ same. differ (decimal_inj m n (append-head_inj _ _ same)), tt)
  where
    differ : m ≡ n → ⊥
    differ e = omega arith

-- What a compiler may throw once the tree is valid.
abbrev pub Allowed : Units → Thrown → Type 0
Allowed db (invalid_tree e) = ⊥
Allowed db (unsafe_identifier d) = (d ≡ db) × (is_safe_identifier d ≡ false)
Allowed db invalid_date = Unit
Allowed db unregistered_behavior = ⊥
Allowed db (invalid_funnel e) = ⊥
Allowed db (invalid_retention e) = ⊥

abbrev pub AllowedResult : {A : Type 0} → Units → Result A → Type 0
AllowedResult db (ok a) = Unit
AllowedResult db (throw e) = Allowed db e

-- Nothing is asked of a result.
abbrev pub Any : {A : Type 0} → A → Type 0
Any a = Unit

module _ {N : Type 0} (db : Units) where
  abbrev pub Good : {A : Type 0} → (A → Type 0) → Params N → Result (A × Params N) → Type 0
  Good Q p (ok (a, q)) = Q a × (IsPositional q × Extends p q)
  Good Q p (throw e) = Allowed db e

  abbrev pub Meets : {A : Type 0} → Compiler N A → (A → Type 0) → Type 0
  Meets m Q = (p : Params N) → IsPositional p → Good Q p (m p)

  -- `pure`, whatever it returns.
  pub pure-Meets : (p : Params N) → IsPositional p → Unit {0} × (IsPositional p × Extends p p)
  pure-Meets p pos = (tt, (pos, ([], sym (append-nil p.values))))

  pub add_value-Meets : (v : Value N) (t : ChType) → Meets (add_value v t) Any
  unfolding add_value
  add_value-Meets v t p pos =
      let fresh : set (param_name p.next) v p.values ≡ p.values ++ (param_name p.next, v) ∷ [] =
        set_fresh (param_name p.next) v p.values (
          subst (λ l. All (λ k. k ≢ param_name p.next) l) (sym pos)
            (names_below-fresh p.next p.next (omega arith))) in
      (
        tt,
        (
          ap names_of fresh
              ∙ names_of-append p.values _
              ∙ ap (λ l. l ++ param_name p.next ∷ []) pos
              ∙ sym (names_below-suc p.next),
          (_, fresh),
        ),
      )

  pub add-Meets : (v : Scalar N) (t : ChType) → Meets (add v t) Any
  unfolding add
  add-Meets v t = add_value-Meets (scalar v) t

  Extends-trans : (p q s : Params N) → Extends p q → Extends q s → Extends p s
  Extends-trans p q s (vs, h) (ws, k) =
      (vs ++ ws, k ∙ ap (λ l. l ++ ws) h ∙ append_assoc p.values vs ws)

  later-Good :
      {B : Type 0} (R : B → Type 0) (p q : Params N) (y : Result (B × Params N))
      → Extends p q
      → Good R q y
      → Good R p y
  later-Good R p q (ok (b, s)) grown (post, (pos, more)) =
      (post, (pos, Extends-trans p q s grown more))
  later-Good R p q (throw e) grown allowed = allowed

  continue-Good :
      {A B : Type 0} (x : Result (A × Params N)) (f : A → Compiler N B) (Q : A → Type 0)
      (R : B → Type 0) (p : Params N)
      → Good Q p x
      → ((a : A) → Q a → Meets (f a) R)
      → Good R p (continue x f)
  continue-Good (ok (a, q)) f Q R p (post, (pos, grown)) h =
      later-Good R p q (f a q) grown (h a post q pos)
  continue-Good (throw e) f Q R p allowed h = allowed

  pub bind-Meets :
      {A B : Type 0} (m : Compiler N A) (f : A → Compiler N B) (Q : A → Type 0) (R : B → Type 0)
      → Meets m Q
      → ((a : A) → Q a → Meets (f a) R)
      → Meets (m >>= f) R
  bind-Meets m f Q R hm hf p pos = continue-Good (m p) f Q R p (hm p pos) hf

  pub lift-Meets : {A : Type 0} (x : Result A) → AllowedResult db x → Meets (lift x) Any
  unfolding lift
  lift-Meets (ok a) h = pure-Meets
  lift-Meets (throw e) h = λ p pos. h

  pub if-Meets :
      {A : Type 0} (b : Bool) (m k : Compiler N A) (Q : A → Type 0)
      → Meets m Q
      → Meets k Q
      → Meets (if b then m else k) Q
  if-Meets true m k Q hm hk = hm
  if-Meets false m k Q hm hk = hk

-- The database's name is the only one that the resolution may refuse.
pub resolved_person_expr-Allowed :
    (db alias : Units)
    → is_safe_identifier alias ≡ true
    → AllowedResult db (resolved_person_expr db (some alias))
unfolding resolved_person_expr
resolved_person_expr-Allowed db alias safe = elim (Bool-cases (is_safe_identifier db)) [
  | inl good ↦ rw (good, safe) tt
  | inr bad ↦ rw bad (refl, bad)
]
