-- ===== src/Segments/Params/Alike.antt =====
-- Compilers that write the same text whatever values they bind, in the terms of
-- packages/core/src/segments/params.ts.
use lyraflow.Segments.Syntax.{Scalar}
use lyraflow.Segments.Params.{
  ChType, Value, Params, Result, ok, throw, Thrown, Compiler, pure, continue, lift, ◌>>=◌, add,
  add_value, scalar,
}
use lyraflow.Prelude.{◌≡◌, refl, subst, Bool, true, false, arith, if◌then◌else◌, nat_eq, string_eq}

module _ {N : Type 0} where
  -- Two results that are related and bound as many values, or one of which threw.
  abbrev pub AgreeBy :
      {A B : Type 0} → (A → B → Type 0) → Result (A × Params N) → Result (B × Params N) → Type 0
  AgreeBy R (ok (a, p)) (ok (b, q)) = R a b × (p.next ≡ q.next)
  AgreeBy R (throw e) k = Unit
  AgreeBy R (ok a) (throw e) = Unit

  abbrev pub AlikeBy : {A B : Type 0} → (A → B → Type 0) → Compiler N A → Compiler N B → Type 0
  AlikeBy R m k = (p q : Params N) → p.next ≡ q.next → AgreeBy R (m p) (k q)

  -- They wrote the same.
  abbrev pub Agree : {A : Type 0} → Result (A × Params N) → Result (A × Params N) → Type 0
  Agree x y = AgreeBy (λ a b. a ≡ b) x y

  abbrev pub Alike : {A : Type 0} → Compiler N A → Compiler N A → Type 0
  Alike m k = (p q : Params N) → p.next ≡ q.next → Agree (m p) (k q)

  pub pure-Alike : {A : Type 0} (a : A) → Alike (pure a) (pure a)
  pure-Alike a p q h = (refl, h)

  pub add_value-Alike : (v w : Value N) (t : ChType) → Alike (add_value v t) (add_value w t)
  unfolding add_value
  add_value-Alike v w t p q h = (rw h refl, omega arith)

  pub add-Alike : (v w : Scalar N) (t : ChType) → Alike (add v t) (add w t)
  unfolding add
  add-Alike v w t = add_value-Alike (scalar v) (scalar w) t

  pub AgreeBy-throw :
      {A B : Type 0} (R : A → B → Type 0) (e : Thrown) (x : Result (A × Params N))
      → AgreeBy R x (throw e)
  AgreeBy-throw R e (ok a) = tt
  AgreeBy-throw R e (throw f) = tt

  continue-AgreeBy :
      {A B C D : Type 0} (R : A → B → Type 0) (S : C → D → Type 0) (x : Result (A × Params N))
      (y : Result (B × Params N)) (f : A → Compiler N C) (g : B → Compiler N D)
      → AgreeBy R x y
      → ((a : A) (b : B) → R a b → AlikeBy S (f a) (g b))
      → AgreeBy S (continue x f) (continue y g)
  continue-AgreeBy R S (ok (a, p)) (ok (b, q)) f g (same, n) h = h a b same p q n
  continue-AgreeBy R S (throw e) y f g xy h = tt
  continue-AgreeBy R S (ok (a, p)) (throw e) f g xy h = AgreeBy-throw S e (f a p)

  pub bind-AlikeBy :
      {A B C D : Type 0} (R : A → B → Type 0) (S : C → D → Type 0) (m : Compiler N A)
      (k : Compiler N B) (f : A → Compiler N C) (g : B → Compiler N D)
      → AlikeBy R m k
      → ((a : A) (b : B) → R a b → AlikeBy S (f a) (g b))
      → AlikeBy S (m >>= f) (k >>= g)
  bind-AlikeBy R S m k f g mk fg p q h = continue-AgreeBy R S (m p) (k q) f g (mk p q h) fg

  pub bind-Alike :
      {A B : Type 0} (m k : Compiler N A) (f g : A → Compiler N B)
      → Alike m k
      → ((a : A) → Alike (f a) (g a))
      → Alike (m >>= f) (k >>= g)
  bind-Alike m k f g mk fg =
      bind-AlikeBy (λ a b. a ≡ b) (λ a b. a ≡ b) m k f g mk
        (λ a b same. subst (λ c. Alike (f a) (g c)) same (fg a))

  -- A date that one of the two compilers may not be able to read.
  pub lift-Alike :
      {A B : Type 0} (x y : Result A) (f g : A → Compiler N B)
      → ((a b : A) → Alike (f a) (g b))
      → Alike (lift x >>= f) (lift y >>= g)
  unfolding lift
  lift-Alike (ok a) (ok b) f g h p q n = h a b p q n
  lift-Alike (throw e) y f g h p q n = tt
  lift-Alike (ok a) (throw e) f g h p q n = AgreeBy-throw (λ a b. a ≡ b) e (f a p)

  pub if-Alike :
      {A : Type 0} (b : Bool) (m k f g : Compiler N A)
      → Alike m k
      → Alike f g
      → Alike (if b then m else f) (if b then k else g)
  if-Alike true m k f g mk fg = mk
  if-Alike false m k f g mk fg = fg

  pub lift_same-Alike : {A : Type 0} (x : Result A) → Alike (lift x) (lift x)
  unfolding lift
  lift_same-Alike (ok a) = pure-Alike a
  lift_same-Alike (throw e) = λ p q h. tt
