-- ===== src/Prelude/Decimal.antt =====
-- A number and a colon before a text, as template literals write them: the keys of several maps
-- are `${projectId}:${rest}`. A text is its code units.
use Prim.Native.Nat.{ℕ, zero, suc, ◌+◌, ◌-◌, ◌*◌, ◌/◌, ◌%◌, ◌<◌}
use mathlib.Core.Path.{◌≡◌, refl, ap, sym, ◌∙◌}
use mathlib.Core.Logic.{◌↔◌}
use mathlib.Core.Bool.{Bool, true, false, ◌&&◌}
use mathlib.Core.List.{[], ◌∷◌, ◌++◌}
use native.Mathlib.Omega.{arith}
use lyraflow.Prelude.Tests.{ltb, nat_beq, if◌then◌else◌}
use lyraflow.Prelude.Lists.{All}
use lyraflow.Prelude.Keys.{Eq}
use lyraflow.Prelude.Orders.{Units}

unfoldable pub units_beq : Units → Units → Bool
units_beq [] [] = true
units_beq [] (b ∷ y) = false
units_beq (a ∷ x) [] = false
units_beq (a ∷ x) (b ∷ y) = nat_beq a b && units_beq x y

pub units_beq_iff : (x y : Units) → (units_beq x y ≡ true) ↔ (x ≡ y)
unfolding units_beq
units_beq_iff [] [] = (λ h. refl, λ h. refl)
units_beq_iff [] (b ∷ y) = (λ h. cc, λ h. cc)
units_beq_iff (a ∷ x) [] = (λ h. cc, λ h. cc)
units_beq_iff (a ∷ x) (b ∷ y) = ground (arith, units_beq_iff x y)

instance abbrev pub units_eq : Eq Units
units_eq = record { equal = units_beq; equal_iff = units_beq_iff }

-- The digits of `n` before `rest`. A number is less than the fuel that it is given.
unfoldable pub print : ℕ → ℕ → Units → Units
print zero n rest = rest
print (suc fuel) n rest =
    let more = print fuel (n / 10) ((48 + n % 10) ∷ rest) in
    if ltb n 10 then (48 + n) ∷ rest else more

-- `String(n)`
unfoldable pub decimal : ℕ → Units
decimal n = print (n + 1) n []

-- `${n}:${rest}`
unfoldable pub tagged : ℕ → Units → Units
tagged n rest = decimal n ++ 58 ∷ rest

-- `s.startsWith(p)`
unfoldable pub starts_with : Units → Units → Bool
starts_with [] s = true
starts_with (a ∷ p) [] = false
starts_with (a ∷ p) (b ∷ s) = nat_beq a b && starts_with p s

value : ℕ → Units → ℕ
value v [] = v
value v (d ∷ ds) = value (v * 10 + (d - 48)) ds

value-print : (fuel n : ℕ) (rest : Units) → n < fuel → value 0 (print fuel n rest) ≡ value n rest
unfolding value print
value-print zero n rest h = ground arith
value-print (suc fuel) n rest h =
    let several : n / 10 * 10 + (48 + n % 10 - 48) ≡ n = omega arith in
    let single : 0 * 10 + (48 + n - 48) ≡ n = omega arith in
    ground (
      arith,
      value-print fuel (n / 10) ((48 + n % 10) ∷ rest),
      ap (λ m. value m rest) several,
      ap (λ m. value m rest) single,
    )

pub decimal_inj : (m n : ℕ) → decimal m ≡ decimal n → m ≡ n
unfolding decimal value
decimal_inj m n h =
    sym (value-print (m + 1) m [] (omega arith))
    ∙ ap (value 0) h
    ∙ value-print (n + 1) n [] (omega arith)

before_colon : Units → Units
before_colon [] = []
before_colon (c ∷ s) = if nat_beq c 58 then [] else c ∷ before_colon s

after_colon : Units → Units
after_colon [] = []
after_colon (c ∷ s) = if nat_beq c 58 then s else after_colon s

before_colon-append : (x rest : Units) → All (λ c. c < 58) x → before_colon (x ++ 58 ∷ rest) ≡ x
unfolding before_colon
before_colon-append [] rest h = refl
before_colon-append (c ∷ x) rest h = ground (arith, before_colon-append x rest h.1)

after_colon-append : (x rest : Units) → All (λ c. c < 58) x → after_colon (x ++ 58 ∷ rest) ≡ rest
unfolding after_colon
after_colon-append [] rest h = refl
after_colon-append (c ∷ x) rest h = ground (arith, after_colon-append x rest h.1)

print_digits :
    (fuel n : ℕ) (rest : Units) → All (λ c. c < 58) rest → All (λ c. c < 58) (print fuel n rest)
unfolding print
print_digits zero n rest h = h
print_digits (suc fuel) n rest h =
    ground (arith, print_digits fuel (n / 10) ((48 + n % 10) ∷ rest) (omega arith, h))

decimal_digits : (n : ℕ) → All (λ c. c < 58) (decimal n)
unfolding decimal
decimal_digits n = print_digits (n + 1) n [] tt

-- Two keys are the same only for the same number and the same rest.
pub tagged_inj : (m n : ℕ) (x y : Units) → tagged m x ≡ tagged n y → (m ≡ n) × (x ≡ y)
unfolding tagged
tagged_inj m n x y h = (
  decimal_inj m n (
      sym (before_colon-append (decimal m) x (decimal_digits m))
      ∙ ap before_colon h
      ∙ before_colon-append (decimal n) y (decimal_digits n)),
  sym (after_colon-append (decimal m) x (decimal_digits m))
      ∙ ap after_colon h
      ∙ after_colon-append (decimal n) y (decimal_digits n),
)

before_colon-starts_with :
    (x s : Units) → All (λ c. c < 58) x → starts_with (x ++ 58 ∷ []) s ≡ true → before_colon s ≡ x
unfolding before_colon starts_with
before_colon-starts_with [] [] h p = cc
before_colon-starts_with [] (b ∷ s) h p = ground arith
before_colon-starts_with (a ∷ x) [] h p = cc
before_colon-starts_with (a ∷ x) (b ∷ s) h p = ground (arith, before_colon-starts_with x s h.1)

starts_with-tagged_self : (n : ℕ) (s : Units) → starts_with (tagged n []) (tagged n s) ≡ true
unfolding tagged starts_with
starts_with-tagged_self n s = go (decimal n)
  where
    go : (x : Units) → starts_with (x ++ 58 ∷ []) (x ++ 58 ∷ s) ≡ true
    go [] = refl
    go (a ∷ x) = ground (arith, go x)

-- The prefix of a number's keys is the prefix of no other number's key.
pub starts_with-tagged :
    (m n : ℕ) (s : Units) → (starts_with (tagged m []) (tagged n s) ≡ true) ↔ (m ≡ n)
unfolding tagged
starts_with-tagged m n s = (
  λ h. decimal_inj m n (sym (prefix h) ∙ before_colon-append (decimal n) s (decimal_digits n)),
  λ same. rw same (starts_with-tagged_self n s),
)
  where
    prefix :
        starts_with (tagged m []) (tagged n s) ≡ true
        → before_colon (decimal n ++ 58 ∷ s) ≡ decimal m
    prefix h = before_colon-starts_with (decimal m) (decimal n ++ 58 ∷ s) (decimal_digits m) h
