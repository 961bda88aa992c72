-- ===== src/Segments/Params.antt =====
-- packages/core/src/segments/params.ts: the values that a compiled query binds. A compiler is a
-- function of the parameters that were bound before it, which returns the ones bound after it or
-- throws. The language's dates and its texts of numbers are a parameter of the compilers: `D` is a
-- valid date, `N` a number.
mod Tests
pub mod Dates
pub mod Zones
pub mod Alike
pub mod Bound
use lyraflow.Prelude.Orders.{Units}
use lyraflow.Prelude.Decimal.{decimal, units_eq}
use lyraflow.Prelude.Texts.{codes}
use lyraflow.JsMap.{JsMap, set}
use lyraflow.Segments.Syntax.{Scalar}
use lyraflow.Segments.Validate.{SegmentValidationError}
use lyraflow.Funnels.Validate.{FunnelValidationError}
use lyraflow.Retention.Validate.{RetentionValidationError}
use lyraflow.Prelude.{ℕ, ◌+◌, [], ◌++◌, nat_eq, string_eq}

-- What the compilers throw, those of packages/core/src/funnels and retention included.
pub data Thrown : Type 0 where
  invalid_tree : SegmentValidationError → Thrown
  unsafe_identifier : Units → Thrown
  invalid_date : Thrown
  unregistered_behavior : Thrown
  invalid_funnel : FunnelValidationError → Thrown
  invalid_retention : RetentionValidationError → Thrown

pub data Result (A : Type 0) : Type 0 where
  ok : A → Result A
  throw : Thrown → Result A

-- `ChType`
pub data ChType : Type 0 where
  string_type uint32_type float64_type date_time_type uint8_type : ChType

unfoldable pub ch_type : ChType → Units
ch_type string_type = codes "String"
ch_type uint32_type = codes "UInt32"
ch_type float64_type = codes "Float64"
ch_type date_time_type = codes "DateTime64(3)"
ch_type uint8_type = codes "UInt8"

pub data Value (N : Type 0) : Type 0 where
  scalar : Scalar N → Value N
  count : ℕ → Value N

pub record Params (N : Type 0) : Type 0 where
  pub next : ℕ
  pub values : JsMap Units (Value N)

-- The name of the parameter with a number.
unfoldable pub param_name : ℕ → Units
param_name n = codes "p" ++ decimal n

unfoldable pub placeholder : ℕ → ChType → Units
placeholder n type_ = codes "{" ++ param_name n ++ codes ":" ++ ch_type type_ ++ codes "}"

-- A compiler: code that binds parameters.
abbrev pub Compiler : Type 0 → Type 0 → Type 0
Compiler N A = Params N → Result (A × Params N)

module _ {N : Type 0} where
  abbrev pub pure : {A : Type 0} → A → Compiler N A
  pure a p = ok (a, p)

  abbrev pub fail : {A : Type 0} → Thrown → Compiler N A
  fail e p = throw e

  abbrev pub continue :
      {A B : Type 0} → Result (A × Params N) → (A → Compiler N B) → Result (B × Params N)
  continue (ok (a, p)) f = f a p
  continue (throw e) f = throw e

  infixl 5 ◌>>=◌
  abbrev pub ◌>>=◌ : {A B : Type 0} → Compiler N A → (A → Compiler N B) → Compiler N B
  ◌>>=◌ m f p = continue (m p) f

  unfoldable pub lift : {A : Type 0} → Result A → Compiler N A
  lift (ok a) p = ok (a, p)
  lift (throw e) p = throw e

  -- `params.add(value, type)`
  unfoldable pub add_value : Value N → ChType → Compiler N Units
  add_value v type_ p = ok (
    placeholder p.next type_,
    record { next = p.next + 1; values = set (param_name p.next) v p.values },
  )

  unfoldable pub add : Scalar N → ChType → Compiler N Units
  add v type_ = add_value (scalar v) type_

  abbrev pub new_params : Params N
  new_params = record { next = 0; values = [] }
