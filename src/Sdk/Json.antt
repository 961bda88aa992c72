-- ===== src/Sdk/Json.antt =====
-- What `JSON.parse(JSON.stringify(value))` of the language does to the values that a page puts into an
-- event, as packages/sdk-browser/src/queue.ts uses it for storage. Objects are plain: of those with a
-- `toJSON` only dates are modelled, and a finite number is its text.
pub mod Laws
use lyraflow.Prelude.{String, Bool, true, false, ◌&&◌, Option, none, some}

-- `missing` is undefined, a function or a symbol; `not_finite` is NaN or an infinity; a date has its
-- ISO text where it is valid; `refused` is what makes `stringify` throw: a BigInt or a cycle.
mutual
  pub data Value : Type 0 where
    missing null not_finite refused : Value
    flag : Bool → Value
    number string : String → Value
    date : Option String → Value
    list : Values → Value
    object : Fields → Value

  pub data Values : Type 0 where
    nil : Values
    cons : Value → Values → Values

  pub data Fields : Type 0 where
    empty : Fields
    field : String → Value → Fields → Fields

-- `stringify` returns.
unfoldable mutual
  pub serialises : Value → Bool
  serialises refused = false
  serialises (list vs) = serialises_all vs
  serialises (object fs) = serialises_fields fs
  serialises _ = true

  pub serialises_all : Values → Bool
  serialises_all nil = true
  serialises_all (cons v vs) = serialises v && serialises_all vs

  pub serialises_fields : Fields → Bool
  serialises_fields empty = true
  serialises_fields (field k v fs) = serialises v && serialises_fields fs

abbrev pub element : Option Value → Value
element none = null
element (some v) = v

abbrev pub with_field : String → Option Value → Fields → Fields
with_field k none fs = fs
with_field k (some v) fs = field k v fs

-- The value that is read back: a field that is left out is none, an element is null.
unfoldable mutual
  pub reread : Value → Option Value
  reread missing = none
  reread refused = none
  reread null = some null
  reread not_finite = some null
  reread (flag b) = some (flag b)
  reread (number t) = some (number t)
  reread (string s) = some (string s)
  reread (date none) = some null
  reread (date (some t)) = some (string t)
  reread (list vs) = some (list (reread_all vs))
  reread (object fs) = some (object (reread_fields fs))

  pub reread_all : Values → Values
  reread_all nil = nil
  reread_all (cons v vs) = cons (element (reread v)) (reread_all vs)

  pub reread_fields : Fields → Fields
  reread_fields empty = empty
  reread_fields (field k v fs) = with_field k (reread v) (reread_fields fs)
