-- ===== src/Sdk/Json/Laws.antt =====
-- What storage keeps of an event of packages/sdk-browser/src/queue.ts: a value of JSON alone is kept as
-- it is, and whatever is read back is one.
use lyraflow.Prelude.{String, ◌≡◌, refl, Option, none, some}
use lyraflow.Sdk.Json.{
  Value, Values, Fields, missing, null, not_finite, refused, flag, number, string, date, list,
  object, nil, cons, empty, field, element, with_field, reread, reread_all, reread_fields,
}

-- The values that JSON has.
unfoldable mutual
  pub IsJson : Value → Type 0
  IsJson missing = ⊥
  IsJson not_finite = ⊥
  IsJson refused = ⊥
  IsJson (date t) = ⊥
  IsJson (list vs) = AreJson vs
  IsJson (object fs) = HaveJson fs
  IsJson _ = Unit

  pub AreJson : Values → Type 0
  AreJson nil = Unit
  AreJson (cons v vs) = IsJson v × AreJson vs

  pub HaveJson : Fields → Type 0
  HaveJson empty = Unit
  HaveJson (field k v fs) = IsJson v × HaveJson fs

mutual
  unfolding reread IsJson

  reread-IsJson : (v : Value) → IsJson v → reread v ≡ some v
  reread-IsJson missing h = elim h [ ]
  reread-IsJson not_finite h = elim h [ ]
  reread-IsJson refused h = elim h [ ]
  reread-IsJson (date t) h = elim h [ ]
  reread-IsJson null h = refl
  reread-IsJson (flag b) h = refl
  reread-IsJson (number t) h = refl
  reread-IsJson (string s) h = refl
  reread-IsJson (list vs) h = rw (reread_all-AreJson vs h) refl
  reread-IsJson (object fs) h = rw (reread_fields-HaveJson fs h) refl

  reread_all-AreJson : (vs : Values) → AreJson vs → reread_all vs ≡ vs
  reread_all-AreJson nil h = refl
  reread_all-AreJson (cons v vs) h = rw (reread-IsJson v h.0, reread_all-AreJson vs h.1) refl

  pub reread_fields-HaveJson : (fs : Fields) → HaveJson fs → reread_fields fs ≡ fs
  reread_fields-HaveJson empty h = refl
  reread_fields-HaveJson (field k v fs) h =
      rw (reread-IsJson v h.0, reread_fields-HaveJson fs h.1) refl

abbrev MaybeJson : Option Value → Type 0
MaybeJson none = Unit
MaybeJson (some v) = IsJson v

IsJson-element : (o : Option Value) → MaybeJson o → IsJson (element o)
unfolding IsJson
IsJson-element none h = tt
IsJson-element (some v) h = h

HaveJson-with_field :
    (k : String) (o : Option Value) (fs : Fields)
    → MaybeJson o
    → HaveJson fs
    → HaveJson (with_field k o fs)
unfolding IsJson
HaveJson-with_field k none fs h hs = hs
HaveJson-with_field k (some v) fs h hs = (h, hs)

mutual
  unfolding reread IsJson

  MaybeJson-reread : (v : Value) → MaybeJson (reread v)
  MaybeJson-reread missing = tt
  MaybeJson-reread not_finite = tt
  MaybeJson-reread refused = tt
  MaybeJson-reread (date none) = tt
  MaybeJson-reread (date (some t)) = tt
  MaybeJson-reread null = tt
  MaybeJson-reread (flag b) = tt
  MaybeJson-reread (number t) = tt
  MaybeJson-reread (string s) = tt
  MaybeJson-reread (list vs) = AreJson-reread_all vs
  MaybeJson-reread (object fs) = HaveJson-reread_fields fs

  AreJson-reread_all : (vs : Values) → AreJson (reread_all vs)
  AreJson-reread_all nil = tt
  AreJson-reread_all (cons v vs) =
      (IsJson-element (reread v) (MaybeJson-reread v), AreJson-reread_all vs)

  pub HaveJson-reread_fields : (fs : Fields) → HaveJson (reread_fields fs)
  HaveJson-reread_fields empty = tt
  HaveJson-reread_fields (field k v fs) =
      HaveJson-with_field k (reread v) (reread_fields fs) (MaybeJson-reread v)
        (HaveJson-reread_fields fs)
