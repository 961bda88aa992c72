-- ===== src/Segments/Params/Dates.antt =====
-- The dates that the compilers write: `chDateTime` of packages/core/src/segments/params.ts, and
-- packages/core/src/segments/instants.ts, which reads a bound that names no zone as UTC.
use lyraflow.Prelude.Orders.{Units}
use lyraflow.Prelude.Decimal.{units_eq}
use lyraflow.Prelude.Texts.{codes}
use lyraflow.Segments.Syntax.{Scalar, RelativeWindow, text, number, boolean, null, hours, days}
use lyraflow.Segments.Params.{Result, ok, throw, invalid_date}
use lyraflow.Prelude.{
  ℕ, ◌*◌, Bool, false, not, ◌&&◌, ◌||◌, Option, none, some, [], ◌∷◌, ◌++◌, leb, if◌then◌else◌, ◌==◌,
  nat_eq, string_eq,
}

-- What the code takes from the language: `String(n)`, `new Date(text)` where it is valid,
-- `new Date(d.getTime() - ms)`, the date of `Math.min`, and `toISOString`.
pub record Platform (N D : Type 0) : Type 0 where
  pub shown : N → Units
  pub parse : Units → Option D
  pub back : D → ℕ → D
  pub earlier : D → D → D
  pub iso : D → Units

-- `s.replace(c, by)` for one code unit
unfoldable pub replace_first : ℕ → Units → Units → Units
replace_first c by [] = []
replace_first c by (d ∷ s) = if c == d then by ++ s else d ∷ replace_first c by s

abbrev pub is_digit : ℕ → Bool
is_digit c = leb 48 c && leb c 57

abbrev pub is_sign : ℕ → Bool
is_sign c = c == 43 || c == 45

-- `(?:Z|[+-]\d{2}:?\d{2})$`, of a whole text and whatever the case
unfoldable pub is_designator : Units → Bool
is_designator (z ∷ []) = z == 90 || z == 122
is_designator (s ∷ a ∷ b ∷ c ∷ d ∷ []) =
    is_sign s && is_digit a && is_digit b && is_digit c && is_digit d
is_designator (s ∷ a ∷ b ∷ e ∷ c ∷ d ∷ []) =
    is_sign s && is_digit a && is_digit b && e == 58 && is_digit c && is_digit d
is_designator _ = false

-- What `.` does not match.
abbrev pub is_line_break : ℕ → Bool
is_line_break c = c == 10 || c == 13 || c == 8232 || c == 8233

unfoldable pub ends_in_zone : Units → Bool
ends_in_zone [] = false
ends_in_zone (c ∷ s) = is_designator (c ∷ s) || (not (is_line_break c) && ends_in_zone s)

-- `CARRIES_A_ZONE.test`
unfoldable pub carries_a_zone : Units → Bool
carries_a_zone [] = false
carries_a_zone (c ∷ s) = ((c == 84 || c == 116) && ends_in_zone s) || carries_a_zone s

-- `DATE_ONLY.test`
unfoldable pub is_date_only : Units → Bool
is_date_only (a ∷ b ∷ c ∷ d ∷ h ∷ e ∷ f ∷ i ∷ g ∷ j ∷ []) =
    is_digit a
    && is_digit b
    && is_digit c
    && is_digit d
    && h == 45
    && is_digit e
    && is_digit f
    && i == 45
    && is_digit g
    && is_digit j
is_date_only _ = false

-- The text that `lifecycleInstant` gives to `new Date`.
unfoldable pub zoned : Units → Units
zoned value =
    if carries_a_zone value
    then value
    else if is_date_only value
    then value ++ codes "T00:00:00Z"
    else value ++ codes "Z"

unfoldable pub window_ms : RelativeWindow → ℕ
window_ms w = elim w.unit [ hours ↦ w.n * 3600000 | days ↦ w.n * 86400000 ]

module _ {N D : Type 0} (js : Platform N D) where
  -- `String(v)`
  unfoldable pub string_of : Scalar N → Units
  string_of (text s) = s
  string_of (number n) = js.shown n
  string_of (boolean b) = if b then codes "true" else codes "false"
  string_of null = codes "null"

  unfoldable pub lifecycle_instant : Units → Option D
  lifecycle_instant value = js.parse (zoned value)

  -- `chDateTime`, which throws for an invalid date
  unfoldable pub ch_date_time : Option D → Result Units
  ch_date_time none = throw invalid_date
  ch_date_time (some d) = ok (replace_first 90 [] (replace_first 84 (codes " ") (js.iso d)))
