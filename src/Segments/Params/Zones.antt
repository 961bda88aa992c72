-- ===== src/Segments/Params/Zones.antt =====
-- What packages/core/src/segments/instants.ts hands to the language's date parser, for a bound that is
-- written as a date, or as a date and a time with or without a zone.
use mathlib.Core.List.{append-nil}
use lyraflow.Prelude.Texts.{codes}
use lyraflow.Prelude.Orders.{Units}
use lyraflow.Segments.Params.Dates.{
  Platform, is_digit, is_sign, is_line_break, is_designator, ends_in_zone, carries_a_zone,
  is_date_only, zoned, lifecycle_instant,
}
use lyraflow.Prelude.{
  ℕ, ◌+◌, ◌≤◌, ◌<◌, ◌≡◌, refl, ap, inl, inr, Bool, true, false, not, ◌&&◌, ◌||◌, [], ◌∷◌, ◌++◌,
  arith, Bool-cases, All, ◌==◌, ==_iff, nat_eq, string_eq,
}

pub data Zone : Type 0 where
  no_zone utc : Zone
  -- The sign, whether there is a colon, and the digits of the hours and of the minutes.
  offset : (is_plus has_colon : Bool) → (a b c d : ℕ) → Zone

pub data Bound : Type 0 where
  -- The digits of the year, of the month and of the day.
  date : (a b c d e f g h : ℕ) → Bound
  -- What stands before and after the T.
  instant : (day time : Units) → Zone → Bound

abbrev pub digit : ℕ → ℕ
digit n = 48 + n

abbrev pub sign_of : Bool → ℕ
sign_of true = 43
sign_of false = 45

abbrev pub minutes_text : Bool → ℕ → ℕ → Units
minutes_text true c d = 58 ∷ digit c ∷ digit d ∷ []
minutes_text false c d = digit c ∷ digit d ∷ []

abbrev pub zone_text : Zone → Units
zone_text no_zone = []
zone_text utc = 90 ∷ []
zone_text (offset is_plus has_colon a b c d) =
    sign_of is_plus ∷ digit a ∷ digit b ∷ minutes_text has_colon c d

abbrev pub bound_text : Bound → Units
bound_text (date a b c d e f g h) =
    digit a ∷ digit b ∷ digit c ∷ digit d ∷ 45 ∷ digit e ∷ digit f ∷ 45 ∷ digit g ∷ digit h ∷ []
bound_text (instant day time zone) = day ++ (84 ∷ (time ++ zone_text zone))

-- The same instant with its zone written: midnight of a date, and UTC where there is none.
abbrev pub in_zone : Zone → Units → Units
in_zone no_zone text = text ++ (90 ∷ [])
in_zone utc text = text
in_zone (offset is_plus has_colon a b c d) text = text

abbrev pub utc_text : Bound → Units
utc_text (date a b c d e f g h) = bound_text (date a b c d e f g h) ++ codes "T00:00:00Z"
utc_text (instant day time zone) = in_zone zone (bound_text (instant day time zone))

-- From the hyphen to the digits, and from the full stop to the colon.
abbrev pub IsDayUnit : ℕ → Type 0
IsDayUnit c = (45 ≤ c) × (c ≤ 57)

abbrev pub IsTimeUnit : ℕ → Type 0
IsTimeUnit c = (46 ≤ c) × (c ≤ 58)

abbrev pub HasDigits : Zone → Type 0
HasDigits no_zone = Unit
HasDigits utc = Unit
HasDigits (offset is_plus has_colon a b c d) = (a < 10) × ((b < 10) × ((c < 10) × (d < 10)))

abbrev pub IsWritten : Bound → Type 0
IsWritten (date a b c d e f g h) =
    (a < 10)
    × ((b < 10) × ((c < 10) × ((d < 10) × ((e < 10) × ((f < 10) × ((g < 10) × (h < 10)))))))
IsWritten (instant day time zone) = All IsDayUnit day × (All IsTimeUnit time × HasDigits zone)

is_digit-digit : (n : ℕ) → n < 10 → is_digit (digit n) ≡ true
is_digit-digit n h = ground (arith, h)

no_t : (c : ℕ) → c ≤ 58 → (c == 84 || c == 116) ≡ false
no_t c h = ground (arith, h, ==_iff c 84, ==_iff c 116)

carries_a_zone-append :
    (s y : Units) → All (λ c. c ≤ 58) s → carries_a_zone (s ++ y) ≡ carries_a_zone y
unfolding carries_a_zone
carries_a_zone-append [] y h = refl
carries_a_zone-append (c ∷ s) y (h, hs) = rw (no_t c h, carries_a_zone-append s y hs) refl

carries_a_zone_none : (s : Units) → All (λ c. c ≤ 58) s → carries_a_zone s ≡ false
unfolding carries_a_zone
carries_a_zone_none [] h = refl
carries_a_zone_none (c ∷ s) (h, hs) = rw (no_t c h, carries_a_zone_none s hs) refl

no_sign : (c : ℕ) → IsTimeUnit c → is_sign c ≡ false
no_sign c h = ground (arith, h.0, ==_iff c 43, ==_iff c 45)

is_designator_none : (c : ℕ) (s : Units) → IsTimeUnit c → is_designator (c ∷ s) ≡ false
unfolding is_designator
is_designator_none c [] h = ground (arith, h.1, ==_iff c 90, ==_iff c 122)
is_designator_none c (d ∷ []) h = refl
is_designator_none c (d ∷ e ∷ []) h = refl
is_designator_none c (d ∷ e ∷ f ∷ []) h = refl
is_designator_none c (d ∷ e ∷ f ∷ g ∷ []) h = rw (no_sign c h) refl
is_designator_none c (d ∷ e ∷ f ∷ g ∷ i ∷ []) h = rw (no_sign c h) refl
is_designator_none c (d ∷ e ∷ f ∷ g ∷ i ∷ j ∷ s) h = refl

-- No time of the day is a zone.
ends_in_zone_none : (s : Units) → All IsTimeUnit s → ends_in_zone s ≡ false
unfolding ends_in_zone
ends_in_zone_none [] h = refl
ends_in_zone_none (c ∷ s) (h, hs) =
    rw (is_designator_none c s h, ends_in_zone_none s hs) (and_false (not (is_line_break c)))
  where
    and_false : (b : Bool) → (b && false) ≡ false
    and_false true = refl
    and_false false = refl

in_line : (c : ℕ) → IsTimeUnit c → is_line_break c ≡ false
in_line c h = ground (arith, h.0, h.1, ==_iff c 10, ==_iff c 13, ==_iff c 8232, ==_iff c 8233)

or_true : (a b : Bool) → b ≡ true → (a || b) ≡ true
or_true true b h = refl
or_true false b h = h

ends_in_zone-append :
    (s y : Units) → All IsTimeUnit s → ends_in_zone y ≡ true → ends_in_zone (s ++ y) ≡ true
unfolding ends_in_zone
ends_in_zone-append [] y h e = e
ends_in_zone-append (c ∷ s) y (h, hs) e =
    or_true (is_designator (c ∷ s ++ y)) _ (rw (in_line c h, ends_in_zone-append s y hs e) refl)

is_date_only-All : (s : Units) → is_date_only s ≡ true → All (λ c. c ≤ 57) s
unfolding is_date_only
is_date_only-All [] only = tt
is_date_only-All (a ∷ []) only = cc
is_date_only-All (a ∷ b ∷ []) only = cc
is_date_only-All (a ∷ b ∷ c ∷ []) only = cc
is_date_only-All (a ∷ b ∷ c ∷ d ∷ []) only = cc
is_date_only-All (a ∷ b ∷ c ∷ d ∷ e ∷ []) only = cc
is_date_only-All (a ∷ b ∷ c ∷ d ∷ e ∷ f ∷ []) only = cc
is_date_only-All (a ∷ b ∷ c ∷ d ∷ e ∷ f ∷ g ∷ []) only = cc
is_date_only-All (a ∷ b ∷ c ∷ d ∷ e ∷ f ∷ g ∷ i ∷ []) only = cc
is_date_only-All (a ∷ b ∷ c ∷ d ∷ e ∷ f ∷ g ∷ i ∷ j ∷ []) only = cc
is_date_only-All (a ∷ b ∷ c ∷ d ∷ e ∷ f ∷ g ∷ i ∷ j ∷ k ∷ []) only =
    ground (arith, only, ==_iff e 45, ==_iff i 45)
is_date_only-All (a ∷ b ∷ c ∷ d ∷ e ∷ f ∷ g ∷ i ∷ j ∷ k ∷ l ∷ s) only = cc

All-middle : (P : ℕ → Type 0) (s y : Units) (x : ℕ) → All P (s ++ (x ∷ y)) → P x
All-middle P [] y x h = h.0
All-middle P (c ∷ s) y x h = All-middle P s y x h.1

absurd : 84 ≤ 57 → ⊥
absurd h = omega (arith, h)

is_date_only_none : (s y : Units) → is_date_only (s ++ (84 ∷ y)) ≡ false
is_date_only_none s y = elim (Bool-cases (is_date_only (s ++ (84 ∷ y)))) [
  | inl only ↦
      let low : 84 ≤ 57 = All-middle (λ c. c ≤ 57) s y 84 (is_date_only-All (s ++ (84 ∷ y)) only) in
      elim (absurd low) [ ]
  | inr other ↦ other
]

All-day : (s : Units) → All IsDayUnit s → All (λ c. c ≤ 58) s
All-day [] h = tt
All-day (c ∷ s) (h, hs) = (omega (arith, h.1), All-day s hs)

All-time : (s : Units) → All IsTimeUnit s → All (λ c. c ≤ 58) s
All-time [] h = tt
All-time (c ∷ s) (h, hs) = (h.1, All-time s hs)

ends_in_zone-zone_text :
    (is_plus has_colon : Bool) (a b c d : ℕ)
    → HasDigits (offset is_plus has_colon a b c d)
    → ends_in_zone (zone_text (offset is_plus has_colon a b c d)) ≡ true
unfolding ends_in_zone is_designator
ends_in_zone-zone_text true true a b c d (ha, (hb, (hc, hd))) =
    rw (is_digit-digit a ha, is_digit-digit b hb, is_digit-digit c hc, is_digit-digit d hd) refl
ends_in_zone-zone_text true false a b c d (ha, (hb, (hc, hd))) =
    rw (is_digit-digit a ha, is_digit-digit b hb, is_digit-digit c hc, is_digit-digit d hd) refl
ends_in_zone-zone_text false true a b c d (ha, (hb, (hc, hd))) =
    rw (is_digit-digit a ha, is_digit-digit b hb, is_digit-digit c hc, is_digit-digit d hd) refl
ends_in_zone-zone_text false false a b c d (ha, (hb, (hc, hd))) =
    rw (is_digit-digit a ha, is_digit-digit b hb, is_digit-digit c hc, is_digit-digit d hd) refl

z_ends : ends_in_zone (90 ∷ []) ≡ true
unfolding ends_in_zone is_designator
z_ends = refl

-- Whether there is a zone in the text of a date and a time.
carries_a_zone-instant :
    (day time zone : Units)
    → All IsDayUnit day
    → All IsTimeUnit time
    → ends_in_zone (time ++ zone) ≡ true
    → carries_a_zone (day ++ (84 ∷ (time ++ zone))) ≡ true
unfolding carries_a_zone
carries_a_zone-instant day time zone hd ht e =
    rw (carries_a_zone-append day (84 ∷ (time ++ zone)) (All-day day hd), e) refl

zoned_carrying : (s : Units) → carries_a_zone s ≡ true → zoned s ≡ s
unfolding zoned
zoned_carrying s h = rw h refl

zoned_date :
    (s : Units)
    → carries_a_zone s ≡ false
    → is_date_only s ≡ true
    → zoned s ≡ s ++ codes "T00:00:00Z"
unfolding zoned
zoned_date s bare only = rw (bare, only) refl

zoned_bare :
    (s : Units) → carries_a_zone s ≡ false → is_date_only s ≡ false → zoned s ≡ s ++ (90 ∷ [])
unfolding zoned codes
zoned_bare s bare only = rw (bare, only) refl

carries_a_zone-bare :
    (day time : Units)
    → All IsDayUnit day
    → All IsTimeUnit time
    → carries_a_zone (day ++ (84 ∷ (time ++ []))) ≡ false
unfolding carries_a_zone
carries_a_zone-bare day time hd ht =
    rw
      (
        append-nil time,
        carries_a_zone-append day (84 ∷ time) (All-day day hd),
        ends_in_zone_none time ht,
      )
      (carries_a_zone_none time (All-time time ht))

is_date_only-date :
    (a b c d e f g h : ℕ)
    → IsWritten (date a b c d e f g h)
    → is_date_only (bound_text (date a b c d e f g h)) ≡ true
unfolding is_date_only
is_date_only-date a b c d e f g h (ha, (hb, (hc, (hd, (he, (hf, (hg, hh))))))) =
    rw
      (
        is_digit-digit a ha,
        is_digit-digit b hb,
        is_digit-digit c hc,
        is_digit-digit d hd,
        is_digit-digit e he,
        is_digit-digit f hf,
        is_digit-digit g hg,
        is_digit-digit h hh,
      )
      refl

zoned-bound_text : (bound : Bound) → IsWritten bound → zoned (bound_text bound) ≡ utc_text bound
zoned-bound_text (date a b c d e f g h) w =
    zoned_date _ (carries_a_zone_none (bound_text (date a b c d e f g h)) (omega (arith, w)))
      (is_date_only-date a b c d e f g h w)
zoned-bound_text (instant day time no_zone) (hd, (ht, hz)) =
    zoned_bare _ (carries_a_zone-bare day time hd ht) (is_date_only_none day (time ++ []))
zoned-bound_text (instant day time utc) (hd, (ht, hz)) =
    zoned_carrying _ (
      carries_a_zone-instant day time (90 ∷ []) hd ht
        (ends_in_zone-append time (90 ∷ []) ht z_ends))
zoned-bound_text (instant day time (offset p q a b c d)) (hd, (ht, hz)) = zoned_carrying _ (
    carries_a_zone-instant day time (zone_text (offset p q a b c d)) hd ht
      (ends_in_zone-append time _ ht (ends_in_zone-zone_text p q a b c d hz)))

-- A date is read as its midnight in UTC, a date and a time without a zone as that time in UTC, and
-- one with a zone as it is written, whether the zone is a Z or an offset with a colon or without.
pub lifecycle_instant-bound_text :
    {N D : Type 0} (js : Platform N D) (bound : Bound)
    → IsWritten bound
    → lifecycle_instant js (bound_text bound) ≡ js.parse (utc_text bound)
unfolding lifecycle_instant
lifecycle_instant-bound_text js bound h = ap js.parse (zoned-bound_text bound h)
