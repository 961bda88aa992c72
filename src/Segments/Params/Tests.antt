-- ===== src/Segments/Params/Tests.antt =====
-- Runs of packages/core/src/segments/params.ts and packages/core/src/segments/instants.ts.
use lyraflow.Prelude.Texts.{codes}
use lyraflow.Segments.Params.Dates.{
  carries_a_zone, ends_in_zone, is_designator, is_date_only, zoned, replace_first,
  lifecycle_instant,
}
use lyraflow.Segments.Samples.{clock}
use lyraflow.Segments.Params.Zones.{
  no_zone, offset, Bound, instant, bound_text, utc_text, IsWritten, lifecycle_instant-bound_text,
}
use lyraflow.Prelude.{arith, ◌≡◌, refl, true, false, [], nat_eq, string_eq}

-- An offset is a zone, a date alone is none, and neither is the end of a date.
zones :
    (carries_a_zone (codes "2026-08-01T10:00+05:30") ≡ true)
    × ((carries_a_zone (codes "2026-08-01") ≡ false)
        × (zoned (codes "2026-08-01") ≡ codes "2026-08-01T00:00:00Z"))
unfolding carries_a_zone ends_in_zone is_designator is_date_only zoned codes
zones = (refl, (refl, refl))

literal :
    replace_first 90 [] (replace_first 84 (codes " ") (codes "2026-08-01T10:00:00.000Z"))
    ≡ codes "2026-08-01 10:00:00.000"
unfolding replace_first codes
literal = refl

-- 2026-08-01T10:00:00, as the picker writes it.
abbrev morning : Bound
morning = instant (codes "2026-08-01") (codes "10:00:00") no_zone

morning-IsWritten : IsWritten morning
unfolding codes
morning-IsWritten = omega arith

-- With an offset of five and a half hours.
abbrev abroad : Bound
abroad = instant (codes "2026-08-01") (codes "10:00") (offset true true 0 5 3 0)

texts :
    (bound_text morning ≡ codes "2026-08-01T10:00:00")
    × ((utc_text morning ≡ codes "2026-08-01T10:00:00Z")
        × (bound_text abroad ≡ codes "2026-08-01T10:00+05:30"))
unfolding codes
texts = (refl, (refl, refl))

lifecycle_instant-bound_text_example :
    lifecycle_instant clock (bound_text morning) ≡ clock.parse (utc_text morning)
lifecycle_instant-bound_text_example = lifecycle_instant-bound_text clock morning morning-IsWritten
