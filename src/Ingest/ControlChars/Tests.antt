-- ===== src/Ingest/ControlChars/Tests.antt =====
-- Runs of packages/core/src/ingest/control-chars.ts at concrete inputs.
use lyraflow.Prelude.{◌≡◌, refl, [], ◌∷◌, nat_eq, string_eq}
use lyraflow.Ingest.ControlChars.{is_control, hex, escape_control_characters}

-- An escape character between two letters becomes a backslash, x1b.
esc : escape_control_characters (97 ∷ 27 ∷ 98 ∷ []) ≡ 97 ∷ 92 ∷ 120 ∷ 49 ∷ 98 ∷ 98 ∷ []
unfolding escape_control_characters is_control hex
esc = refl
