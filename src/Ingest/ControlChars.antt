-- ===== src/Ingest/ControlChars.antt =====
-- packages/core/src/ingest/control-chars.ts: `escapeControlCharacters`, over the code units of a text.
mod Tests
pub mod Plain
use lyraflow.Prelude.{ℕ, ◌+◌, ◌/◌, ◌%◌, Bool, ◌&&◌, ◌||◌, [], ◌∷◌, ltb, leb, if◌then◌else◌}
use lyraflow.Prelude.Orders.{Units}

-- What the regular expression matches: 0x00 to 0x1f, and 0x7f to 0x9f.
unfoldable pub is_control : ℕ → Bool
is_control c = leb c 31 || (leb 127 c && leb c 159)

-- A digit of `toString(16)`.
unfoldable pub hex : ℕ → ℕ
hex d = if ltb d 10 then 48 + d else 87 + d

-- A backslash, an x and two digits; `padStart` fills the first with a 0.
unfoldable pub escape_control_characters : Units → Units
escape_control_characters [] = []
escape_control_characters (c ∷ s) =
    let rest = escape_control_characters s in
    if is_control c then 92 ∷ 120 ∷ hex (c / 16) ∷ hex (c % 16) ∷ rest else c ∷ rest
