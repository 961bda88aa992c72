-- ===== src/Ingest/ControlChars/Plain.antt =====
-- packages/core/src/ingest/control-chars.ts: the characters of what is stored.
use lyraflow.Prelude.{
  ℕ, ◌/◌, ◌%◌, ◌<◌, ◌≡◌, refl, ap, inl, inr, true, false, [], ◌∷◌, arith, Bool-cases, All, nat_eq,
  string_eq,
}
use lyraflow.Prelude.Orders.{Units}
use lyraflow.Ingest.ControlChars.{is_control, hex, escape_control_characters}

-- No code unit is a control character.
abbrev pub IsPlain : Units → Type 0
IsPlain = All (λ c. is_control c ≡ false)

hex-plain : (d : ℕ) → d < 16 → is_control (hex d) ≡ false
unfolding hex is_control
hex-plain d lt = ground arith

control-lt : (c : ℕ) → is_control c ≡ true → c / 16 < 16
unfolding is_control
control-lt c h = ground arith

escape_control_characters-IsPlain : (s : Units) → IsPlain (escape_control_characters s)
unfolding escape_control_characters is_control
escape_control_characters-IsPlain [] = tt
escape_control_characters-IsPlain (c ∷ s) = elim (Bool-cases (is_control c)) [
  | inl control ↦ rw control (
    backslash,
    (
      letter,
      (
        hex-plain (c / 16) (control-lt c control),
        (hex-plain (c % 16) (omega arith), escape_control_characters-IsPlain s),
      ),
    ),
  )
  | inr plain ↦ rw plain (plain, escape_control_characters-IsPlain s)
]
  where
    backslash : is_control 92 ≡ false
    backslash = refl

    letter : is_control 120 ≡ false
    letter = refl

-- A text without control characters is stored as it is.
escape_control_characters_plain : (s : Units) → IsPlain s → escape_control_characters s ≡ s
unfolding escape_control_characters
escape_control_characters_plain [] h = refl
escape_control_characters_plain (c ∷ s) (plain, h) =
    rw plain (ap (λ r. c ∷ r) (escape_control_characters_plain s h))

-- The result holds no control character, and escaping it again changes nothing.
pub escape_control_characters_lem :
    (s : Units)
    → IsPlain (escape_control_characters s)
      × (escape_control_characters (escape_control_characters s) ≡ escape_control_characters s)
escape_control_characters_lem s = (
  escape_control_characters-IsPlain s,
  escape_control_characters_plain _ (escape_control_characters-IsPlain s),
)
