-- ===== src/Segments/Samples.antt =====
-- What the runs of the compilers of packages/core/src take from the language, for dates that are
-- numbers, and a replacement that tries to leave the place of a text.
use lyraflow.Prelude.Orders.{Units}
use lyraflow.Prelude.Decimal.{decimal, units_eq, units_beq}
use lyraflow.Prelude.Texts.{codes}
use lyraflow.Segments.Params.Dates.{Platform}
use lyraflow.Segments.Replace.{Replacement}
use lyraflow.Prelude.{
  ℕ, ◌+◌, ◌-◌, min, ◌≡◌, refl, inl, inr, not, some, ◌∷◌, if◌then◌else◌, Bool-cases, length, ◌==◌,
  nat_eq, string_eq,
}

-- A date is read from the length of its text.
abbrev pub clock : Platform ℕ ℕ
clock = record {
  shown = decimal;
  parse = λ s. some (length s);
  back = λ d ms. d - ms;
  earlier = min;
  iso = λ d. codes "2026-08-01T00:00:00.000Z";
}

-- Every text but `*` gets a quote before it.
abbrev pub quoted : Units → Units
quoted s = if s == codes "*" then s else 39 ∷ s

pub quoted-star : (s : Units) → (quoted s == codes "*") ≡ (s == codes "*")
unfolding codes units_beq
quoted-star s = elim (Bool-cases (s == codes "*")) [
  | inl star ↦ rw star star
  | inr other ↦ rw other refl
]

abbrev pub hostile : Replacement ℕ
hostile = record {
  of_text = quoted;
  of_number = λ n. n + 1;
  of_flag = not;
  of_length = λ n. n;
  of_star = quoted-star;
}
