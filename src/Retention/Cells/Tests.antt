-- ===== src/Retention/Cells/Tests.antt =====
-- Runs of `measurableCells` of packages/core/src/retention/compile.ts.
use lyraflow.Retention.Validate.{week, month}
use lyraflow.Retention.Cells.{Calendar, period_end, cells_from, measurable_cells}
use lyraflow.Retention.Cells.Days.{CountsDays, measurable_cells-periods_over}
use lyraflow.Prelude.{
  ◌+◌, ◌-◌, ◌*◌, ◌/◌, ◌%◌, ◌≡◌, refl, true, false, some, [], ◌∷◌, arith, length, get_elem?, nat_eq,
  string_eq,
}

-- Months of 31 days.
abbrev even_months : Calendar
even_months = record {
  year_of = λ t. t / 32140800000;
  month_of = λ t. t / 2678400000 % 12;
  date_of = λ t. t / 86400000 % 31 + 1;
  utc = λ y m d. ((y * 12 + m) * 31 + d) * 86400000 - 86400000;
}

even_months-CountsDays : CountsDays even_months
even_months-CountsDays = λ t n. omega arith

two_over :
    (measurable_cells even_months 2678400000 month 3 8035200000 ≡ true ∷ true ∷ false ∷ false ∷ [])
    × (measurable_cells even_months 0 week 3 1209600000 ≡ true ∷ true ∷ false ∷ false ∷ [])
unfolding measurable_cells cells_from period_end
two_over = (refl, refl)

measurable_cells-periods_over_example :
    (length (measurable_cells even_months 0 week 3 1209600000) ≡ 4)
    × (get_elem? (measurable_cells even_months 0 week 3 1209600000) 1 ≡ some true)
measurable_cells-periods_over_example =
    measurable_cells-periods_over even_months 0 week 3 1209600000 1 even_months-CountsDays tt
      (omega arith)
