-- ===== src/Retention/Cells/Days.antt =====
-- How many cells of a row of packages/core/src/retention/compile.ts are over, for periods of a day and
-- of a week.
use lyraflow.Retention.Validate.{Granularity, day, week, month, period_ms}
use lyraflow.Retention.Cells.{Calendar, period_end, cells_from, measurable_cells}
use lyraflow.Prelude.{
  ℕ, zero, suc, ◌+◌, ◌-◌, ◌*◌, ◌/◌, ◌%◌, ◌≤◌, ◌<◌, ◌≡◌, refl, sym, ap, ◌∙◌, some, arith, ltb, leb,
  length, get_elem?, nat_eq, string_eq,
}

-- The midnight at or before an instant.
abbrev pub midnight : ℕ → ℕ
midnight t = t - t % 86400000

-- `Date.UTC` of the year, the month and the date of an instant, with days added to the date, is that
-- many days of 24 hours after its midnight, as the language defines it.
abbrev pub CountsDays : Calendar → Type 0
CountsDays c =
    (t n : ℕ) → c.utc (c.year_of t) (c.month_of t) (c.date_of t + n) ≡ midnight t + n * 86400000

-- A period of a fixed length.
abbrev pub IsFixed : Granularity → Type 0
IsFixed day = Unit
IsFixed week = Unit
IsFixed month = ⊥

-- The whole periods from the midnight to `now`.
abbrev pub periods_over : Granularity → ℕ → ℕ → ℕ
periods_over g start now = (now - midnight start) / period_ms g

cell_lem :
    (c : Calendar) (start : ℕ) (g : Granularity) (now k : ℕ)
    → CountsDays c
    → IsFixed g
    → leb (period_end c start g (k + 1)) now ≡ ltb k (periods_over g start now)
unfolding period_end
cell_lem c start day now k h fixed = rw (h start (k + 1)) (ground arith)
cell_lem c start week now k h fixed = rw (h start (7 * (k + 1))) (ground arith)
cell_lem c start month now k h fixed = elim fixed [ ]

length-cells_from :
    (c : Calendar) (start : ℕ) (g : Granularity) (now k left : ℕ)
    → length (cells_from c start g now k left) ≡ left
unfolding cells_from
length-cells_from c start g now k zero = refl
length-cells_from c start g now k (suc left) = ap suc (length-cells_from c start g now (k + 1) left)

get_elem?-cells_from :
    (c : Calendar) (start : ℕ) (g : Granularity) (now k left i : ℕ)
    → i < left
    → get_elem? (cells_from c start g now k left) i
      ≡ some (leb (period_end c start g (k + i + 1)) now)
unfolding cells_from
get_elem?-cells_from c start g now k zero i h = ground (arith, h)
get_elem?-cells_from c start g now k (suc left) zero h =
    let here : k + 0 ≡ k = omega arith in rw here refl
get_elem?-cells_from c start g now k (suc left) (suc i) h =
    let next : k + 1 + i ≡ k + suc i = omega arith in
    rw (sym next) (get_elem?-cells_from c start g now (k + 1) left i (omega (arith, h)))

-- For days and weeks, and a calendar that counts days as the language defines it, a row has a cell for
-- the period of entry and one for each period after it, and a cell is measurable exactly when its
-- number, from 0, is below the number of whole periods that are over since the midnight at which the
-- cohort starts.
pub measurable_cells-periods_over :
    (c : Calendar) (start : ℕ) (g : Granularity) (periods now k : ℕ)
    → CountsDays c
    → IsFixed g
    → k ≤ periods
    → (length (measurable_cells c start g periods now) ≡ periods + 1)
      × (get_elem? (measurable_cells c start g periods now) k
          ≡ some (ltb k (periods_over g start now)))
unfolding measurable_cells
measurable_cells-periods_over c start g periods now k days fixed h =
    let index : 0 + k + 1 ≡ k + 1 = omega arith in
    (
      length-cells_from c start g now 0 (periods + 1),
      get_elem?-cells_from c start g now 0 (periods + 1) k (omega (arith, h))
          ∙ ap (λ n. some (leb (period_end c start g n) now)) index
          ∙ ap some (cell_lem c start g now k days fixed),
    )
