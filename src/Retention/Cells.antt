-- ===== src/Retention/Cells.antt =====
-- `measurableCells` of packages/core/src/retention/compile.ts: which cells of a row of the grid are
-- over. The calendar of the language is a parameter.
mod Tests
pub mod Days
use lyraflow.Retention.Validate.{Granularity, day, week, month}
use lyraflow.Prelude.{ℕ, zero, suc, ◌+◌, ◌*◌, Bool, List, [], ◌∷◌, leb}

-- `getUTCFullYear`, `getUTCMonth`, `getUTCDate`, and `Date.UTC` with its carry of months and days.
pub record Calendar : Type 0 where
  pub year_of : ℕ → ℕ
  pub month_of : ℕ → ℕ
  pub date_of : ℕ → ℕ
  pub utc : ℕ → ℕ → ℕ → ℕ

module _ (calendar : Calendar) where
  abbrev pub end_after : Granularity → ℕ → ℕ → ℕ → ℕ → ℕ
  end_after month y m d n = calendar.utc y (m + n) d
  end_after week y m d n = calendar.utc y m (d + 7 * n)
  end_after day y m d n = calendar.utc y m (d + n)

  -- `periodEnd`
  unfoldable pub period_end : ℕ → Granularity → ℕ → ℕ
  period_end start g n =
      end_after g (calendar.year_of start) (calendar.month_of start) (calendar.date_of start) n

  -- The loop over `k`, with the number of turns that are left.
  unfoldable pub cells_from : ℕ → Granularity → ℕ → ℕ → ℕ → List Bool
  cells_from start g now k zero = []
  cells_from start g now k (suc left) =
      leb (period_end start g (k + 1)) now ∷ cells_from start g now (k + 1) left

  unfoldable pub measurable_cells : ℕ → Granularity → ℕ → ℕ → List Bool
  measurable_cells start g periods now = cells_from start g now 0 (periods + 1)
