-- ===== src/Funnels/Levels.antt =====
-- packages/core/src/funnels/levels.ts: `summarise`, which turns the histogram of levels into counts and
-- rates for each step. Levels and counts of people are not negative. A rate is kept as its fraction. An
-- array is a list, and a read out of its range gives 0, as `?? 0` has it.
mod Tests
pub mod Arrays
pub mod Reached
pub mod Steps
pub mod Branches
use lyraflow.Prelude.{
  ℕ, zero, suc, ◌+◌, ◌-◌, min, String, Option, none, some, List, [], ◌∷◌, ltb, leb, if◌then◌else◌,
  get_or_else, length, get_elem?, get_or, ◌==◌, nat_eq, string_eq,
}
use lyraflow.Funnels.Spine.{FunnelStep, Branch, StepPlacement, FunnelSpine, funnel_spine}

pub record LevelRow : Type 0 where
  pub level : ℕ
  pub people : ℕ
  pub partial : ℕ
  pub optional_reached : Option (List ℕ)
  pub optional_continued : Option (List ℕ)

-- A fraction, its denominator not 0.
pub record Rate : Type 0 where
  pub over : ℕ
  pub under : ℕ

pub data ℤ : Type 0 where
  pos negsuc : ℕ → ℤ

-- `m - n`
abbrev pub subtract : ℕ → ℕ → ℤ
subtract m n = if leb n m then pos (m - n) else negsuc (n - m - 1)

-- What only an optional step has.
pub record BranchResult : Type 0 where
  pub skipped : ℤ
  pub continued : ℕ

pub record StepResult : Type 0 where
  pub index : ℕ
  pub event : String
  pub people : ℕ
  pub from_previous : Rate
  pub from_start : Rate
  pub optional : Option BranchResult

pub record FunnelResult : Type 0 where
  pub entered : ℕ
  pub converted : ℕ
  pub conversion_rate : Rate
  pub steps : List StepResult
  pub partial_window_entrants : ℕ

-- What the loop over the rows adds up.
pub record Totals : Type 0 where
  pub stopped_at : List ℕ
  pub optional_totals : List ℕ
  pub continued_totals : List ℕ
  pub partial : ℕ

-- `new Array(n).fill(0)`
unfoldable pub zeros : ℕ → List ℕ
zeros zero = []
zeros (suc n) = 0 ∷ zeros n

-- `xs[i] = (xs[i] ?? 0) + v`, for an index in range.
unfoldable pub add_at : ℕ → ℕ → List ℕ → List ℕ
add_at i v [] = []
add_at zero v (x ∷ xs) = (x + v) ∷ xs
add_at (suc i) v (x ∷ xs) = x ∷ add_at i v xs

-- `xs[i] = v`, for an index in range.
unfoldable pub set_at : ℕ → ℕ → List ℕ → List ℕ
set_at i v [] = []
set_at zero v (x ∷ xs) = v ∷ xs
set_at (suc i) v (x ∷ xs) = x ∷ set_at i v xs

-- `totals[j] = (totals[j] ?? 0) + (counts?.[j] ?? 0)` for every index of the totals.
unfoldable pub add_each : List ℕ → List ℕ → List ℕ
add_each [] counts = []
add_each (t ∷ ts) [] = t ∷ ts
add_each (t ∷ ts) (c ∷ counts) = (t + c) ∷ add_each ts counts

abbrev pub stop_at : ℕ → LevelRow → Totals → Totals
stop_at spine_length row t = if ltb row.level 1 then t else record t {
  stopped_at = add_at (min row.level spine_length) row.people t.stopped_at;
  partial = t.partial + row.partial;
}

-- The body of the loop over the rows.
abbrev pub add_row : ℕ → LevelRow → Totals → Totals
add_row spine_length row t = stop_at spine_length row (record t {
  optional_totals = add_each t.optional_totals (get_or_else row.optional_reached []);
  continued_totals = add_each t.continued_totals (get_or_else row.optional_continued []);
})

unfoldable pub add_rows : ℕ → List LevelRow → Totals → Totals
add_rows spine_length [] t = t
add_rows spine_length (row ∷ rows) t = add_rows spine_length rows (add_row spine_length row t)

-- The suffix sum: the loop from `i` down to 1.
unfoldable pub suffix_sum : List ℕ → ℕ → List ℕ → List ℕ
suffix_sum stopped_at zero at_least = at_least
suffix_sum stopped_at (suc i) at_least =
    suffix_sum stopped_at i
      (set_at (suc i) (get_or stopped_at (suc i) 0 + get_or at_least (suc (suc i)) 0) at_least)

abbrev pub rate : ℕ → ℕ → Rate
rate n zero = record { over = 0; under = 1 }
rate n (suc d) = record { over = n; under = suc d }

-- The result of one step, by its placement.
abbrev pub branch_result : List ℕ → Totals → ℕ → FunnelStep → ℕ → Branch → StepResult
branch_result at_least t i step spine_rank branch =
    let entered = get_or at_least 1 0 in
    let people = get_or t.optional_totals branch.index 0 in
    let branch_point = if spine_rank == 0 then entered else get_or at_least spine_rank 0 in
    record {
      index = i + 1;
      event = step.event;
      people = people;
      from_previous = rate people branch_point;
      from_start = rate people entered;
      optional = some (record {
        skipped = subtract branch_point people;
        continued = get_or t.continued_totals branch.index 0;
      });
    }

abbrev pub spine_result : List ℕ → ℕ → FunnelStep → ℕ → StepResult
spine_result at_least i step rank =
    let people = get_or at_least rank 0 in
    let previous = if leb rank 1 then people else get_or at_least (rank - 1) 0 in
    record {
      index = i + 1;
      event = step.event;
      people = people;
      from_previous = rate people previous;
      from_start = rate people (get_or at_least 1 0);
      optional = none;
    }

abbrev pub step_result : List ℕ → Totals → ℕ → FunnelStep → Option StepPlacement → StepResult
step_result at_least t i step none = spine_result at_least i step (i + 1)
step_result at_least t i step (some p) = elim p.branch [
  | some branch ↦ branch_result at_least t i step p.spine_rank branch
  | none ↦ spine_result at_least i step p.spine_rank
]

-- `steps.map`
unfoldable pub step_results :
    List ℕ → Totals → List StepPlacement → ℕ → List FunnelStep → List StepResult
step_results at_least t placements i [] = []
step_results at_least t placements i (step ∷ steps) =
    step_result at_least t i step (get_elem? placements i)
    ∷ step_results at_least t placements (i + 1) steps

unfoldable pub summarise : List LevelRow → List FunnelStep → FunnelResult
summarise rows steps =
    let spine = funnel_spine steps in
    let n = length spine.required in
    let t = add_rows n rows (record {
      stopped_at = zeros (n + 2);
      optional_totals = zeros (length spine.optional);
      continued_totals = zeros (length spine.optional);
      partial = 0;
    }) in
    let at_least = suffix_sum t.stopped_at n (zeros (n + 2)) in
    record {
      entered = get_or at_least 1 0;
      converted = get_or at_least n 0;
      conversion_rate = rate (get_or at_least n 0) (get_or at_least 1 0);
      steps = step_results at_least t spine.placements 0 steps;
      partial_window_entrants = t.partial;
    }
