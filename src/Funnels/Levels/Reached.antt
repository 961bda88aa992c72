-- ===== src/Funnels/Levels/Reached.antt =====
-- packages/core/src/funnels/levels.ts: the array that `summarise` reads each step's people from.
use lyraflow.Prelude.{
  ℕ, zero, suc, ◌+◌, ◌≤◌, ◌<◌, min, ◌≡◌, refl, sym, ap, ◌∙◌, inl, inr, ◌&&◌, Option, List, [], ◌∷◌,
  arith, ltb, leb, if◌then◌else◌, Bool-cases, get_or_else, length, get_or, ◌==◌, nat_eq, string_eq,
}
use lyraflow.Funnels.Levels.{
  LevelRow, Totals, zeros, add_each, stop_at, add_row, add_rows, suffix_sum,
}
use lyraflow.Funnels.Levels.Arrays.{
  get_or-zeros, length-zeros, length-add_at, length-set_at, get_or-add_at, get_or-set_at,
  get_or-add_each, length-add_each,
}

-- The people who got as far as the level, or further.
unfoldable pub reached : ℕ → List LevelRow → ℕ
reached k [] = 0
reached k (row ∷ rows) = (if leb k row.level then row.people else 0) + reached k rows

-- The people of the rows whose level, folded into the last one, is exactly `k`, and at least `k`.
exact : ℕ → ℕ → List LevelRow → ℕ
exact n k [] = 0
exact n k (row ∷ rows) =
    (if leb 1 row.level && min row.level n == k then row.people else 0) + exact n k rows

from : ℕ → ℕ → List LevelRow → ℕ
from n k [] = 0
from n k (row ∷ rows) =
    (if leb 1 row.level && leb k (min row.level n) then row.people else 0) + from n k rows

get_or-add_row :
    (n k : ℕ) (row : LevelRow) (t : Totals)
    → length t.stopped_at ≡ n + 2
    → get_or (add_row n row t).stopped_at k 0
      ≡ get_or t.stopped_at k 0
        + (if leb 1 row.level && min row.level n == k then row.people else 0)
get_or-add_row n k row t len =
    ground (arith, get_or-add_at (min row.level n) row.people k t.stopped_at)

length-add_row :
    (n : ℕ) (row : LevelRow) (t : Totals)
    → length (add_row n row t).stopped_at ≡ length t.stopped_at
length-add_row n row t = ground (arith, length-add_at (min row.level n) row.people t.stopped_at)

get_or-add_rows :
    (n k : ℕ) (rows : List LevelRow) (t : Totals)
    → length t.stopped_at ≡ n + 2
    → get_or (add_rows n rows t).stopped_at k 0 ≡ get_or t.stopped_at k 0 + exact n k rows
unfolding add_rows exact
get_or-add_rows n k [] t len = omega arith
get_or-add_rows n k (row ∷ rows) t len = omega (
  arith,
  get_or-add_rows n k rows (add_row n row t) (length-add_row n row t ∙ len),
  get_or-add_row n k row t len,
)

from-suc : (n k : ℕ) (rows : List LevelRow) → from n k rows ≡ exact n k rows + from n (suc k) rows
unfolding from exact
from-suc n k [] = omega arith
from-suc n k (row ∷ rows) = ground (arith, from-suc n k rows)

from_beyond : (n k : ℕ) (rows : List LevelRow) → n < k → from n k rows ≡ 0
unfolding from
from_beyond n k [] lt = refl
from_beyond n k (row ∷ rows) lt = ground (arith, from_beyond n k rows lt)

from-reached : (n k : ℕ) (rows : List LevelRow) → 1 ≤ k → k ≤ n → from n k rows ≡ reached k rows
unfolding from reached
from-reached n k [] pos le = refl
from-reached n k (row ∷ rows) pos le = ground (arith, from-reached n k rows pos le)

get_or-suffix_sum :
    (n i k : ℕ) (rows : List LevelRow) (stopped_at at_least : List ℕ)
    → length at_least ≡ n + 2
    → i ≤ n
    → ((j : ℕ) → get_or stopped_at j 0 ≡ exact n j rows)
    → ((j : ℕ) → i < j → get_or at_least j 0 ≡ from n j rows)
    → 1 ≤ k
    → get_or (suffix_sum stopped_at i at_least) k 0 ≡ from n k rows
unfolding suffix_sum
get_or-suffix_sum n zero k rows stopped_at at_least len le st h pos = h k (omega arith)
get_or-suffix_sum n (suc i) k rows stopped_at at_least len le st h pos =
    get_or-suffix_sum n i k rows stopped_at _ (length-set_at (suc i) _ at_least ∙ len) (omega arith)
      st
      (λ j lt. ground (
        arith,
        get_or-set_at (suc i) (get_or stopped_at (suc i) 0 + get_or at_least (suc (suc i)) 0) j
            at_least,
        st (suc i),
        h (suc (suc i)),
        h j,
        from-suc n (suc i) rows,
      ))
      pos

-- What `summarise` reads at a rank of the spine.
pub get_or-at_least :
    (n k : ℕ) (rows : List LevelRow) (t : Totals)
    → t.stopped_at ≡ zeros (n + 2)
    → 1 ≤ k
    → k ≤ n
    → get_or (suffix_sum (add_rows n rows t).stopped_at n (zeros (n + 2))) k 0 ≡ reached k rows
get_or-at_least n k rows t start pos le =
    get_or-suffix_sum n n k rows _ (zeros (n + 2)) (length-zeros (n + 2)) (omega arith) stopped
      (λ j lt. get_or-zeros (n + 2) j ∙ sym (from_beyond n j rows lt)) pos
    ∙ from-reached n k rows pos le
  where
    stopped : (j : ℕ) → get_or (add_rows n rows t).stopped_at j 0 ≡ exact n j rows
    stopped j = omega (
      arith,
      get_or-add_rows n j rows t (ap length start ∙ length-zeros (n + 2)),
      ap (λ xs. get_or xs j 0) start,
      get_or-zeros (n + 2) j,
    )

-- What the rows say of a branch, summed.
unfoldable pub branch_people : (LevelRow → Option (List ℕ)) → ℕ → List LevelRow → ℕ
branch_people counts j [] = 0
branch_people counts j (row ∷ rows) =
    get_or (get_or_else (counts row) []) j 0 + branch_people counts j rows

-- The totals that `stop_at` leaves alone.
stop_at-rest :
    (n : ℕ) (row : LevelRow) (t : Totals)
    → ((stop_at n row t).optional_totals ≡ t.optional_totals)
      × ((stop_at n row t).continued_totals ≡ t.continued_totals)
stop_at-rest n row t = elim (Bool-cases (ltb row.level 1)) [
  | inl outside ↦ rw outside (refl, refl)
  | inr inside ↦ rw inside (refl, refl)
]

pub get_or-optional_totals :
    (n j : ℕ) (rows : List LevelRow) (t : Totals)
    → j < length t.optional_totals
    → get_or (add_rows n rows t).optional_totals j 0
      ≡ get_or t.optional_totals j 0 + branch_people (λ r. r.optional_reached) j rows
unfolding add_rows branch_people
get_or-optional_totals n j [] t lt = omega arith
get_or-optional_totals n j (row ∷ rows) t lt =
    let added = get_or_else row.optional_reached [] in
    let (same, other) = stop_at-rest n row (record t {
      optional_totals = add_each t.optional_totals added;
      continued_totals = add_each t.continued_totals (get_or_else row.optional_continued []);
    }) in
    omega (
      arith,
      get_or-optional_totals n j rows (add_row n row t)
          (omega (arith, ap length same, length-add_each t.optional_totals added)),
      ap (λ xs. get_or xs j 0) same,
      get_or-add_each j t.optional_totals added lt,
    )

pub get_or-continued_totals :
    (n j : ℕ) (rows : List LevelRow) (t : Totals)
    → j < length t.continued_totals
    → get_or (add_rows n rows t).continued_totals j 0
      ≡ get_or t.continued_totals j 0 + branch_people (λ r. r.optional_continued) j rows
unfolding add_rows branch_people
get_or-continued_totals n j [] t lt = omega arith
get_or-continued_totals n j (row ∷ rows) t lt =
    let added = get_or_else row.optional_continued [] in
    let (other, same) = stop_at-rest n row (record t {
      optional_totals = add_each t.optional_totals (get_or_else row.optional_reached []);
      continued_totals = add_each t.continued_totals added;
    }) in
    omega (
      arith,
      get_or-continued_totals n j rows (add_row n row t)
          (omega (arith, ap length same, length-add_each t.continued_totals added)),
      ap (λ xs. get_or xs j 0) same,
      get_or-add_each j t.continued_totals added lt,
    )
