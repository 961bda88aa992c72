-- ===== src/Funnels/People.antt =====
-- The lists of people of packages/core/src/funnels/compile.ts, and the counts of its histogram.
pub mod Injection
pub mod Bound
use lyraflow.Prelude.Orders.{Units}
use lyraflow.Prelude.Decimal.{decimal}
use lyraflow.Prelude.Texts.{codes}
use lyraflow.Identity.Resolve.{resolved_person_alias}
use lyraflow.Segments.Syntax.{text}
use lyraflow.Segments.Params.{
  Value, Compiler, pure, ◌>>=◌, add, add_value, string_type, uint32_type, date_time_type,
}
use lyraflow.Segments.Base.{base_cte}
use lyraflow.Segments.Compile.{Cursor, traits_cte}
use lyraflow.Funnels.Spine.{FunnelSpine, StepPlacement, Branch}
use lyraflow.Funnels.Chains.{full_chain, count_text, ids_text, members_text}
use lyraflow.Prelude.{ℕ, zero, suc, ◌+◌, Option, none, some, List, [], ◌∷◌, ◌++◌, get_elem?}

pub data Mode : Type 0 where
  reached dropped skipped : Mode

pub data PeopleSelect : Type 0 where
  ids members count : PeopleSelect

-- `peopleAt`
pub record PeopleAt : Type 0 where
  pub step : ℕ
  pub mode : Mode
  pub select : PeopleSelect
  pub cursor : Option Cursor

abbrev pub level_text : Mode → Units → Units
level_text reached level = codes "level >= " ++ level
level_text dropped level = codes "level = " ++ level
level_text skipped level = codes "level = " ++ level

abbrev pub level_of : Option Branch → ℕ
level_of none = 1
level_of (some b) = b.level

-- `spine.placements[k]?.branch?.level ?? 1`
abbrev pub branch_level : Option StepPlacement → ℕ
branch_level none = 1
branch_level (some p) = level_of p.branch

module _ {N : Type 0} where
  -- The level that an optional step's own chain must reach, or must not.
  abbrev pub branch_predicate : Mode → Branch → ℕ → Units → Compiler N Units
  branch_predicate skipped b rank level = do
    spine ← add_value (Value.count rank) uint32_type
    pure (
        codes "level >= "
        ++ spine
        ++ codes " AND branch_"
        ++ decimal b.index
        ++ codes " < "
        ++ level)
  branch_predicate reached b rank level =
      pure (codes "branch_" ++ decimal b.index ++ codes " >= " ++ level)
  branch_predicate dropped b rank level =
      pure (codes "branch_" ++ decimal b.index ++ codes " >= " ++ level)

  abbrev pub level_at : Mode → ℕ → Compiler N Units
  level_at mode rank = do
    level ← add_value (Value.count rank) uint32_type
    pure (level_text mode level)

  abbrev pub branch_level_at : Mode → Branch → ℕ → Compiler N Units
  branch_level_at mode b rank = do
    level ← add_value (Value.count b.level) uint32_type
    branch_predicate mode b rank level

  abbrev pub placed_predicate : Mode → StepPlacement → Option Branch → Compiler N Units
  placed_predicate mode p none = level_at mode p.spine_rank
  placed_predicate mode p (some b) = branch_level_at mode b p.spine_rank

  -- `levelPredicate`
  abbrev pub level_predicate : Mode → ℕ → Option StepPlacement → Compiler N Units
  level_predicate mode step none = level_at mode step
  level_predicate mode step (some p) = placed_predicate mode p p.branch

  abbrev pub position_text : Option Cursor → Compiler N Units
  position_text none = pure []
  position_text (some cursor) = do
    older ← add (text cursor.last_seen) date_time_type
    same ← add (text cursor.last_seen) date_time_type
    later ← add (text cursor.person_id) string_type
    pure (
        codes " AND (entered_at < "
        ++ older
        ++ codes " OR (entered_at = "
        ++ same
        ++ codes " AND "
        ++ resolved_person_alias
        ++ codes " > "
        ++ later
        ++ codes "))")

  -- `peopleAfter`
  abbrev pub people_after : PeopleSelect → Option Cursor → Compiler N Units
  people_after count cursor = pure []
  people_after ids cursor = position_text cursor
  people_after members cursor = position_text cursor

  abbrev pub people_text :
      PeopleSelect → Units → ℕ → Units → Units → Units → Units → Compiler N Units
  people_text count database project_id pass level segment after =
      pure (count_text pass level segment)
  people_text ids database project_id pass level segment after =
      pure (ids_text pass level segment after)
  people_text members database project_id pass level segment after = do
    base ← base_cte database project_id
    traits ← traits_cte database project_id
    pure (members_text base traits pass level segment after)

  -- `optionalCounts`, from the index `j`.
  unfoldable pub optional_counts : FunnelSpine → List ℕ → ℕ → Compiler N Units
  optional_counts s [] j = pure []
  optional_counts s (k ∷ ks) j = do
    level ← add_value (Value.count (branch_level (get_elem? s.placements k))) uint32_type
    rest ← optional_counts s ks (j + 1)
    pure (
        codes ",\n  countIf(branch_"
        ++ decimal j
        ++ codes " >= "
        ++ level
        ++ codes ") AS optional_"
        ++ decimal j
        ++ rest)

  abbrev pub continued_count : FunnelSpine → ℕ → ℕ → Option (List Units) → Compiler N Units
  continued_count s k j none = pure []
  continued_count s k j (some chain) = do
    level ← add_value (Value.count (branch_level (get_elem? s.placements k) + 1)) uint32_type
    pure (
        codes ",\n  countIf(full_"
        ++ decimal j
        ++ codes " >= "
        ++ level
        ++ codes ") AS continued_"
        ++ decimal j)

  -- `continuedCounts`
  unfoldable pub continued_counts : List Units → FunnelSpine → List ℕ → ℕ → Compiler N Units
  continued_counts conditions s [] j = pure []
  continued_counts conditions s (k ∷ ks) j = do
    here ← continued_count s k j (full_chain conditions s k)
    rest ← continued_counts conditions s ks (j + 1)
    pure (here ++ rest)

abbrev pub segment_filter : Option Units → Units
segment_filter none = []
segment_filter (some []) = []
segment_filter (some (c ∷ sql)) =
    codes "\n  AND " ++ resolved_person_alias ++ codes " IN (" ++ (c ∷ sql) ++ codes ")"

-- `spine.placements[people.step - 1]`
abbrev pub placement_of : FunnelSpine → ℕ → Option StepPlacement
placement_of s zero = none
placement_of s (suc i) = get_elem? s.placements i
