-- ===== src/Funnels/People/Bound.antt =====
-- What the lists of people of packages/core/src/funnels/compile.ts bind, and that they throw nothing
-- of their own.
use lyraflow.Prelude.Orders.{Units}
use lyraflow.Segments.Syntax.{text}
use lyraflow.Segments.Params.{string_type, uint32_type, date_time_type}
use lyraflow.Segments.Params.Dates.{Platform}
use lyraflow.Segments.Params.Bound.{Any, Meets, pure-Meets, add-Meets, add_value-Meets, bind-Meets}
use lyraflow.Segments.Compile.{Cursor}
use lyraflow.Segments.Compile.Bound.{base_cte-Meets, traits_cte-Meets}
use lyraflow.Funnels.Spine.{FunnelSpine, StepPlacement, Branch}
use lyraflow.Funnels.Chains.{full_chain}
use lyraflow.Funnels.People.{
  Mode, reached, dropped, skipped, PeopleSelect, ids, members, count, level_at, branch_predicate,
  placed_predicate, level_predicate, position_text, people_after, people_text, optional_counts,
  continued_count, continued_counts,
}
use lyraflow.Prelude.{ℕ, ◌+◌, Option, none, some, List, [], ◌∷◌, nat_eq, string_eq}

module _ {N : Type 0} (db : Units) where
  branch_predicate-Meets :
      (mode : Mode) (b : Branch) (rank : ℕ) (level : Units)
      → Meets {N = N} db (branch_predicate mode b rank level) Any
  branch_predicate-Meets reached b rank level = pure-Meets db
  branch_predicate-Meets dropped b rank level = pure-Meets db
  branch_predicate-Meets skipped b rank level =
      bind-Meets db _ _ Any Any (add_value-Meets db _ uint32_type) (λ spine _. pure-Meets db)

  level_at-Meets : (mode : Mode) (rank : ℕ) → Meets {N = N} db (level_at mode rank) Any
  level_at-Meets mode rank =
      bind-Meets db _ _ Any Any (add_value-Meets db _ uint32_type) (λ level _. pure-Meets db)

  placed_predicate-Meets :
      (mode : Mode) (p : StepPlacement) (b : Option Branch)
      → Meets {N = N} db (placed_predicate mode p b) Any
  placed_predicate-Meets mode p none = level_at-Meets mode p.spine_rank
  placed_predicate-Meets mode p (some b) =
      bind-Meets db _ _ Any Any (add_value-Meets db _ uint32_type)
        (λ level _. branch_predicate-Meets mode b p.spine_rank level)

  pub level_predicate-Meets :
      (mode : Mode) (step : ℕ) (p : Option StepPlacement)
      → Meets {N = N} db (level_predicate mode step p) Any
  level_predicate-Meets mode step none = level_at-Meets mode step
  level_predicate-Meets mode step (some p) = placed_predicate-Meets mode p p.branch

  position_text-Meets : (c : Option Cursor) → Meets {N = N} db (position_text c) Any
  position_text-Meets none = pure-Meets db
  position_text-Meets (some c) =
      bind-Meets db _ _ Any Any (add-Meets db (text c.last_seen) date_time_type) (λ older _.
        bind-Meets db _ _ Any Any (add-Meets db (text c.last_seen) date_time_type) (λ same _.
          bind-Meets db _ _ Any Any (add-Meets db (text c.person_id) string_type)
            (λ later _. pure-Meets db)))

  pub people_after-Meets :
      (select : PeopleSelect) (c : Option Cursor) → Meets {N = N} db (people_after select c) Any
  people_after-Meets count c = pure-Meets db
  people_after-Meets ids c = position_text-Meets c
  people_after-Meets members c = position_text-Meets c

  pub optional_counts-Meets :
      (s : FunnelSpine) (ks : List ℕ) (j : ℕ) → Meets {N = N} db (optional_counts s ks j) Any
  unfolding optional_counts
  optional_counts-Meets s [] j = pure-Meets db
  optional_counts-Meets s (k ∷ ks) j =
      bind-Meets db _ _ Any Any (add_value-Meets db _ uint32_type) (λ level _.
        bind-Meets db _ _ Any Any (optional_counts-Meets s ks (j + 1)) (λ rest _. pure-Meets db))

  continued_count-Meets :
      (s : FunnelSpine) (k j : ℕ) (chain : Option (List Units))
      → Meets {N = N} db (continued_count s k j chain) Any
  continued_count-Meets s k j none = pure-Meets db
  continued_count-Meets s k j (some chain) =
      bind-Meets db _ _ Any Any (add_value-Meets db _ uint32_type) (λ level _. pure-Meets db)

  pub continued_counts-Meets :
      (conditions : List Units) (s : FunnelSpine) (ks : List ℕ) (j : ℕ)
      → Meets {N = N} db (continued_counts conditions s ks j) Any
  unfolding continued_counts
  continued_counts-Meets conditions s [] j = pure-Meets db
  continued_counts-Meets conditions s (k ∷ ks) j =
      bind-Meets db _ _ Any Any (continued_count-Meets s k j (full_chain conditions s k)) (λ here _.
        bind-Meets db _ _ Any Any (continued_counts-Meets conditions s ks (j + 1))
          (λ rest _. pure-Meets db))

module _ {N D : Type 0} (js : Platform N D) (db : Units) (now : D) where
  pub people_text-Meets :
      (select : PeopleSelect) (project_id : ℕ) (pass level segment after : Units)
      → Meets {N = N} db (people_text select db project_id pass level segment after) Any
  people_text-Meets count project_id pass level segment after = pure-Meets db
  people_text-Meets ids project_id pass level segment after = pure-Meets db
  people_text-Meets members project_id pass level segment after =
      bind-Meets db _ _ Any Any (base_cte-Meets js db now project_id) (λ base _.
        bind-Meets db _ _ Any Any (traits_cte-Meets js db now project_id)
          (λ traits _. pure-Meets db))
