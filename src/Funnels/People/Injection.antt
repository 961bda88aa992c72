-- ===== src/Funnels/People/Injection.antt =====
-- The texts of the lists of people and of the counts of packages/core/src/funnels/compile.ts, for one
-- cursor and for another.
use lyraflow.Prelude.Orders.{Units}
use lyraflow.Segments.Syntax.{text}
use lyraflow.Segments.Params.{string_type, uint32_type, date_time_type}
use lyraflow.Segments.Params.Alike.{Alike, pure-Alike, add-Alike, add_value-Alike, bind-Alike}
use lyraflow.Segments.Compile.{Cursor}
use lyraflow.Segments.Compile.Injection.{SamePage, base_cte-Alike, traits_cte-Alike}
use lyraflow.Segments.Params.Dates.{Platform}
use lyraflow.Segments.Replace.{Replacement}
use lyraflow.Funnels.Spine.{FunnelSpine, StepPlacement, Branch}
use lyraflow.Funnels.Chains.{full_chain}
use lyraflow.Funnels.People.{
  Mode, PeopleSelect, reached, dropped, skipped, ids, members, count, branch_predicate, level_at,
  placed_predicate, level_predicate, position_text, people_after, people_text, optional_counts,
  continued_count, continued_counts,
}
use lyraflow.Prelude.{ℕ, ◌+◌, Option, none, some, List, [], ◌∷◌, nat_eq, string_eq}

module _ {N : Type 0} where
  branch_predicate-Alike :
      (mode : Mode) (b : Branch) (rank : ℕ) (level : Units)
      → Alike {N = N} (branch_predicate mode b rank level) (branch_predicate mode b rank level)
  branch_predicate-Alike skipped b rank level =
      bind-Alike _ _ _ _ (add_value-Alike _ _ uint32_type) (λ spine. pure-Alike _)
  branch_predicate-Alike reached b rank level = pure-Alike _
  branch_predicate-Alike dropped b rank level = pure-Alike _

  level_at-Alike :
      (mode : Mode) (rank : ℕ) → Alike {N = N} (level_at mode rank) (level_at mode rank)
  level_at-Alike mode rank =
      bind-Alike _ _ _ _ (add_value-Alike _ _ uint32_type) (λ level. pure-Alike _)

  placed_predicate-Alike :
      (mode : Mode) (p : StepPlacement) (b : Option Branch)
      → Alike {N = N} (placed_predicate mode p b) (placed_predicate mode p b)
  placed_predicate-Alike mode p none = level_at-Alike mode p.spine_rank
  placed_predicate-Alike mode p (some b) =
      bind-Alike _ _ _ _ (add_value-Alike _ _ uint32_type)
        (λ level. branch_predicate-Alike mode b p.spine_rank level)

  pub level_predicate-Alike :
      (mode : Mode) (step : ℕ) (p : Option StepPlacement)
      → Alike {N = N} (level_predicate mode step p) (level_predicate mode step p)
  level_predicate-Alike mode step none = level_at-Alike mode step
  level_predicate-Alike mode step (some p) = placed_predicate-Alike mode p p.branch

  position_text-Alike :
      (c d : Option Cursor) → SamePage c d → Alike {N = N} (position_text c) (position_text d)
  position_text-Alike none none h = pure-Alike _
  position_text-Alike (some c) (some d) h =
      bind-Alike _ _ _ _ (add-Alike (text c.last_seen) (text d.last_seen) date_time_type) (λ older.
        bind-Alike _ _ _ _ (add-Alike (text c.last_seen) (text d.last_seen) date_time_type) (λ same.
          bind-Alike _ _ _ _ (add-Alike (text c.person_id) (text d.person_id) string_type)
            (λ later. pure-Alike _)))
  position_text-Alike none (some d) h = cc
  position_text-Alike (some c) none h = cc

  pub people_after-Alike :
      (select : PeopleSelect) (c d : Option Cursor)
      → SamePage c d
      → Alike {N = N} (people_after select c) (people_after select d)
  people_after-Alike count c d h = pure-Alike _
  people_after-Alike ids c d h = position_text-Alike c d h
  people_after-Alike members c d h = position_text-Alike c d h

  pub optional_counts-Alike :
      (s : FunnelSpine) (ks : List ℕ) (j : ℕ)
      → Alike {N = N} (optional_counts s ks j) (optional_counts s ks j)
  unfolding optional_counts
  optional_counts-Alike s [] j = pure-Alike _
  optional_counts-Alike s (k ∷ ks) j =
      bind-Alike _ _ _ _ (add_value-Alike _ _ uint32_type)
        (λ level. bind-Alike _ _ _ _ (optional_counts-Alike s ks (j + 1)) (λ rest. pure-Alike _))

  continued_count-Alike :
      (s : FunnelSpine) (k j : ℕ) (chain : Option (List Units))
      → Alike {N = N} (continued_count s k j chain) (continued_count s k j chain)
  continued_count-Alike s k j none = pure-Alike _
  continued_count-Alike s k j (some chain) =
      bind-Alike _ _ _ _ (add_value-Alike _ _ uint32_type) (λ level. pure-Alike _)

  pub continued_counts-Alike :
      (conditions : List Units) (s : FunnelSpine) (ks : List ℕ) (j : ℕ)
      → Alike {N = N} (continued_counts conditions s ks j) (continued_counts conditions s ks j)
  unfolding continued_counts
  continued_counts-Alike conditions s [] j = pure-Alike _
  continued_counts-Alike conditions s (k ∷ ks) j =
      bind-Alike _ _ _ _ (continued_count-Alike s k j (full_chain conditions s k)) (λ here.
        bind-Alike _ _ _ _ (continued_counts-Alike conditions s ks (j + 1)) (λ rest. pure-Alike _))

module _ {N D : Type 0} (js : Platform N D) (database : Units) (now : D) (r : Replacement N) where
  pub people_text-Alike :
      (select : PeopleSelect) (project_id : ℕ) (pass level segment after : Units)
      → Alike {N = N}
          (people_text select database project_id pass level segment after)
          (people_text select database project_id pass level segment after)
  people_text-Alike count project_id pass level segment after = pure-Alike _
  people_text-Alike ids project_id pass level segment after = pure-Alike _
  people_text-Alike members project_id pass level segment after =
      bind-Alike _ _ _ _ (base_cte-Alike js database now r project_id) (λ base.
        bind-Alike _ _ _ _ (traits_cte-Alike js database now r project_id) (λ traits. pure-Alike _))
