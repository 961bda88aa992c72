-- ===== src/Privacy/Suppression.antt =====
-- packages/core/src/privacy/suppression.ts: the condition that leaves out what a person did until
-- their deletion.
use lyraflow.Prelude.Orders.{Units}
use lyraflow.Prelude.Texts.{codes}
use lyraflow.Segments.Params.{Value, Compiler, pure, ◌>>=◌, add_value, uint32_type}
use lyraflow.Prelude.{ℕ, ◌++◌, nat_eq, string_eq}

unfoldable pub suppression_never : Units
suppression_never = codes "toDateTime64(4294967295, 6)"

unfoldable pub not_suppressed_text : Units → Units → Units → Units
not_suppressed_text database key instant =
    codes "NOT (dictHas('"
    ++ database
    ++ codes ".suppressed_persons', "
    ++ key
    ++ codes ") AND "
    ++ instant
    ++ codes " <= dictGetOrDefault('"
    ++ database
    ++ codes ".suppressed_persons', 'suppressed_at', "
    ++ key
    ++ codes ", "
    ++ suppression_never
    ++ codes "))"

unfoldable pub not_suppressed_expr : {N : Type 0} → Units → ℕ → Units → Units → Compiler N Units
not_suppressed_expr database project_id person instant = do
  project ← add_value (Value.count project_id) uint32_type
  pure (
      not_suppressed_text database (codes "(" ++ project ++ codes ", " ++ person ++ codes ")")
        instant)
