-- ===== src/Identity/Resolve.antt =====
-- packages/core/src/identity/resolve.ts: the expression that resolves an event to a person. The
-- database's name and the alias stand in the text, so each must be a plain identifier.
use lyraflow.Prelude.Orders.{Units}
use lyraflow.Prelude.Texts.{codes}
use lyraflow.Segments.Params.{Result, ok, throw, unsafe_identifier}
use lyraflow.Prelude.{
  ℕ, Bool, true, false, not, ◌&&◌, ◌||◌, Option, none, some, [], ◌∷◌, ◌++◌, leb, if◌then◌else◌,
  get_or_else, all, ◌==◌, nat_eq, string_eq,
}

abbrev pub is_letter : ℕ → Bool
is_letter c = (leb 65 c && leb c 90) || (leb 97 c && leb c 122) || c == 95

abbrev pub is_word : ℕ → Bool
is_word c = is_letter c || (leb 48 c && leb c 57)

-- `SAFE_IDENTIFIER.test`
unfoldable pub is_safe_identifier : Units → Bool
is_safe_identifier [] = false
is_safe_identifier (c ∷ s) = is_letter c && all is_word s

-- `RESOLVED_PERSON_ALIAS`
unfoldable pub resolved_person_alias : Units
resolved_person_alias = codes "person_id"

unfoldable pub first_stage : Units → Units → Units
first_stage db prefix =
    codes "if("
    ++ prefix
    ++ codes "user_id != '', "
    ++ prefix
    ++ codes "user_id, dictGetOrDefault('"
    ++ db
    ++ codes ".identity_bindings', 'person_id', ("
    ++ prefix
    ++ codes "project_id, "
    ++ prefix
    ++ codes "anonymous_id), toDateTime("
    ++ prefix
    ++ codes "timestamp), "
    ++ prefix
    ++ codes "anonymous_id))"

unfoldable pub resolved_comment : Units
resolved_comment =
    codes
      "/* two-stage identity resolution: stage 1 (identity_bindings) resolves device -> person for anonymous events, then stage 2 (person_aliases) resolves person -> canonical unconditionally */ "

unfoldable pub two_stages : Units → Units → Units
two_stages db prefix =
    resolved_comment
    ++ codes "dictGetOrDefault('"
    ++ db
    ++ codes ".person_aliases', 'canonical_id', ("
    ++ prefix
    ++ codes "project_id, "
    ++ first_stage db prefix
    ++ codes "), "
    ++ first_stage db prefix
    ++ codes ")"

-- `opts.alias ? … : ''`
abbrev pub column_prefix : Option Units → Units
column_prefix none = []
column_prefix (some []) = []
column_prefix (some (c ∷ s)) = (c ∷ s) ++ codes "."

abbrev pub is_safe_alias : Option Units → Bool
is_safe_alias none = true
is_safe_alias (some alias) = is_safe_identifier alias

unfoldable pub resolved_person_expr : Units → Option Units → Result Units
resolved_person_expr db alias =
    if not (is_safe_identifier db)
    then throw (unsafe_identifier db)
    else if not (is_safe_alias alias)
    then throw (unsafe_identifier (get_or_else alias []))
    else ok (two_stages db (column_prefix alias))
