-- ===== src/Prelude/Texts.antt =====
-- The literals of the source as texts: their code units, for the ASCII literals that the code has.
use Prim.Native.Char.{code}
use Prim.Native.String.{String}
use mathlib.Core.List.{List, [], ◌∷◌, ◌++◌}
use lyraflow.Prelude.Orders.{Units}

unfoldable pub codes : String → Units
codes String.[] = []
codes (String.◌∷◌ c s) = code c ∷ codes s

-- `parts.join(sep)`
unfoldable pub join : Units → List Units → Units
join sep [] = []
join sep (x ∷ []) = x
join sep (x ∷ y ∷ xs) = x ++ sep ++ join sep (y ∷ xs)
