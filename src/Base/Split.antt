-- ===== src/Base/Split.antt =====
-- strings.Split and strings.Join, at one byte.
use Prim.Native.Nat.{ℕ}
use mathlib.Core.List.{List, [], ◌∷◌, ◌++◌}
use microvm_terminal.Base.Tests.{nat_eq, if◌then◌else◌}
use microvm_terminal.Base.Text.{Bytes}

abbrev pub onto_first : ℕ → List Bytes → List Bytes
onto_first c [] = (c ∷ []) ∷ []
onto_first c (line ∷ lines) = (c ∷ line) ∷ lines

unfoldable pub split : ℕ → Bytes → List Bytes
split sep [] = [] ∷ []
split sep (c ∷ cs) =
    let rest = split sep cs in if nat_eq c sep then [] ∷ rest else onto_first c rest

unfoldable pub join : ℕ → List Bytes → Bytes
join sep [] = []
join sep (line ∷ []) = line
join sep (line ∷ next ∷ lines) = line ++ sep ∷ join sep (next ∷ lines)
