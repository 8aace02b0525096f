-- ===== src/Base/Lower.antt =====
-- strings.ToLower, as far as a result of ASCII letters shows it: A to Z, and the two other letters
-- whose lower case is an ASCII letter, U+0130 (bytes 196 and 176) and U+212A (226, 132 and
-- 170). Each other byte stays.
use Prim.Native.Nat.{ℕ, ◌+◌}
use mathlib.Core.Bool.{◌&&◌}
use mathlib.Core.List.{[], ◌∷◌, ◌++◌}
use microvm_terminal.Base.Tests.{nat_eq, leb, if◌then◌else◌}
use microvm_terminal.Base.Text.{Bytes}

abbrev pub lower : ℕ → ℕ
lower c = if leb b'A' c && leb c b'Z' then c + 32 else c

-- The bytes of a letter that were read: none, 196, 226, or 226 and 132.
pub data Begun : Type 0 where
  nothing one_of_two one_of_three two_of_three : Begun

abbrev pub read_so_far : Begun → Bytes
read_so_far nothing = []
read_so_far one_of_two = 196 ∷ []
read_so_far one_of_three = 226 ∷ []
read_so_far two_of_three = 226 ∷ 132 ∷ []

-- A byte that does not go on with what was begun.
abbrev pub afresh : Bytes → ℕ → Bytes × Begun
afresh before c =
    if nat_eq c 196
    then (before, one_of_two)
    else if nat_eq c 226
    then (before, one_of_three)
    else (before ++ lower c ∷ [], nothing)

abbrev pub read_byte : Begun → ℕ → Bytes × Begun
read_byte nothing c = afresh [] c
read_byte one_of_two c = if nat_eq c 176 then (b'i' ∷ [], nothing) else afresh (196 ∷ []) c
read_byte one_of_three c = if nat_eq c 132 then ([], two_of_three) else afresh (226 ∷ []) c
read_byte two_of_three c = if nat_eq c 170 then (b'k' ∷ [], nothing) else afresh (226 ∷ 132 ∷ []) c

unfoldable pub lower_from : Begun → Bytes → Bytes
lower_from begun [] = read_so_far begun
lower_from begun (c ∷ cs) = (read_byte begun c).0 ++ lower_from (read_byte begun c).1 cs

unfoldable pub to_lower : Bytes → Bytes
unfolding lower_from
to_lower s = lower_from nothing s
