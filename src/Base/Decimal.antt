-- ===== src/Base/Decimal.antt =====
-- Decimal text of a number, as strconv.Itoa and fmt's %d print one that is not negative.
use Prim.Native.Nat.{ℕ, zero, suc, ◌+◌, ◌/◌, ◌%◌}
use mathlib.Core.List.{[], ◌∷◌, ◌++◌}
use microvm_terminal.Base.Tests.{ltb, if◌then◌else◌}
use microvm_terminal.Base.Text.{Bytes}

-- The digits. Fuel above the number is enough, since a tenth of a positive number is smaller.
unfoldable pub digits_on : ℕ → ℕ → Bytes
digits_on zero n = []
digits_on (suc f) n =
    let more = digits_on f (n / 10) ++ (b'0' + n % 10) ∷ [] in
    if ltb n 10 then (b'0' + n) ∷ [] else more

unfoldable pub decimal : ℕ → Bytes
unfolding digits_on
decimal n = digits_on (suc n) n
