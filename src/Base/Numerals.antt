-- ===== src/Base/Numerals.antt =====
-- strconv.ParseInt(s, 10, 64), and strconv.Atoi where int has 64 bits: an optional sign and decimal
-- digits. A number that does not fit is refused at the end, whatever its length.
use Prim.Native.Nat.{ℕ, zero, suc, ◌+◌, ◌-◌, ◌*◌, ◌/◌, ◌%◌, ◌<◌}
use mathlib.Core.Path.{◌≡◌, refl, ap}
use mathlib.Core.Bool.{Bool, true, false, ◌&&◌}
use mathlib.Core.List.{[], ◌∷◌, ◌++◌}
use mathlib.Core.Option.{Option, none, some}
use mathlib.Core.Logic.{◌≢◌}
use native.Mathlib.Omega.{arith}
use microvm_terminal.Base.Tests.{nat_eq, ltb, leb, if◌then◌else◌}
use microvm_terminal.Base.Text.{Bytes}
use microvm_terminal.Base.Int64.{ℤ, pos, negsuc, int64_half}
use microvm_terminal.Base.Decimal.{digits_on, decimal}

abbrev pub is_digit : ℕ → Bool
is_digit c = leb b'0' c && leb c b'9'

-- The value of the digits, behind those with the value `acc`.
unfoldable pub digits_value : ℕ → Bytes → Option ℕ
digits_value acc [] = some acc
digits_value acc (c ∷ cs) =
    let rest = digits_value (acc * 10 + (c - b'0')) cs in if is_digit c then rest else none

abbrev pub fitted : Bool → Option ℕ → Option ℤ
fitted neg none = none
fitted true (some zero) = some (pos 0)
fitted true (some (suc n)) = if ltb n int64_half then some (negsuc n) else none
fitted false (some n) = if ltb n int64_half then some (pos n) else none

abbrev pub magnitude : Bytes → Option ℕ
magnitude [] = none
magnitude (c ∷ cs) = digits_value 0 (c ∷ cs)

abbrev pub signed : Bytes → Option ℤ
signed [] = none
signed (c ∷ cs) =
    if nat_eq c b'-'
    then fitted true (magnitude cs)
    else if nat_eq c b'+'
    then fitted false (magnitude cs)
    else fitted false (digits_value 0 (c ∷ cs))

unfoldable pub parse_int : Bytes → Option ℤ
unfolding digits_value
parse_int s = signed s

digits_value-append :
    (acc v : ℕ) (a b : Bytes)
    → digits_value acc a ≡ some v
    → digits_value acc (a ++ b) ≡ digits_value v b
unfolding digits_value
digits_value-append acc v [] b h = ground arith
digits_value-append acc v (c ∷ a) b h =
    ground (arith, h, digits_value-append (acc * 10 + (c - b'0')) v a b)

digits_value-digits_on : (f n : ℕ) → n < f → digits_value 0 (digits_on f n) ≡ some n
unfolding digits_value digits_on
digits_value-digits_on zero n h = absurd (omega arith)
digits_value-digits_on (suc f) n h = ground (
  arith,
  digits_value-append 0 (n / 10) (digits_on f (n / 10)) ((b'0' + n % 10) ∷ []),
  digits_value-digits_on f (n / 10),
)

-- Every byte is a digit.
abbrev pub all_digits : Bytes → Bool
all_digits [] = true
all_digits (c ∷ cs) = is_digit c && all_digits cs

digits_value-all_digits :
    (acc v : ℕ) (s : Bytes) → digits_value acc s ≡ some v → all_digits s ≡ true
unfolding digits_value
digits_value-all_digits acc v [] h = refl
digits_value-all_digits acc v (c ∷ cs) h =
    ground (arith, h, digits_value-all_digits (acc * 10 + (c - b'0')) v cs)

append_ne : (a : Bytes) (c : ℕ) → a ++ c ∷ [] ≢ []
append_ne [] c h = absurd (ground (arith, h))
append_ne (x ∷ a) c h = absurd (ground (arith, h))

digits_on_ne : (f n : ℕ) → digits_on (suc f) n ≢ []
unfolding digits_on
digits_on_ne f n = ground (arith, append_ne (digits_on f (n / 10)) (b'0' + n % 10))

signed-digits :
    (s : Bytes) (n : ℕ)
    → digits_value 0 s ≡ some n
    → s ≢ []
    → n < int64_half
    → parse_int s ≡ some (pos n)
unfolding parse_int digits_value
signed-digits [] n h ne small = absurd (ne refl)
signed-digits (c ∷ s) n h ne small = ground (arith, h, ap (fitted false) h)

-- What is printed is read back.
pub parse_int-decimal : (n : ℕ) → n < int64_half → parse_int (decimal n) ≡ some (pos n)
unfolding decimal
parse_int-decimal n small =
    signed-digits (digits_on (suc n) n) n (digits_value-digits_on (suc n) n (omega arith))
      (digits_on_ne n n) small

pub decimal-all_digits : (n : ℕ) → all_digits (decimal n) ≡ true
unfolding decimal
decimal-all_digits n =
    digits_value-all_digits 0 n (digits_on (suc n) n)
      (digits_value-digits_on (suc n) n (omega arith))

-- strconv.Itoa, and FormatInt in base 10.
unfoldable pub itoa : ℤ → Bytes
itoa (pos n) = decimal n
itoa (negsuc n) = b'-' ∷ decimal (n + 1)

pub itoa_ne : (n : ℤ) → itoa n ≢ []
unfolding itoa decimal
itoa_ne (pos n) e = digits_on_ne n n e
itoa_ne (negsuc n) e = absurd (ground (arith, e))
