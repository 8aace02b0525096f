-- ===== src/Base/Hex.antt =====
-- encoding/hex as the program uses it: EncodeToString and DecodeString.
use Prim.Native.Nat.{ℕ, ◌+◌, ◌-◌, ◌*◌, ◌/◌, ◌%◌, ◌<◌}
use mathlib.Core.Path.{◌≡◌, refl}
use mathlib.Core.Bool.{true, ◌&&◌}
use mathlib.Core.List.{[], ◌∷◌}
use mathlib.Core.Option.{Option, none, some}
use native.Mathlib.Omega.{arith}
use microvm_terminal.Base.Tests.{ltb, leb, if◌then◌else◌}
use microvm_terminal.Base.Text.{Bytes}
use microvm_terminal.Base.Trim.{is_space, none_of}

unfoldable pub hex_digit : ℕ → ℕ
hex_digit n = if ltb n 10 then b'0' + n else b'a' + (n - 10)

-- Both cases of the letters are read.
unfoldable pub from_hex_digit : ℕ → Option ℕ
from_hex_digit c =
    if leb b'0' c && leb c b'9'
    then some (c - b'0')
    else if leb b'a' c && leb c b'f'
    then some (c - b'a' + 10)
    else if leb b'A' c && leb c b'F'
    then some (c - b'A' + 10)
    else none

unfoldable pub hex_encode : Bytes → Bytes
unfolding hex_digit
hex_encode [] = []
hex_encode (b ∷ bs) = hex_digit (b / 16) ∷ hex_digit (b % 16) ∷ hex_encode bs

abbrev pub hex_pair : Option ℕ → Option ℕ → Option Bytes → Option Bytes
hex_pair none l rest = none
hex_pair (some h) none rest = none
hex_pair (some h) (some l) none = none
hex_pair (some h) (some l) (some bs) = some ((h * 16 + l) ∷ bs)

-- An odd length is refused.
unfoldable pub hex_decode : Bytes → Option Bytes
unfolding from_hex_digit
hex_decode [] = some []
hex_decode (h ∷ []) = none
hex_decode (h ∷ l ∷ rest) = hex_pair (from_hex_digit h) (from_hex_digit l) (hex_decode rest)

-- Every value of a byte is below 256.
abbrev pub AreBytes : Bytes → Type 0
AreBytes [] = Unit {0}
AreBytes (b ∷ bs) = (b < 256) × AreBytes bs

from_hex_digit-hex_digit : (n : ℕ) → n < 16 → from_hex_digit (hex_digit n) ≡ some n
unfolding from_hex_digit hex_digit
from_hex_digit-hex_digit n h = ground arith

pub hex_decode-hex_encode : (bs : Bytes) → AreBytes bs → hex_decode (hex_encode bs) ≡ some bs
unfolding hex_decode hex_encode
hex_decode-hex_encode [] h = refl
hex_decode-hex_encode (b ∷ bs) h = ground (
  arith,
  from_hex_digit-hex_digit (b / 16),
  from_hex_digit-hex_digit (b % 16),
  hex_decode-hex_encode bs h.1,
)

-- No digit is white space.
pub hex_spaceless : (bs : Bytes) → AreBytes bs → none_of is_space (hex_encode bs) ≡ true
unfolding hex_encode hex_digit is_space
hex_spaceless [] h = refl
hex_spaceless (b ∷ bs) h = ground (arith, h.0, hex_spaceless bs h.1)
