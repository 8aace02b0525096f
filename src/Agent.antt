-- ===== src/Agent.antt =====
-- guest-agent/cmd/microvm-guest-agent/main.go: the agent inside a machine. The kernel's command line,
-- the frames as decoded from JSON and whether the console can be set are arguments; the number in a
-- field is the integer that its float64 is cut to. Logging, the time stamp and the host name of the
-- hello are not modelled.
pub mod Boot
pub mod Sizes
pub mod Handshake
use microvm_terminal.Base.{
  ℕ, zero, suc, ◌+◌, ◌-◌, ◌*◌, ◌%◌, ◌^◌, Bool, true, false, ◌&&◌, ◌||◌, Option, none, some, List,
  [], ◌∷◌, ◌++◌, Bytes, bytes, bytes_eq, nat_eq, ltb, if◌then◌else◌,
}
use microvm_terminal.Base.Fields.{fields, trim_prefix}
use microvm_terminal.Base.Int64.{ℤ, pos, to_bits}
use microvm_terminal.Base.Numerals.{is_digit}
use microvm_terminal.Base.Trim.{has_prefix}
use microvm_terminal.Control.Guest.{Geometry, Hello, is_empty}

abbrev pub default_vsock_port : ℕ
default_vsock_port = 5555

abbrev pub token_key : Bytes
token_key = bytes "mvt.session_token="

abbrev pub port_key : Bytes
port_key = bytes "mvt.vsock_port="

-- The value of the digits at the front.
unfoldable pub leading_number : ℕ → Bytes → ℕ
leading_number acc [] = acc
leading_number acc (c ∷ cs) =
    let rest = leading_number (acc * 10 + (c - b'0')) cs in if is_digit c then rest else acc

-- fmt.Sscanf(s, "%d", &n) into a uint32 that is 0: a number that does not fit is not stored.
unfoldable pub scanned : Bytes → ℕ
scanned s = let n = leading_number 0 s in if ltb n (2 ^ 32) then n else 0

abbrev pub positive_or : ℕ → ℕ → ℕ
positive_or old n = if ltb 0 n then n else old

unfoldable pub read_words : List Bytes → Bytes × ℕ → Bytes × ℕ
read_words [] found = found
read_words (tok ∷ toks) (token, port) = read_words toks (
    if has_prefix tok token_key
    then (trim_prefix tok token_key, port)
    else if has_prefix tok port_key
    then (token, positive_or port (scanned (trim_prefix tok port_key)))
    else (token, port))

unfoldable pub read_cmdline_params : Option Bytes → Bytes × ℕ
read_cmdline_params none = ([], default_vsock_port)
read_cmdline_params (some data_read) = read_words (fields data_read) ([], default_vsock_port)

-- The hello of serve.
unfoldable pub hello_frame : Bytes → Hello
hello_frame token = record { kind = bytes "hello"; session_token = token }

-- The window size of the console, if it was set.
abbrev pub Tty : Type 0
Tty = Option Geometry

unfoldable pub apply_winsize : Tty → Geometry → Bool → Tty
apply_winsize tty g sets = if is_empty g then tty else if sets then some g else tty

pub record Frame : Type 0 where
  pub kind : Bytes
  pub cols : Option ℤ
  pub rows : Option ℤ

abbrev pub num_field : Option ℤ → ℤ
num_field none = pos 0
num_field (some n) = n

unfoldable pub to_uint16 : ℤ → ℕ
to_uint16 n = to_bits n % 2 ^ 16

-- The loop of serve, over the frames until the connection drops; each with whether the console can
-- be set.
unfoldable pub serve_frames : Tty → List (Frame × Bool) → Tty
serve_frames tty [] = tty
serve_frames tty ((f, sets) ∷ more) =
    let g : Geometry = record {
      cols = to_uint16 (num_field f.cols);
      rows = to_uint16 (num_field f.rows);
    } in
    serve_frames (if bytes_eq f.kind (bytes "resize") then apply_winsize tty g sets else tty) more

abbrev pub second : ℕ
second = 1_000_000_000

unfoldable pub next_backoff : ℕ → ℕ
next_backoff backoff = if ltb backoff (10 * second) then backoff * 2 else backoff

-- The wait before dialling for the `n`-th time again, from 0.
unfoldable pub backoff_after : ℕ → ℕ
backoff_after zero = second
backoff_after (suc n) = next_backoff (backoff_after n)
