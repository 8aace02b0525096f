-- ===== src/Control/Tests/Logins.antt =====
-- Runs of the login gate, with a toy MAC.
use microvm_terminal.Base.Lower.{to_lower}
use microvm_terminal.Base.{
  ◌+◌, ◌-◌, ◌*◌, ◌%◌, ◌≡◌, ◌≤◌, refl, true, some, none, List, [], ◌∷◌, Bytes, bytes, bytes_eq,
  length, arith,
}
use microvm_terminal.Base.Map
use microvm_terminal.Base.Text.{bytes-eq}
use microvm_terminal.Base.Hex.{hex_decode, from_hex_digit}
use microvm_terminal.Base.Numerals.{parse_int}
use microvm_terminal.Base.Trim.{trim_space, has_prefix}
use microvm_terminal.Control.Auth.{
  second, token, Gate, dash_runs, shorten, slugify, payload, cut, split3, cookie_value, verify,
  client_ip, allow, refilled, take_token, check_password, cookie,
}
use microvm_terminal.Control.Pages.{LoginRequest, terminal_page, submit_login, terminal}
use microvm_terminal.Control.Pages.Login.{terminal-submit_login}
use microvm_terminal.Control.Auth.Cookie.{Signed, verify-Signed}
use microvm_terminal.Control.Auth.Limit.{Attempt, admitted, admitted_bound}

abbrev pub toy_mac : Bytes → Bytes → Bytes
toy_mac key message = (length key % 256) ∷ (length message % 256) ∷ []

abbrev pub gate : Gate
gate = record {
  password = bytes "correct horse";
  cookie_secret = bytes "s3cret";
  opts = record { secure = true; domain = [] };
  rl_tokens = [];
}

-- U+0130 and U+212A are a letter i and a letter k.
foreign_letters :
    slugify (196 ∷ 176 ∷ b'z' ∷ 226 ∷ 132 ∷ 170 ∷ 226 ∷ 132 ∷ 162 ∷ b'q' ∷ []) ≡ bytes "izk-q"
unfolding slugify shorten dash_runs to_lower trim_space
foreign_letters = refl

slug_run : slugify (bytes "  Ada  Lovelace! ") ≡ bytes "ada-lovelace"
unfolding slugify shorten dash_runs to_lower trim_space
slug_run = refl

-- "ada|9|" with the signature, at the second 7.
pub accepted : verify toy_mac gate (7 * second) (bytes "ada|9|0605") ≡ some (bytes "ada")
unfolding verify split3 cut payload hex_decode from_hex_digit parse_int bytes_eq slugify shorten
    dash_runs to_lower trim_space
accepted = refl

pub bobs_accepted : verify toy_mac gate (7 * second) (bytes "bob|9|0605") ≡ some (bytes "bob")
unfolding verify split3 cut payload hex_decode from_hex_digit parse_int bytes_eq slugify shorten
    dash_runs to_lower trim_space
bobs_accepted = refl

verify-Signed_example : Signed toy_mac gate (7 * second) (bytes "ada|9|0605") (bytes "ada")
verify-Signed_example =
    verify-Signed toy_mac gate (7 * second) (bytes "ada|9|0605") (bytes "ada") accepted

forged : verify toy_mac gate (7 * second) (bytes "bob|9|0606") ≡ none
unfolding verify split3 cut payload hex_decode from_hex_digit parse_int bytes_eq slugify shorten
    dash_runs to_lower trim_space
forged = refl

abbrev tries : List Attempt
tries =
    record { ip = bytes "10.0.0.1"; at_time = 1 }
    ∷ record { ip = bytes "10.0.0.2"; at_time = 2 }
    ∷ record { ip = bytes "10.0.0.1"; at_time = 3 }
    ∷ []

-- In a minute, ten.
admitted_bound_example :
    admitted (bytes "10.0.0.1") gate tries * token ≤ 5 * token + (60 * second - 0)
admitted_bound_example = admitted_bound (bytes "10.0.0.1") gate tries 0 (60 * second) (omega arith)

first_hop_run : client_ip (bytes "1.2.3.4 , 5.6.7.8") (bytes "9.9.9.9:1") ≡ bytes "1.2.3.4"
unfolding client_ip cut trim_space
first_hop_run = refl

abbrev ada_logs_in : LoginRequest
ada_logs_in = record {
  content_type = bytes "application/json";
  json_body = some (bytes "Ada", bytes "correct horse");
  form = none;
  forwarded_for = [];
  remote_addr = bytes "10.0.0.9:4711";
}

ada_gets_cookie :
    (submit_login toy_mac gate (3 * second) ada_logs_in).set_cookie
    ≡ some (cookie toy_mac gate (3 * second) (bytes "ada"))
unfolding submit_login allow refilled take_token check_password client_ip slugify shorten dash_runs
    to_lower trim_space bytes_eq has_prefix Map.lookup Map.insert cookie cookie_value
ada_gets_cookie = refl

terminal-submit_login_example :
    terminal toy_mac
      (submit_login toy_mac gate (3 * second) ada_logs_in).gate
      (5 * second)
      (some (cookie toy_mac gate (3 * second) (bytes "ada")).value)
    ≡ terminal_page (bytes "ada")
unfolding slugify shorten dash_runs to_lower trim_space
terminal-submit_login_example =
    terminal-submit_login toy_mac gate (3 * second) (5 * second) ada_logs_in (bytes "Ada")
      (bytes "correct horse") (cookie toy_mac gate (3 * second) (bytes "ada"))
      (λ key message. (omega arith, (omega arith, tt))) (omega arith) (unfold has_prefix in refl)
      ada_gets_cookie
