-- ===== src/Control/Auth.antt =====
-- control-plane/internal/auth/auth.go: the shared password, the owner's slug, the signed cookie and
-- the rate of logins. HMAC-SHA256 is the argument `mac`, of a key and a message; files, the clock
-- (nanoseconds since 1970) and crypto/rand are arguments.
pub mod Slug
pub mod Cookie
pub mod Secret
pub mod Limit
use microvm_terminal.Base.{
  ℕ, zero, suc, ◌+◌, ◌-◌, ◌*◌, ◌/◌, Bool, true, false, ◌&&◌, ◌||◌, not, Option, none, some, List,
  [], ◌∷◌, ◌++◌, Bytes, bytes, bytes_eq, length, take, nat_eq, ltb, leb, if◌then◌else◌,
}
use microvm_terminal.Base.Decimal.{decimal}
use microvm_terminal.Base.Lower.{to_lower}
use microvm_terminal.Base.Numerals.{parse_int}
use microvm_terminal.Base.Hex.{hex_encode, hex_decode}
use microvm_terminal.Base.Int64.{ℤ, pos, lt64}
use microvm_terminal.Base.Map
use microvm_terminal.Base.Map.{GoMap}
use microvm_terminal.Base.Result.{Result, ok, err}
use microvm_terminal.Base.Text.{bytes-eq}
use microvm_terminal.Base.Trim.{trim_both, trim_space}

abbrev pub second : ℕ
second = 1_000_000_000

-- 30 days.
abbrev pub cookie_max_age : ℕ
cookie_max_age = 30 * 24 * 3600 * second

abbrev pub max_name_len : ℕ
max_name_len = 32

pub record Options : Type 0 where
  pub secure : Bool
  pub domain : Bytes

-- The tokens of an address are counted in parts of which 12 * 10^9 are one token: a nanosecond
-- yields one, as 5 tokens a minute do. The source has them in float64.
pub record RlState : Type 0 where
  pub tokens : ℕ
  pub last : ℕ

pub record Gate : Type 0 where
  pub password : Bytes
  pub cookie_secret : Bytes
  pub opts : Options
  pub rl_tokens : GoMap Bytes RlState

pub data Error : Type 0 where
  no_password_file password_too_short bad_cookie_secret no_random write_failed : Error

-- loadOrCreateSecret, with what it has written to the file.
abbrev pub created : Option Bytes → Bool → Result Error Bytes × Option Bytes
created none writes = (err no_random, none)
created (some secret) true = (ok secret, some (hex_encode secret ++ bytes "\n"))
created (some secret) false = (err write_failed, none)

abbrev pub decoded : Option Bytes → Result Error Bytes × Option Bytes
decoded none = (err bad_cookie_secret, none)
decoded (some secret) = (ok secret, none)

unfoldable pub load_or_create_secret :
    Option Bytes → Option Bytes → Bool → Result Error Bytes × Option Bytes
load_or_create_secret none random writes = created random writes
load_or_create_secret (some b) random writes =
    if leb 64 (length (trim_space b))
    then decoded (hex_decode (trim_space b))
    else created random writes

abbrev pub gate_with : Bytes → Options → Result Error Bytes → Result Error Gate
gate_with pw opts (err e) = err e
gate_with pw opts (ok secret) =
    ok (record { password = pw; cookie_secret = secret; opts = opts; rl_tokens = [] })

-- The gate, from the contents of the two files.
unfoldable pub new_gate :
    Option Bytes → Option Bytes → Option Bytes → Bool → Options → Result Error Gate
new_gate none secret_file random writes opts = err no_password_file
new_gate (some pw) secret_file random writes opts =
    if ltb (length (trim_space pw)) 8
    then err password_too_short
    else gate_with (trim_space pw) opts (load_or_create_secret secret_file random writes).0

-- What the expression [^a-z0-9]+ does not match.
abbrev pub is_alnum : ℕ → Bool
is_alnum c = (leb b'a' c && leb c b'z') || (leb b'0' c && leb c b'9')

-- ReplaceAllString with "-": a run of other bytes becomes one dash. The flag says that the byte
-- before belongs to the run.
unfoldable pub dash_runs : Bool → Bytes → Bytes
dash_runs in_run [] = []
dash_runs in_run (c ∷ cs) =
    let kept = dash_runs false cs in
    let rest = dash_runs true cs in
    if is_alnum c then c ∷ kept else if in_run then rest else b'-' ∷ rest

abbrev pub is_dash : ℕ → Bool
is_dash c = nat_eq c b'-'

unfoldable pub shorten : Bytes → Bytes
shorten s = if ltb max_name_len (length s) then trim_both is_dash (take max_name_len s) else s

unfoldable pub slugify : Bytes → Bytes
slugify name = shorten (trim_both is_dash (dash_runs false (to_lower (trim_space name))))

unfoldable pub check_password : Gate → Bytes → Bool
check_password g candidate = bytes_eq candidate g.password

abbrev pub token : ℕ
token = 12 * second

abbrev pub rl_or_full : ℕ → Option RlState → RlState
rl_or_full now none = record { tokens = 5 * token; last = now }
rl_or_full now (some st) = st

abbrev pub least : ℕ → ℕ → ℕ
least a b = if ltb b a then b else a

-- The bucket of an address when it is asked at `now`, filled up.
unfoldable pub refilled : RlState → ℕ → RlState
refilled st now = record { tokens = least (5 * token) (st.tokens + (now - st.last)); last = now }

unfoldable pub take_token : RlState → RlState × Bool
take_token st =
    if ltb st.tokens token then (st, false) else (record st { tokens = st.tokens - token }, true)

unfoldable pub allow : Gate → Bytes → ℕ → Gate × Bool
allow g ip now =
    let r = take_token (refilled (rl_or_full now (Map.lookup ip g.rl_tokens)) now) in
    (record g { rl_tokens = Map.insert ip r.0 g.rl_tokens }, r.1)

pub record CookieData : Type 0 where
  pub value : Bytes
  pub secure : Bool
  pub max_age : Option ℕ
  pub domain : Bytes

-- "<owner>|<expiry>".
unfoldable pub payload : Bytes → Bytes → Bytes
payload owner exp = owner ++ (b'|' ∷ exp)

-- strings.Cut: the text before the first separator, and what is behind it.
abbrev pub behind : ℕ → Bytes × Option Bytes → Bytes × Option Bytes
behind c (before, after) = (c ∷ before, after)

unfoldable pub cut : ℕ → Bytes → Bytes × Option Bytes
cut sep [] = ([], none)
cut sep (c ∷ cs) = let r = cut sep cs in if nat_eq c sep then ([], some cs) else behind c r

-- The three parts of SplitN(value, "|", 3), if there are so many.
abbrev pub second_cut : Bytes → Bytes × Option Bytes → Option (Bytes × Bytes × Bytes)
second_cut owner (exp, none) = none
second_cut owner (exp, some sig) = some (owner, exp, sig)

abbrev pub first_cut : Bytes × Option Bytes → Option (Bytes × Bytes × Bytes)
first_cut (owner, none) = none
first_cut (owner, some rest) = second_cut owner (cut b'|' rest)

unfoldable pub split3 : Bytes → Option (Bytes × Bytes × Bytes)
split3 value = first_cut (cut b'|' value)

abbrev pub signature_ok : Bytes → Option Bytes → Bool
signature_ok expected none = false
signature_ok expected (some sig) = bytes_eq sig expected

abbrev pub not_expired : ℕ → Option ℤ → Bool
not_expired now none = false
not_expired now (some exp) = not (lt64 exp (pos (now / second)))

module _ (mac : Bytes → Bytes → Bytes) where
  unfoldable pub cookie_value : Gate → ℕ → Bytes → Bytes
  cookie_value g now owner =
      let p = payload owner (decimal ((now + cookie_max_age) / second)) in
      payload p (hex_encode (mac g.cookie_secret p))

  unfoldable pub cookie : Gate → ℕ → Bytes → CookieData
  cookie g now owner = record {
    value = cookie_value g now owner;
    secure = g.opts.secure;
    max_age = some (cookie_max_age / second);
    domain = g.opts.domain;
  }

  -- MaxAge -1.
  unfoldable pub clear_cookie : Gate → ℕ → CookieData
  clear_cookie g now = record (cookie g now []) { value = []; max_age = none }

  abbrev pub verified : Gate → ℕ → Option (Bytes × Bytes × Bytes) → Option Bytes
  verified g now none = none
  verified g now (some (owner, exp, sig)) =
      if signature_ok (mac g.cookie_secret (payload owner exp)) (hex_decode sig)
      then (if not_expired now (parse_int exp)
          then (if bytes_eq owner [] || not (bytes_eq (slugify owner) owner)
              then none
              else some owner)
          else none)
      else none

  -- The owner, or none for ErrCookieInvalid.
  unfoldable pub verify : Gate → ℕ → Bytes → Option Bytes
  verify g now value = verified g now (split3 value)

  abbrev pub owner_in : Gate → ℕ → Option Bytes → Option Bytes
  owner_in g now none = none
  owner_in g now (some value) = verify g now value

  -- The request's cookie, if it has one; Middleware answers 401 where there is no owner.
  unfoldable pub owner_from_request : Gate → ℕ → Option Bytes → Option Bytes
  owner_from_request g now cookie_header = owner_in g now cookie_header

-- The first hop of X-Forwarded-For, which is empty where the header is missing.
abbrev pub first_hop : Bytes → Bytes × Option Bytes → Bytes
first_hop header (before, none) = trim_space header
first_hop header ([], some rest) = trim_space header
first_hop header (c ∷ before, some rest) = trim_space (c ∷ before)

unfoldable pub client_ip : Bytes → Bytes → Bytes
client_ip [] remote_addr = remote_addr
client_ip (c ∷ header) remote_addr = first_hop (c ∷ header) (cut b',' (c ∷ header))
