-- ===== src/Control/Pages/Login.antt =====
-- Who gets a cookie from the login, and what it opens.
use microvm_terminal.Base.{
  ℕ, ◌+◌, ◌/◌, ◌≡◌, ◌≢◌, ◌<◌, refl, sym, ap, ◌∙◌, Bool, true, false, ◌&&◌, not, Option, none, some,
  [], Bytes, bytes, bytes_eq, leb, if◌then◌else◌, arith,
}
use microvm_terminal.Base.Hex.{AreBytes}
use microvm_terminal.Base.Int64.{int64_half}
use microvm_terminal.Base.Text.{bytes_eq_iff}
use microvm_terminal.Control.Auth.{
  second, cookie_max_age, Gate, CookieData, slugify, check_password, allow, client_ip, cookie_value,
  cookie, owner_from_request, verify, verified, split3,
}
use microvm_terminal.Control.Auth.Cookie.{verify-cookie_value}
use microvm_terminal.Control.Pages.{
  LoginRequest, redirect, terminal_page, terminal_or_home, wants_json, attempted, submit_login,
  terminal,
}

-- The name and the password of a request, as its content type has them read.
abbrev pub credentials : LoginRequest → Option (Bytes × Bytes)
credentials r = if wants_json r then r.json_body else r.form

abbrev pub admits : Gate → ℕ → LoginRequest → Bool
admits g now r = (allow g (client_ip r.forwarded_for r.remote_addr) now).1

-- The cookie that a login sets.
abbrev pub cookie_for :
    (Bytes → Bytes → Bytes) → Gate → ℕ → LoginRequest → Option (Bytes × Bytes) → Option CookieData
cookie_for mac g now r none = none
cookie_for mac g now r (some (name, password)) =
    if admits g now r && (check_password g password && not (bytes_eq (slugify name) []))
    then some (cookie mac g now (slugify name))
    else none

attempted-cookie :
    (mac : Bytes → Bytes → Bytes) (g : Gate) (now : ℕ) (json : Bool) (r : LoginRequest)
    (creds : Option (Bytes × Bytes))
    → (attempted mac g now json (client_ip r.forwarded_for r.remote_addr) creds).set_cookie
      ≡ cookie_for mac g now r creds
unfolding allow check_password cookie cookie_value
attempted-cookie mac g now json r none = refl
attempted-cookie mac g now json r (some (name, password)) = ground arith

pub submit_login-cookie :
    (mac : Bytes → Bytes → Bytes) (g : Gate) (now : ℕ) (r : LoginRequest)
    → (submit_login mac g now r).set_cookie ≡ cookie_for mac g now r (credentials r)
unfolding submit_login
submit_login-cookie mac g now r = attempted-cookie mac g now (wants_json r) r (credentials r)

attempted-secret :
    (mac : Bytes → Bytes → Bytes) (g : Gate) (now : ℕ) (json : Bool) (ip : Bytes)
    (creds : Option (Bytes × Bytes))
    → (attempted mac g now json ip creds).gate.cookie_secret ≡ g.cookie_secret
unfolding allow
attempted-secret mac g now json ip none = refl
attempted-secret mac g now json ip (some (name, password)) = ground arith

verified-secret :
    (mac : Bytes → Bytes → Bytes) (g g' : Gate) (now : ℕ) (parts : Option (Bytes × Bytes × Bytes))
    → g'.cookie_secret ≡ g.cookie_secret
    → verified mac g' now parts ≡ verified mac g now parts
verified-secret mac g g' now none h = refl
verified-secret mac g g' now (some (owner, exp, sig)) h = rw h refl

verify-secret :
    (mac : Bytes → Bytes → Bytes) (g g' : Gate) (now : ℕ) (value : Bytes)
    → g'.cookie_secret ≡ g.cookie_secret
    → verify mac g' now value ≡ verify mac g now value
unfolding verify
verify-secret mac g g' now value h = verified-secret mac g g' now (split3 value) h

terminal_or_home-if :
    (b : Bool) (owner : Bytes)
    → terminal_or_home (if b then some owner else none)
      ≡ (if b then terminal_page owner else redirect (bytes "/"))
terminal_or_home-if true owner = refl
terminal_or_home-if false owner = refl

-- The cookie that a login sets opens the terminal page for the owner that the name yields until it
-- expires, 30 days later, and leads back to the form afterwards: for a MAC whose values are bytes,
-- and a clock before the year 2^63.
pub terminal-submit_login :
    (mac : Bytes → Bytes → Bytes) (g : Gate) (now later : ℕ) (r : LoginRequest)
    (name password : Bytes) (ck : CookieData)
    → ((key message : Bytes) → AreBytes (mac key message))
    → (now + cookie_max_age) / second < int64_half
    → credentials r ≡ some (name, password)
    → (submit_login mac g now r).set_cookie ≡ some ck
    → terminal mac (submit_login mac g now r).gate later (some ck.value) ≡ (
        if leb (later / second) ((now + cookie_max_age) / second)
        then terminal_page (slugify name)
        else redirect (bytes "/"))
unfolding terminal owner_from_request cookie
terminal-submit_login mac g now later r name password ck are_bytes fits creds is_set =
    let given : cookie_for mac g now r (some (name, password)) ≡ some ck =
      sym (submit_login-cookie mac g now r ∙ ap (cookie_for mac g now r) creds) ∙ is_set in
    let usable : slugify name ≢ [] =
      λ e. absurd (ground (arith, given, bytes_eq_iff (slugify name) [], e)) in
    let is_it : ck ≡ cookie mac g now (slugify name) = ground (arith, given) in
    let value : ck.value ≡ cookie_value mac g now (slugify name) = ap (λ x. x.value) is_it in
    let secret : (submit_login mac g now r).gate.cookie_secret ≡ g.cookie_secret =
      unfold submit_login in
      attempted-secret mac g now (wants_json r) (client_ip r.forwarded_for r.remote_addr)
        (credentials r) in
    ap terminal_or_home (
      verify-secret mac g (submit_login mac g now r).gate later ck.value secret
      ∙ ap (verify mac g later) value
      ∙ verify-cookie_value mac g name now later are_bytes fits usable)
    ∙ terminal_or_home-if (leb (later / second) ((now + cookie_max_age) / second)) (slugify name)
