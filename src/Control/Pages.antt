-- ===== src/Control/Pages.antt =====
-- control-plane/internal/api/pages.go: the login page, the login, the logout and the terminal page.
-- The decoded bodies are arguments, and chi's RealIP has set the remote address. The templates are
-- known by the data that they are given; the log and the pause after a wrong password are not
-- modelled.
pub mod Login
use microvm_terminal.Base.{
  ℕ, Bool, true, false, Option, none, some, List, [], ◌∷◌, Bytes, bytes, bytes_eq, not,
  if◌then◌else◌,
}
use microvm_terminal.Base.Trim.{has_prefix}
use microvm_terminal.Control.Auth.{
  Gate, CookieData, slugify, check_password, allow, client_ip, cookie, clear_cookie,
  owner_from_request,
}

pub record LoginRequest : Type 0 where
  pub content_type : Bytes
  pub json_body : Option (Bytes × Bytes)
  pub form : Option (Bytes × Bytes)
  pub forwarded_for : Bytes
  pub remote_addr : Bytes

pub data PageReply : Type 0 where
  redirect : (path : Bytes) → PageReply
  login_page : (status : ℕ) (name error : Bytes) → PageReply
  terminal_page : (owner : Bytes) → PageReply
  json_error : (status : ℕ) (code message : Bytes) → PageReply
  bad_form no_content : PageReply

pub record LoginResult : Type 0 where
  pub gate : Gate
  pub reply : PageReply
  pub set_cookie : Option CookieData

abbrev pub home_or_form : Option Bytes → PageReply
home_or_form none = login_page 200 [] []
home_or_form (some owner) = redirect (bytes "/terminal")

abbrev pub terminal_or_home : Option Bytes → PageReply
terminal_or_home none = redirect (bytes "/")
terminal_or_home (some owner) = terminal_page owner

abbrev pub wants_json : LoginRequest → Bool
wants_json r = has_prefix r.content_type (bytes "application/json")

abbrev pub fail : Bool → Bytes → ℕ → Bytes → Bytes → PageReply
fail true name status code message = json_error status code message
fail false name status code message = login_page status name message

-- The reply to a body that cannot be read.
abbrev pub unreadable : Bool → PageReply
unreadable true = json_error 400 (bytes "bad_request") (bytes "invalid json")
unreadable false = bad_form

abbrev pub welcome : Bool → PageReply
welcome true = no_content
welcome false = redirect (bytes "/terminal")

abbrev pub rate_message : Bytes
rate_message = bytes "Too many attempts. Wait a minute and try again."

abbrev pub name_message : Bytes
name_message = bytes "Pick a name with at least one letter or digit."

module _ (mac : Bytes → Bytes → Bytes) where
  unfoldable pub login : Gate → ℕ → Option Bytes → PageReply
  login g now cookie_header = home_or_form (owner_from_request mac g now cookie_header)

  -- Once the rate has let the attempt through.
  abbrev pub checked : Gate → ℕ → Bool → Bytes → Bytes → LoginResult
  checked g now json name password =
      let refused : PageReply → LoginResult =
        λ reply. record { gate = g; reply = reply; set_cookie = none } in
      if bytes_eq (slugify name) []
      then refused (fail json name 400 (bytes "bad_request") name_message)
      else if not (check_password g password)
      then refused (fail json name 401 (bytes "auth_invalid") (bytes "Wrong password."))
      else record {
        gate = g;
        reply = welcome json;
        set_cookie = some (cookie mac g now (slugify name));
      }

  abbrev pub attempted : Gate → ℕ → Bool → Bytes → Option (Bytes × Bytes) → LoginResult
  attempted g now json ip none = record { gate = g; reply = unreadable json; set_cookie = none }
  attempted g now json ip (some (name, password)) =
      let (g', allowed) = allow g ip now in
      if allowed then checked g' now json name password else record {
        gate = g';
        reply = fail json name 429 (bytes "rate_limited") rate_message;
        set_cookie = none;
      }

  unfoldable pub submit_login : Gate → ℕ → LoginRequest → LoginResult
  submit_login g now r =
      attempted g now (wants_json r) (client_ip r.forwarded_for r.remote_addr)
        (if wants_json r then r.json_body else r.form)

  unfoldable pub logout : Gate → ℕ → PageReply × CookieData
  logout g now = (redirect (bytes "/"), clear_cookie mac g now)

  unfoldable pub terminal : Gate → ℕ → Option Bytes → PageReply
  terminal g now cookie_header = terminal_or_home (owner_from_request mac g now cookie_header)
