-- ===== src/Proxy/Server/Admin.antt =====
-- The admin endpoints: who may use them and what they change.
use microvm_terminal.Base.{
  ◌≡◌, ◌≢◌, ◌⊎◌, inl, inr, refl, Bool, Option, none, some, List, [], ◌∷◌, Bytes, bytes, bytes_eq,
  arith, Bool-cases,
}
use microvm_terminal.Base.Text.{bytes_eq_iff}
use microvm_terminal.Proxy.Keys
use microvm_terminal.Proxy.Keys.{Key}
use microvm_terminal.Proxy.Server.{
  Header, Server, Reply, bearer_token, token_or_empty, plain_error, check_admin,
  handle_admin_rotate, handle_admin_mint,
}

check_admin_denied :
    (s : Server) (h : Header)
    → (s.admin_token ≡ []) ⊎ (bearer_token h ≢ some s.admin_token)
    → (reply : Reply) × (check_admin s h ≡ some reply)
unfolding check_admin
check_admin_denied s h denied = elim (Bool-cases (bytes_eq s.admin_token [])) [
  | inl unset ↦ (plain_error 404 (bytes "admin disabled"), ground arith)
  | inr set ↦ (
    plain_error 403 (bytes "forbidden"),
    ground (
      arith,
      bytes_eq_iff s.admin_token [],
      bytes_eq_iff (token_or_empty (bearer_token h)) s.admin_token,
    ),
  )
]

check_admin_granted :
    (s : Server) (h : Header)
    → s.admin_token ≢ []
    → bearer_token h ≡ some s.admin_token
    → check_admin s h ≡ none
unfolding check_admin
check_admin_granted s h set borne = ground (
  arith,
  bytes_eq_iff s.admin_token [],
  bytes_eq_iff (token_or_empty (bearer_token h)) s.admin_token,
)

-- Without an admin token that is set and that the request bears, neither endpoint changes anything
-- in the server.
pub admin_needs_token :
    (s : Server) (h : Header) (next : Option (List Key)) (decoded : Bool) (random : Option Bytes)
    → (s.admin_token ≡ []) ⊎ (bearer_token h ≢ some s.admin_token)
    → ((handle_admin_rotate s h next).0 ≡ s) × ((handle_admin_mint s h decoded random).0 ≡ s)
unfolding handle_admin_rotate handle_admin_mint
admin_needs_token s h next decoded random denied =
    let (reply, e) = check_admin_denied s h denied in (rw e refl, rw e refl)

-- With an admin token that is set and that the request bears, a rotation to a list of keys that is
-- not empty installs that list, and changes nothing else; to an empty or unreadable list it changes
-- nothing.
pub rotate_lem :
    (s : Server) (h : Header) (next : List Key)
    → s.admin_token ≢ []
    → bearer_token h ≡ some s.admin_token
    → ((handle_admin_rotate s h (some next)).0
        ≡ (elim next [ [] ↦ s | k ∷ ks ↦ record s { pool = Keys.replace s.pool (k ∷ ks) } ]))
      × ((handle_admin_rotate s h none).0 ≡ s)
unfolding handle_admin_rotate
rotate_lem s h [] set borne = let e = check_admin_granted s h set borne in (rw e refl, rw e refl)
rotate_lem s h (k ∷ ks) set borne =
    let e = check_admin_granted s h set borne in (rw e refl, rw e refl)
