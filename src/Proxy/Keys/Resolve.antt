-- ===== src/Proxy/Keys/Resolve.antt =====
-- What a session token resolves to, after rotations, registrations and revocations.
use microvm_terminal.Base.{
  ℕ, length, ◌%◌, suc, sym, ap, subst, ◌∙◌, inl, inr, Option-cases, ◌≡◌, ◌≢◌, refl, Option, none,
  some, List, [], ◌∷◌, Bytes, arith, if◌then◌else◌, get_elem?,
}
use microvm_terminal.Base.Map
use microvm_terminal.Base.Map.{GoMap}
use microvm_terminal.Base.Tests.{◌==◌}
use microvm_terminal.Base.Text.{bytes-eq, bytes_eq_iff}
use microvm_terminal.Proxy.Keys.{
  Key, Pool, ok, err, unknown_session, key_revoked, secret_of, resolve, index_keys, no_keys,
  replace, new, pin, pin_to, mint_session_token, register_session_token, revoke_session_token,
  secret_for_session,
}

-- The last key of the list that has the id.
abbrev pub or_else : Option Key → Option Key → Option Key
or_else none o = o
or_else (some k) o = some k

unfoldable pub last_with : Bytes → List Key → Option Key
last_with id [] = none
last_with id (k ∷ ks) = or_else (last_with id ks) (if k.id == id then some k else none)

lookup-index_keys :
    (id : Bytes) (m : GoMap Bytes Key) (ks : List Key)
    → Map.lookup id (index_keys m ks) ≡ or_else (last_with id ks) (Map.lookup id m)
unfolding index_keys last_with
lookup-index_keys id m [] = refl
lookup-index_keys id m (k ∷ ks) =
    ground (arith, lookup-index_keys id (Map.insert k.id k m) ks, Map.lookup-insert k.id id k m)

pub data Call : Type 0 where
  mints : Option Bytes → Call
  registers : Bytes → Call
  revokes : Bytes → Call
  replaces : List Key → Call

unfoldable pub after : Pool → Call → Pool
unfolding mint_session_token register_session_token revoke_session_token replace
after p (mints random) = (mint_session_token p random).0
after p (registers token) = (register_session_token p token).0
after p (revokes token) = revoke_session_token p token
after p (replaces next) = replace p next

unfoldable pub run : Pool → List Call → Pool
run p [] = p
run p (c ∷ cs) = run (after p c) cs

-- The table of keys by id agrees with the list of keys.
abbrev pub IsIndexed : Pool → Type 0
IsIndexed p = (id : Bytes) → Map.lookup id p.key_by_secret ≡ last_with id p.keys

or_else-none : (o : Option Key) → or_else o none ≡ o
or_else-none none = refl
or_else-none (some k) = refl

replace-IsIndexed : (p : Pool) (next : List Key) → IsIndexed (replace p next)
unfolding replace Map.lookup
replace-IsIndexed p next id = lookup-index_keys id [] next ∙ or_else-none (last_with id next)

-- Issuing a token touches neither the keys nor their table.
pub pin_keys :
    (p : Pool) (token : Bytes)
    → ((pin p token).0.keys ≡ p.keys) × ((pin p token).0.key_by_secret ≡ p.key_by_secret)
unfolding pin
pin_keys p token = ground arith

after-IsIndexed : (p : Pool) (c : Call) → IsIndexed p → IsIndexed (after p c)
unfolding after mint_session_token register_session_token revoke_session_token pin
after-IsIndexed p (mints random) v id = ground (arith, v id)
after-IsIndexed p (registers token) v id = ground (arith, v id)
after-IsIndexed p (revokes token) v id = v id
after-IsIndexed p (replaces next) v id = replace-IsIndexed p next id

run-IsIndexed : (p : Pool) (cs : List Call) → IsIndexed p → IsIndexed (run p cs)
unfolding run
run-IsIndexed p [] v = v
run-IsIndexed p (c ∷ cs) v = run-IsIndexed (after p c) cs (after-IsIndexed p c v)

-- A key of the current pool, by its position.
abbrev pub InPool : Pool → Key → Type 0
InPool p k = (i : ℕ) × (get_elem? p.keys i ≡ some k)

last_with_found :
    (id : Bytes) (ks : List Key) (k : Key)
    → last_with id ks ≡ some k
    → (k.id ≡ id) × ((i : ℕ) × (get_elem? ks i ≡ some k))
unfolding last_with
last_with_found id [] k e = absurd (ground arith)
last_with_found id (x ∷ xs) k e = elim (Option-cases (last_with id xs)) [
  | inl none_later ↦
      (ground (arith, bytes_eq_iff x.id id), (0, ground (arith, bytes_eq_iff x.id id)))
  | inr (j, later) ↦
      let (same, (i, at)) = last_with_found id xs j later in (ground arith, (suc i, ground arith))
]

secret_of_ok :
    (j : Bytes) (o : Option Key) (secret id : Bytes)
    → secret_of j o ≡ ok (secret, id)
    → (k : Key) × (o ≡ some k) × (k.secret ≡ secret) × (j ≡ id)
secret_of_ok j none secret id e = absurd (ground arith)
secret_of_ok j (some k) secret id e = (k, refl, ground arith, ground arith)

resolve_ok :
    (by_id : GoMap Bytes Key) (o : Option Bytes) (secret id : Bytes)
    → resolve by_id o ≡ ok (secret, id)
    → (k : Key) × (Map.lookup id by_id ≡ some k) × (k.secret ≡ secret) × (o ≡ some id)
resolve_ok by_id none secret id e = absurd (ground arith)
resolve_ok by_id (some j) secret id e =
    let (k, found, same, is_id) = secret_of_ok j (Map.lookup j by_id) secret id e in
    (k, subst (λ (i : Bytes). Map.lookup i by_id ≡ some k) is_id found, same, ap some is_id)

secret_for_session_indexed :
    (p : Pool) (token secret id : Bytes)
    → IsIndexed p
    → secret_for_session p token ≡ ok (secret, id)
    → (k : Key) × InPool p k
      × (k.secret ≡ secret)
      × (k.id ≡ id)
      × (Map.lookup token p.session_to_key ≡ some id)
unfolding secret_for_session
secret_for_session_indexed p token secret id v e =
    let (k, found, same, pinned) = resolve_ok p.key_by_secret _ secret id e in
    let (is_id, at) = last_with_found id p.keys k (sym (v id) ∙ found) in
    (k, at, same, is_id, pinned)

new-IsIndexed : (initial : List Key) → IsIndexed (new initial)
unfolding new
new-IsIndexed initial id = replace-IsIndexed no_keys initial id

-- Whatever was minted, registered, revoked and rotated before, a secret that a token resolves to
-- is that of a key in the current pool, whose id is returned with it and is the id that the token
-- is pinned to.
pub secret_for_session_current :
    (initial : List Key) (cs : List Call) (token secret id : Bytes)
    → secret_for_session (run (new initial) cs) token ≡ ok (secret, id)
    → (k : Key) × InPool (run (new initial) cs) k
      × (k.secret ≡ secret)
      × (k.id ≡ id)
      × (Map.lookup token (run (new initial) cs).session_to_key ≡ some id)
secret_for_session_current initial cs token secret id =
    secret_for_session_indexed (run (new initial) cs) token secret id
      (run-IsIndexed (new initial) cs (new-IsIndexed initial))

-- Rotation takes effect at once and keeps the pins: a pinned token has the secret of the last key of
-- the new pool with its id, and is revoked where there is none; any other token stays unknown.
pub secret_for_session-replace :
    (p : Pool) (next : List Key) (token : Bytes)
    → secret_for_session (replace p next) token ≡ (elim (Map.lookup token p.session_to_key) [
      | none ↦ err unknown_session
      | some id ↦ elim (last_with id next) [ none ↦ err key_revoked | some k ↦ ok (k.secret, id) ]
    ])
unfolding secret_for_session replace
secret_for_session-replace p next token = resolved (Map.lookup token p.session_to_key)
  where
    resolved :
        (o : Option Bytes)
        → resolve (replace p next).key_by_secret o ≡ (elim o [
          | none ↦ err unknown_session
          | some id ↦ elim (last_with id next) [
            | none ↦ err key_revoked
            | some k ↦ ok (k.secret, id)
          ]
        ])
    resolved none = refl
    resolved (some id) = rw (replace-IsIndexed p next id) (unfold replace in refl)

pin_to_isolated :
    (p : Pool) (token other : Bytes) (o : Option Key)
    → token ≢ other
    → (Map.lookup other (pin_to p token o).0.session_to_key ≡ Map.lookup other p.session_to_key)
      × ((pin_to p token o).0.key_by_secret ≡ p.key_by_secret)
pin_to_isolated p token other none ne = (refl, refl)
pin_to_isolated p token other (some k) ne = (
  ground (arith, bytes_eq_iff token other, Map.lookup-insert token other k.id p.session_to_key),
  refl,
)

-- Registering or revoking one token leaves what every other token resolves to; a revoked token is
-- unknown.
pub secret_for_session_isolated :
    (p : Pool) (token other : Bytes)
    → token ≢ other
    → (secret_for_session (register_session_token p token).0 other ≡ secret_for_session p other)
      × (secret_for_session (revoke_session_token p token) other ≡ secret_for_session p other)
      × (secret_for_session (revoke_session_token p token) token ≡ err unknown_session)
unfolding secret_for_session register_session_token revoke_session_token pin
secret_for_session_isolated p token other ne = (
  ground (arith, pin_to_isolated p token other (get_elem? p.keys (p.rr % length p.keys)) ne),
  ground (arith, bytes_eq_iff token other, Map.lookup-delete token other p.session_to_key),
  ground (arith, bytes_eq_iff token token, Map.lookup-delete token token p.session_to_key),
)
