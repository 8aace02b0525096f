-- ===== src/Proxy/Keys.antt =====
-- proxy/internal/keys/keys.go: the pool of Anthropic keys and the session tokens pinned to them.
-- The bytes that crypto/rand yields, and what encoding/json makes of a text, are arguments. The
-- round-robin index counts the tokens that were ever issued and is a natural number.
pub mod Resolve
pub mod RoundRobin
use microvm_terminal.Base.{
  ℕ, suc, ◌+◌, ◌%◌, Bool, true, false, ◌||◌, Option, none, some, List, [], ◌∷◌, ◌++◌, Bytes, bytes,
  bytes_eq, length, get_elem?, if◌then◌else◌,
}
use microvm_terminal.Base.Hex.{hex_encode}
use microvm_terminal.Base.Map
use microvm_terminal.Base.Map.{GoMap}
use microvm_terminal.Base.Text.{bytes-eq}

pub record Key : Type 0 where
  pub id : Bytes
  pub workspace : Bytes
  pub secret : Bytes

-- `key_by_secret` is keyed by the id, as in the source.
pub record Pool : Type 0 where
  pub keys : List Key
  pub session_to_key : GoMap Bytes Bytes
  pub key_by_secret : GoMap Bytes Key
  pub rr : ℕ

-- `missing_field i` is the entry that lacks an id or a secret; `index_out_of_range` is Go's panic.
pub data Error : Type 0 where
  empty_pool parse_failed rand_failed key_revoked unknown_session index_out_of_range : Error
  missing_field : ℕ → Error

pub data Result {ℓ} (A : Type ℓ) : Type ℓ where
  ok : A → Result A
  err : Error → Result A

-- The loop over the entries, from the entry `i` on.
unfoldable pub check_entries : ℕ → List Key → List Key → Result (List Key)
check_entries i all [] = ok all
check_entries i all (k ∷ ks) =
    let rest = check_entries (i + 1) all ks in
    if bytes_eq k.id [] || bytes_eq k.secret [] then err (missing_field i) else rest

abbrev pub loaded : Option (List Key) → Result (List Key)
loaded none = err parse_failed
loaded (some []) = err empty_pool
loaded (some (k ∷ ks)) = check_entries 0 (k ∷ ks) (k ∷ ks)

-- `raw` is the value of ANTHROPIC_API_KEYS, and `unmarshal` what json.Unmarshal decodes.
unfoldable pub load_from_env : (Bytes → Option (List Key)) → Bytes → Result (List Key)
unfolding bytes_eq check_entries
load_from_env unmarshal raw = if bytes_eq raw [] then err empty_pool else loaded (unmarshal raw)

unfoldable pub index_keys : GoMap Bytes Key → List Key → GoMap Bytes Key
index_keys m [] = m
index_keys m (k ∷ ks) = index_keys (Map.insert k.id k m) ks

unfoldable pub replace : Pool → List Key → Pool
replace p next = record p { keys = next; key_by_secret = index_keys [] next }

abbrev pub no_keys : Pool
no_keys = record { keys = []; session_to_key = []; key_by_secret = []; rr = 0 }

unfoldable pub new : List Key → Pool
unfolding replace
new initial = replace no_keys initial

abbrev pub pin_to : Pool → Bytes → Option Key → Pool × Result Bytes
pin_to p token none = (p, err index_out_of_range)
pin_to p token (some key) = (
  record p { rr = p.rr + 1; session_to_key = Map.insert token key.id p.session_to_key },
  ok token,
)

-- `key := p.keys[p.rr%len(p.keys)]; p.rr++; p.sessionToKey[token] = key.ID`
unfoldable pub pin : Pool → Bytes → Pool × Result Bytes
pin p token = pin_to p token (get_elem? p.keys (p.rr % length p.keys))

unfoldable pub random_token : Option Bytes → Result Bytes
unfolding hex_encode
random_token none = err rand_failed
random_token (some b) = ok (bytes "sess_" ++ hex_encode b)

abbrev pub pin_minted : Pool → Result Bytes → Pool × Result Bytes
unfolding pin
pin_minted p (err e) = (p, err e)
pin_minted p (ok token) = pin p token

abbrev pub unless_empty : Pool → List Key → Pool × Result Bytes → Pool × Result Bytes
unless_empty p [] r = (p, err empty_pool)
unless_empty p (k ∷ ks) r = r

unfoldable pub mint_session_token : Pool → Option Bytes → Pool × Result Bytes
unfolding random_token pin
mint_session_token p random = unless_empty p p.keys (pin_minted p (random_token random))

unfoldable pub register_session_token : Pool → Bytes → Pool × Result Bytes
unfolding pin
register_session_token p token = unless_empty p p.keys (pin p token)

unfoldable pub revoke_session_token : Pool → Bytes → Pool
revoke_session_token p token = record p { session_to_key = Map.delete token p.session_to_key }

abbrev pub secret_of : Bytes → Option Key → Result (Bytes × Bytes)
secret_of id none = err key_revoked
secret_of id (some k) = ok (k.secret, id)

abbrev pub resolve : GoMap Bytes Key → Option Bytes → Result (Bytes × Bytes)
resolve by_id none = err unknown_session
resolve by_id (some id) = secret_of id (Map.lookup id by_id)

-- The secret and the id of the key.
unfoldable pub secret_for_session : Pool → Bytes → Result (Bytes × Bytes)
secret_for_session p token = resolve p.key_by_secret (Map.lookup token p.session_to_key)

pub record Stats : Type 0 where
  pub keys : ℕ
  pub active_sessions : ℕ

unfoldable pub stats : Pool → Stats
stats p = record { keys = length p.keys; active_sessions = length p.session_to_key }
