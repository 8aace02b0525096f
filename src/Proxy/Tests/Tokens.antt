-- ===== src/Proxy/Tests/Tokens.antt =====
-- proxy/internal/keys at concrete inputs.
use microvm_terminal.Base.{
  ◌≡◌, refl, arith, none, some, List, [], ◌∷◌, Option, Bytes, bytes, bytes_eq, bytes_ne,
}
use microvm_terminal.Base.Map
use microvm_terminal.Base.Text.{bytes-eq}
use microvm_terminal.Proxy.Keys
use microvm_terminal.Proxy.Keys.{
  Key, Pool, Result, ok, err, new, empty_pool, rand_failed, unknown_session, key_revoked, replace,
  register_session_token, revoke_session_token, mint_session_token, secret_for_session,
  missing_field, load_from_env,
}
use microvm_terminal.Proxy.Keys.RoundRobin.{register_all, register_all_pins}
use microvm_terminal.Proxy.Keys.Resolve.{Call, run, after, InPool, secret_for_session_current}

abbrev pub first_key : Key
first_key = record { id = bytes "k1"; workspace = bytes "w"; secret = bytes "s1" }

abbrev pub second_key : Key
second_key = record { id = bytes "k2"; workspace = bytes "w"; secret = bytes "s2" }

abbrev pub two_keys : List Key
two_keys = first_key ∷ second_key ∷ []

abbrev three_tokens : List Bytes
three_tokens = bytes "a" ∷ bytes "b" ∷ bytes "c" ∷ []

keyless_entry :
    load_from_env (λ raw. some (record first_key { secret = [] } ∷ [])) (bytes "[]")
    ≡ err (missing_field 0)
unfolding load_from_env
keyless_entry = refl

abbrev calls : List Call
calls = Call.registers (bytes "a") ∷ Call.replaces (second_key ∷ first_key ∷ []) ∷ []

calls_resolve :
    secret_for_session (run (new two_keys) calls) (bytes "a") ≡ ok (bytes "s1", bytes "k1")
unfolding run after new replace register_session_token secret_for_session Map.lookup Map.insert
    Keys.index_keys bytes_eq
calls_resolve = refl

secret_for_session_current_example :
    (k : Key) × InPool (run (new two_keys) calls) k
    × (k.secret ≡ bytes "s1")
    × (k.id ≡ bytes "k1")
    × (Map.lookup (bytes "a") (run (new two_keys) calls).session_to_key ≡ some (bytes "k1"))
secret_for_session_current_example =
    secret_for_session_current two_keys calls (bytes "a") (bytes "s1") (bytes "k1") calls_resolve

abbrev pinned : Pool
pinned = record {
  keys = two_keys;
  session_to_key = (bytes "a", bytes "k1") ∷ [];
  key_by_secret = (bytes "k1", first_key) ∷ (bytes "k2", second_key) ∷ [];
  rr = 1;
}

-- The third of three tokens goes to the first key again.
abbrev fresh_pool : Pool
fresh_pool = record pinned { session_to_key = []; rr = 0 }

register_all_pins_example :
    Map.lookup (bytes "c") (register_all fresh_pool three_tokens).session_to_key ≡ some (bytes "k1")
unfolding bytes_eq
register_all_pins_example =
    register_all_pins fresh_pool three_tokens 2 (bytes "c") first_key (omega arith)
      (
        (bytes_ne (bytes "a") (bytes "b") refl, (bytes_ne (bytes "a") (bytes "c") refl, tt)),
        ((bytes_ne (bytes "b") (bytes "c") refl, tt), (tt, tt)),
      )
      refl refl

abbrev no_bytes : Option Bytes
no_bytes = none
