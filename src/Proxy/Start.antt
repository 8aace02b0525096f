-- ===== src/Proxy/Start.antt =====
-- proxy/internal/audit/audit.go: the sinks; proxy/cmd/claude-proxy/main.go and New of
-- proxy/internal/server/server.go: the start of the gateway, up to the listener. The flags as they were
-- parsed, the environment, the JSON decoder and url.Parse are arguments, and so is which statement and
-- which step of opening the database works.
pub mod Serves
use microvm_terminal.Base.{
  ℕ, ◌+◌, Bool, true, false, ◌&&◌, ◌||◌, not, Option, none, some, List, [], ◌∷◌, ◌++◌, Bytes, bytes,
  bytes_eq, length, if◌then◌else◌,
}
use microvm_terminal.Base.Trim.{trim_space}
use microvm_terminal.Proxy.Keys
use microvm_terminal.Proxy.Keys.{Key, load_from_env}
use microvm_terminal.Proxy.Quota.{Manager, default_limits}
use microvm_terminal.Proxy.Server.{Server, AuditRecord}

-- A SQL sink without a database refuses every record; with one, the rows are those of its table.
pub data Sink : Type 0 where
  in_memory : List AuditRecord → Sink
  sql : Option (List AuditRecord) → Sink

-- `works` says that the statement does; the result, that there was no error.
unfoldable pub write_record : Sink → AuditRecord → Bool → Sink × Bool
write_record (in_memory records) r works = (in_memory (records ++ r ∷ []), true)
write_record (sql none) r works = (sql none, false)
write_record (sql (some rows)) r true = (sql (some (rows ++ r ∷ [])), true)
write_record (sql (some rows)) r false = (sql (some rows), false)

-- Of the sink in memory, or the rows of the table.
unfoldable pub all_records : Sink → List AuditRecord
all_records (in_memory records) = records
all_records (sql none) = []
all_records (sql (some rows)) = rows

abbrev pub record_count : Sink → ℕ
record_count s = length (all_records s)

-- The value of the variable, or the default where it is blank.
abbrev pub text_or : Bytes → Bytes → Bytes
text_or d [] = d
text_or d (c ∷ v) = c ∷ v

unfoldable pub env_or : (Bytes → Bytes) → Bytes → Bytes → Bytes
env_or env k d = text_or d (trim_space (env k))

pub record Flags : Type 0 where
  pub listen : Bytes
  pub tls_cert : Bytes
  pub tls_key : Bytes
  pub plain : Bool
  pub upstream : Bytes
  pub postgres : Bytes

-- The flags where none is given.
unfoldable pub default_flags : (Bytes → Bytes) → Flags
unfolding env_or
default_flags env = record {
  listen = bytes ":8443";
  tls_cert = env (bytes "PROXY_TLS_CERT_FILE");
  tls_key = env (bytes "PROXY_TLS_KEY_FILE");
  plain = false;
  upstream = env_or env (bytes "PROXY_UPSTREAM") (bytes "https://api.anthropic.com");
  postgres = env (bytes "POSTGRES_URL");
}

-- Opening the database, with the rows that its table has.
pub record Postgres : Type 0 where
  pub opens : Bool
  pub pings : Bool
  pub migrates : Bool
  pub rows : List AuditRecord

pub data StartError : Type 0 where
  no_keys_loaded : Keys.Error → StartError
  open_failed ping_failed migrate_failed bad_upstream tls_required : StartError

pub data Result {ℓ} (A : Type ℓ) : Type ℓ where
  ok : A → Result A
  err : StartError → Result A

unfoldable pub sink_for : Bytes → Postgres → Result Sink
sink_for [] db = ok (in_memory [])
sink_for (c ∷ url) db =
    if not db.opens
    then err open_failed
    else if not db.pings
    then err ping_failed
    else if not db.migrates
    then err migrate_failed
    else ok (sql (some db.rows))

pub record Running : Type 0 where
  pub server : Server
  pub sink : Sink
  pub listen : Bytes
  pub tls : Bool

unfoldable pub new_server : (Bytes → Bool) → Flags → (Bytes → Bytes) → List Key → Result Server
new_server parses f env keys =
    let upstream : Bytes = text_or (bytes "https://api.anthropic.com") f.upstream in
    if parses upstream
    then ok (record {
      pool = Keys.new keys;
      quota = record { limits = default_limits; buckets = [] };
      audit = [];
      admin_token = env (bytes "PROXY_ADMIN_TOKEN");
      upstream = upstream;
      inflight = 0;
    })
    else err bad_upstream

abbrev pub has_tls_files : Flags → Bool
has_tls_files f = not (bytes_eq f.tls_cert []) && not (bytes_eq f.tls_key [])

abbrev pub listening : Flags → Sink → Result Server → Result Running
listening f sink (err e) = err e
listening f sink (ok s) =
    if f.plain || has_tls_files f
    then ok (record { server = s; sink = sink; listen = f.listen; tls = not f.plain })
    else err tls_required

abbrev pub with_sink :
    (Bytes → Bool) → Flags → (Bytes → Bytes) → List Key → Result Sink → Result Running
with_sink parses f env keys (err e) = err e
with_sink parses f env keys (ok sink) = listening f sink (new_server parses f env keys)

abbrev pub with_keys :
    (Bytes → Bool) → Flags → (Bytes → Bytes) → Postgres → Keys.Result (List Key) → Result Running
with_keys parses f env db (Keys.err e) = err (no_keys_loaded e)
with_keys parses f env db (Keys.ok keys) = with_sink parses f env keys (sink_for f.postgres db)

unfoldable pub start :
    (Bytes → Option (List Key))
    → (Bytes → Bool)
    → Flags
    → (Bytes → Bytes)
    → Postgres
    → Result Running
start unmarshal parses f env db =
    with_keys parses f env db (load_from_env unmarshal (env (bytes "ANTHROPIC_API_KEYS")))
