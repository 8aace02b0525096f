-- ===== src/Proxy/Server.antt =====
-- proxy/internal/server/server.go with proxy/internal/audit/audit.go: the handlers of the gateway
-- as functions on the server's state. What the network, the clock, crypto/rand and encoding/json
-- decide is in the request's record; a log line is not modelled.
pub mod Forward
pub mod Charges
pub mod Outbound
pub mod Admin
use microvm_terminal.Base.{
  ℕ, zero, suc, ◌+◌, ◌-◌, ◌/◌, ◌^◌, ◌||◌, Bool, true, false, not, Option, none, some, List, [], ◌∷◌,
  ◌++◌, Bytes, bytes, bytes_eq, length, take, drop, concat, map, ltb, if◌then◌else◌,
}
use microvm_terminal.Base.Int64.{ℤ, pos}
use microvm_terminal.Base.Decimal.{decimal}
use microvm_terminal.Base.Trim.{trim_space, has_prefix}
use microvm_terminal.Proxy.Keys
use microvm_terminal.Proxy.Keys.{Key, Pool, unknown_session, key_revoked}
use microvm_terminal.Proxy.Quota
use microvm_terminal.Proxy.Quota.{Manager, second}
use microvm_terminal.Proxy.Stream
use microvm_terminal.Proxy.Stream.{Outer, Client, StreamError, stream_body, estimate_cost_micros}

-- A header: canonical names with their values.
abbrev pub Header : Type 0
Header = List (Bytes × Bytes)

-- Get: the first value of the name, or the empty text.
unfoldable pub header_get : Header → Bytes → Bytes
header_get [] k = []
header_get ((j, v) ∷ h) k = if bytes_eq j k then v else header_get h k

-- Set: one value in place of all.
unfoldable pub header_del : Header → Bytes → Header
header_del [] k = []
header_del ((j, v) ∷ h) k =
    let rest = header_del h k in if bytes_eq j k then rest else (j, v) ∷ rest

unfoldable pub header_set : Header → Bytes → Bytes → Header
unfolding header_del
header_set h k v = header_del h k ++ (k, v) ∷ []

pub record AuditRecord : Type 0 where
  pub session_id : Bytes
  pub endpoint : Bytes
  pub request_tokens : ℤ
  pub response_tokens : ℤ
  pub cost_usd_micros : ℤ
  pub status : ℕ

-- The records that were handed to the sink are `audit`, oldest first; `inflight` counts the forwards
-- under way.
pub record Server : Type 0 where
  pub pool : Pool
  pub quota : Manager
  pub audit : List AuditRecord
  pub admin_token : Bytes
  pub upstream : Bytes
  pub inflight : ℕ

pub record Request : Type 0 where
  pub method : Bytes
  pub path : Bytes
  pub header : Header

pub record Response : Type 0 where
  pub status : ℕ
  pub header : Header
  pub chunks : List Bytes
  pub fails : Bool

-- What happens around one forward: the readings of the clock in Reserve and after it, a fresh
-- request id, the body (none if reading it fails), whether the outgoing request can be built, the
-- response (none if the upstream cannot be reached) and the client that takes it.
pub record World : Type 0 where
  pub created : ℕ
  pub now : ℕ
  pub later : ℕ
  pub fresh_id : Bytes
  pub body : Option Bytes
  pub builds : Bool
  pub response : Option Response
  pub client : Client
  pub flusher : Bool

-- writeError's body; http.Error writes a status and a message alone.
pub data Reply : Type 0 where
  api_error : (status : ℕ) (code message : Bytes) (retry_after : ℕ) (request_id : Bytes) → Reply
  plain_error : (status : ℕ) (message : Bytes) → Reply
  forwarded : (status : ℕ) (client : Client) → Reply
  ok_body : Bytes → Reply

pub record Outgoing : Type 0 where
  pub method : Bytes
  pub url : Bytes
  pub header : Header
  pub body : Bytes

-- The server afterwards, the header and the body of the reply, and the request that was sent on.
pub record Outcome : Type 0 where
  pub server : Server
  pub header : Header
  pub reply : Reply
  pub sent : Option Outgoing

unfoldable pub bearer_token : Header → Option Bytes
unfolding header_get has_prefix trim_space
bearer_token h =
    let v = header_get h (bytes "Authorization") in
    if has_prefix v (bytes "Bearer ") then some (trim_space (drop 7 v)) else none

-- strippedHeaders.
unfoldable pub is_stripped : Bytes → Bool
unfolding bytes_eq
is_stripped k =
    bytes_eq k (bytes "Connection")
    || bytes_eq k (bytes "Keep-Alive")
    || bytes_eq k (bytes "Proxy-Authenticate")
    || bytes_eq k (bytes "Proxy-Authorization")
    || bytes_eq k (bytes "Te")
    || bytes_eq k (bytes "Trailer")
    || bytes_eq k (bytes "Transfer-Encoding")
    || bytes_eq k (bytes "Upgrade")
    || bytes_eq k (bytes "Authorization")
    || bytes_eq k (bytes "X-Api-Key")

unfoldable pub copy_forward_headers : Header → Header
unfolding is_stripped
copy_forward_headers [] = []
copy_forward_headers ((k, v) ∷ h) =
    let rest = copy_forward_headers h in if is_stripped k then rest else (k, v) ∷ rest

unfoldable pub first_non_empty : Bytes → Bytes → Bytes
first_non_empty [] b = b
first_non_empty (x ∷ a) b = x ∷ a

unfoldable pub emit_audit : Server → AuditRecord → Server
emit_audit s r = record s { audit = s.audit ++ r ∷ [] }

abbrev pub failure_record : Bytes → Bytes → ℕ → AuditRecord
failure_record sid path status = record {
  session_id = sid;
  endpoint = path;
  request_tokens = pos 0;
  response_tokens = pos 0;
  cost_usd_micros = pos 0;
  status = status;
}

-- Request bodies are cut to a MiB.
unfoldable pub body_cap : ℕ
body_cap = 2 ^ 20

unfoldable pub outgoing : Server → Request → Bytes → Bytes → Outgoing
unfolding copy_forward_headers header_set header_get first_non_empty
outgoing s r secret body = record {
  method = r.method;
  url = s.upstream ++ r.path;
  header =
      header_set (header_set (copy_forward_headers r.header) (bytes "X-Api-Key") secret)
        (bytes "Anthropic-Version")
        (first_non_empty (header_get r.header (bytes "Anthropic-Version")) (bytes "2023-06-01"));
  body = body;
}

unfoldable pub request_id : Request → World → Bytes
unfolding header_get first_non_empty
request_id r w = first_non_empty (header_get r.header (bytes "X-Request-Id")) w.fresh_id

-- `failed s h status code message retry` leaves the state and writes an error.
abbrev pub refuse :
    Server → Header → World → Request → ℕ → Bytes → Bytes → ℕ → Option Outgoing → Outcome
refuse s h w r status code message retry sent = record {
  server = s;
  header = h;
  reply = api_error status code message retry (request_id r w);
  sent = sent;
}

abbrev pub code_text : Quota.Code → Bytes
code_text Quota.tokens_in_exhausted = bytes "tokens_in_exhausted"
code_text Quota.tokens_out_exhausted = bytes "tokens_out_exhausted"
code_text Quota.requests_exhausted = bytes "requests_exhausted"
code_text Quota.rate_limit_per_minute = bytes "rate_limit_per_minute"

-- `int(qerr.RetryAfter.Seconds())`
abbrev pub retry_seconds : Quota.Error → ℕ
retry_seconds e = e.retry_after / second

unfoldable pub refunded : Server → Bytes → ℕ → Server
unfolding Quota.refund
refunded s sid later = record s { quota = Quota.refund s.quota sid later }

module _ (unmarshal : Bytes → Option Outer) (r : Request) (w : World) where
  -- The response is copied to the client; then the usage is committed and a record emitted.
  unfoldable pub deliver : Server → Bytes → Header → Outgoing → Response → Outcome
  unfolding Quota.commit stream_body estimate_cost_micros emit_audit header_get has_prefix
  deliver s sid h out resp =
      let is_sse =
        has_prefix (header_get resp.header (bytes "Content-Type")) (bytes "text/event-stream") in
      let copied = stream_body unmarshal w.flusher resp.fails is_sse w.client resp.chunks in
      let u = copied.usage in
      let quota = Quota.commit s.quota sid w.later u.request_tokens u.response_tokens in
      record {
        server =
            emit_audit (record s { quota = quota })
              (record {
                session_id = sid;
                endpoint = r.path;
                request_tokens = u.request_tokens;
                response_tokens = u.response_tokens;
                cost_usd_micros = estimate_cost_micros u;
                status = resp.status;
              });
        header = h ++ resp.header;
        reply = forwarded resp.status copied.client;
        sent = some out;
      }

  unfoldable pub with_response : Server → Bytes → Header → Outgoing → Option Response → Outcome
  unfolding deliver refunded emit_audit
  with_response s sid h out none =
      refuse (emit_audit (refunded s sid w.later) (failure_record sid r.path 502)) h w r 502
        (bytes "internal") (bytes "upstream error") 0 (some out)
  with_response s sid h out (some resp) = deliver s sid h out resp

  unfoldable pub with_body : Server → Bytes → Bytes → Header → Option Bytes → Outcome
  unfolding with_response refunded outgoing
  with_body s sid secret h none =
      refuse (refunded s sid w.later) h w r 400 (bytes "bad_request") (bytes "read body") 0 none
  with_body s sid secret h (some body) =
      if w.builds
      then with_response s sid h (outgoing s r secret (take body_cap body)) w.response
      else refuse (refunded s sid w.later) h w r 500 (bytes "internal")
          (bytes "build upstream request") 0 none

  unfoldable pub with_reservation :
      Server → Bytes → Bytes → Header → Manager × Option Quota.Error → Outcome
  unfolding with_body emit_audit
  with_reservation s sid secret h (quota, none) =
      with_body (record s { quota = quota }) sid secret h w.body
  with_reservation s sid secret h (quota, some e) =
      refuse (emit_audit (record s { quota = quota }) (failure_record sid r.path 429))
        (if ltb 0 (retry_seconds e)
          then h ++ (bytes "Retry-After", decimal (retry_seconds e)) ∷ []
          else h)
        w r 429 (bytes "rate_limited") (code_text e.code) (retry_seconds e) none

  unfoldable pub with_secret : Server → Bytes → Header → Keys.Result (Bytes × Bytes) → Outcome
  unfolding with_reservation Quota.reserve
  with_secret s sid h (Keys.ok (secret, key_id)) =
      with_reservation s sid secret (h ++ (bytes "X-Proxy-Key-Id", key_id) ∷ [])
        (Quota.reserve s.quota sid w.created w.now)
  with_secret s sid h (Keys.err unknown_session) =
      refuse s h w r 401 (bytes "auth_invalid") (bytes "unknown session token") 0 none
  with_secret s sid h (Keys.err key_revoked) =
      refuse s h w r 503 (bytes "internal") (bytes "session key revoked") 5 none
  with_secret s sid h (Keys.err e) =
      refuse s h w r 500 (bytes "internal") (bytes "key resolve failed") 0 none

  unfoldable pub with_token : Server → Header → Option Bytes → Outcome
  unfolding with_secret Keys.secret_for_session
  with_token s h none =
      refuse s h w r 401 (bytes "auth_required") (bytes "missing bearer token") 0 none
  with_token s h (some token) = with_secret s token h (Keys.secret_for_session s.pool token)

  unfoldable pub handle_forward : Server → Outcome
  unfolding with_token bearer_token request_id
  handle_forward s =
      let o =
        with_token (record s { inflight = s.inflight + 1 })
          ((bytes "X-Request-Id", request_id r w) ∷ []) (bearer_token r.header) in
      record o { server = record (o.server) { inflight = o.server.inflight - 1 } }

-- The three handlers that do not forward.
abbrev pub answer : Server → ℕ → Reply → Outcome
answer s status reply = record { server = s; header = []; reply = reply; sent = none }

unfoldable pub handle_health : Server → Outcome
handle_health s = answer s 200 (ok_body (bytes "{\"ok\":true}"))

-- checkAdmin: the refusal, if there is one. A missing bearer token is compared as the empty text.
abbrev pub token_or_empty : Option Bytes → Bytes
token_or_empty none = []
token_or_empty (some t) = t

unfoldable pub check_admin : Server → Header → Option Reply
check_admin s h =
    if bytes_eq s.admin_token []
    then some (plain_error 404 (bytes "admin disabled"))
    else if bytes_eq (token_or_empty (bearer_token h)) s.admin_token
    then none
    else some (plain_error 403 (bytes "forbidden"))

abbrev pub rotated : Server → Option (List Key) → Server × Reply
rotated s none = (s, plain_error 400 (bytes "bad body"))
rotated s (some []) = (s, plain_error 400 (bytes "cannot rotate to empty pool"))
rotated s (some (k ∷ ks)) =
    (record s { pool = Keys.replace s.pool (k ∷ ks) }, ok_body (bytes "{\"ok\":true}"))

abbrev pub unless_refused : Server → Option Reply → Server × Reply → Server × Reply
unless_refused s (some reply) done = (s, reply)
unless_refused s none done = done

-- The wait for the forwards under way, which ends after 30 seconds at the latest, is before the swap
-- and changes nothing: `s` is the server when it has ended.
unfoldable pub handle_admin_rotate : Server → Header → Option (List Key) → Server × Reply
unfolding check_admin Keys.replace
handle_admin_rotate s h decoded = unless_refused s (check_admin s h) (rotated s decoded)

abbrev pub minted : Server → Pool × Keys.Result Bytes → Server × Reply
minted s (pool, Keys.ok token) = (record s { pool = pool }, ok_body token)
minted s (pool, Keys.err e) = (record s { pool = pool }, plain_error 500 (bytes "mint"))

-- `decoded` says that the body could be read; the session id in it is not used.
unfoldable pub handle_admin_mint : Server → Header → Bool → Option Bytes → Server × Reply
unfolding check_admin Keys.mint_session_token
handle_admin_mint s h decoded random = unless_refused s (check_admin s h) (
    if decoded
    then minted s (Keys.mint_session_token s.pool random)
    else (s, plain_error 400 (bytes "bad body")))
