-- ===== src/Proxy/Server/Forward.antt =====
-- The five ways in which a forward ends, as a specification, and that the handler meets it.
use microvm_terminal.Base.{
  ℕ, ◌≡◌, refl, ap, Option, none, some, [], ◌∷◌, ◌++◌, Bytes, bytes, true, false, take, arith, inl,
  inr, Bool-cases,
}
use microvm_terminal.Base.Trim.{has_prefix}
use microvm_terminal.Proxy.Keys
use microvm_terminal.Proxy.Quota
use microvm_terminal.Proxy.Quota.{Manager}
use microvm_terminal.Proxy.Stream.{Outer, Usage, Copied, stream_body, estimate_cost_micros}
use microvm_terminal.Proxy.Server.{
  Header, AuditRecord, Server, Request, Response, World, Reply, api_error, plain_error, forwarded,
  ok_body, Outcome, failure_record, bearer_token, outgoing, deliver, refunded, with_response,
  header_get, with_body, with_reservation, with_secret, with_token, handle_forward, emit_audit,
  body_cap,
}

-- The reply carries a response of the upstream.
abbrev pub IsForwarded : Reply → Type 0
IsForwarded (forwarded status client) = Unit {0}
IsForwarded (api_error status code message retry id) = ⊥
IsForwarded (plain_error status message) = ⊥
IsForwarded (ok_body b) = ⊥

-- The record of a forward that was served with a usage.
abbrev pub served_record : Bytes → Bytes → Usage → ℕ → AuditRecord
served_record sid path u status = record {
  session_id = sid;
  endpoint = path;
  request_tokens = u.request_tokens;
  response_tokens = u.response_tokens;
  cost_usd_micros = estimate_cost_micros u;
  status = status;
}

-- A session token that the request carries, with the secret that the pool has for it, and the
-- quota after its reservation.
pub record Resolved (s : Server) (r : Request) : Type 0 where
  pub token : Bytes
  pub secret : Bytes
  pub key_id : Bytes
  pub carried : bearer_token r.header ≡ some token
  pub known : Keys.secret_for_session s.pool token ≡ Keys.ok (secret, key_id)

abbrev pub reserved : Server → World → Bytes → Manager × Option Quota.Error
reserved s w token = Quota.reserve s.quota token w.created w.now

-- What the copying of the response writes to the client and meters.
abbrev pub copied : (Bytes → Option Outer) → World → Response → Copied
copied unmarshal w resp =
    stream_body unmarshal w.flusher resp.fails
      (has_prefix (header_get resp.header (bytes "Content-Type")) (bytes "text/event-stream"))
      w.client resp.chunks

-- The quota with a usage added.
abbrev pub with_usage : Manager → Bytes → ℕ → Usage → Manager
with_usage q token later u = Quota.commit q token later u.request_tokens u.response_tokens

abbrev pub status_of : Reply → ℕ
status_of (forwarded status client) = status
status_of (api_error status code message retry id) = status
status_of (plain_error status message) = status
status_of (ok_body b) = 200

-- The body of the request cannot be read, or no outgoing request can be built from it; with the
-- status of the reply.
pub data Broken (w : World) (status : ℕ) : Type 0 where
  unread : w.body ≡ none → status ≡ 400 → Broken w status
  unbuilt : (body : Bytes) → w.body ≡ some body → w.builds ≡ false → status ≡ 500 → Broken w status

-- The body is read and the outgoing request built.
abbrev pub Built : World → Bytes → Type 0
Built w body = (w.body ≡ some body) × (w.builds ≡ true)

pub data Account (unmarshal : Bytes → Option Outer) (s : Server) (r : Request) (w : World)
    (o : Outcome) : Type 0 where
  -- No token, or one that the pool does not know: nothing happens.
  unauthenticated :
      ¬ Resolved s r
      → o.server.quota ≡ s.quota
      → o.server.audit ≡ s.audit
      → o.sent ≡ none
      → ¬ IsForwarded o.reply
      → Account unmarshal s r w o
  -- The quota refuses: a record with status 429.
  limited :
      (t : Resolved s r) (e : Quota.Error)
      → (reserved s w t.token).1 ≡ some e
      → o.server.quota ≡ (reserved s w t.token).0
      → o.server.audit ≡ s.audit ++ failure_record t.token r.path 429 ∷ []
      → o.sent ≡ none
      → ¬ IsForwarded o.reply
      → status_of o.reply ≡ 429
      → Account unmarshal s r w o
  -- The request could not be read or built: the slot is refunded, with no record.
  aborted :
      (t : Resolved s r)
      → Broken w (status_of o.reply)
      → (reserved s w t.token).1 ≡ none
      → o.server.quota ≡ Quota.refund (reserved s w t.token).0 t.token w.later
      → o.server.audit ≡ s.audit
      → o.sent ≡ none
      → ¬ IsForwarded o.reply
      → Account unmarshal s r w o
  -- The upstream could not be reached: the slot is refunded, with a record with status 502.
  unreachable :
      (t : Resolved s r) (body : Bytes)
      → Built w body
      → w.response ≡ none
      → (reserved s w t.token).1 ≡ none
      → o.server.quota ≡ Quota.refund (reserved s w t.token).0 t.token w.later
      → o.server.audit ≡ s.audit ++ failure_record t.token r.path 502 ∷ []
      → o.sent ≡ some (outgoing s r t.secret (take body_cap body))
      → ¬ IsForwarded o.reply
      → status_of o.reply ≡ 502
      → Account unmarshal s r w o
  -- The upstream answered: the client gets its status and the copy of its body, and the usage that
  -- was metered while copying is committed, and recorded with its price and the status.
  served :
      (t : Resolved s r) (body : Bytes) (resp : Response)
      → Built w body
      → w.response ≡ some resp
      → (reserved s w t.token).1 ≡ none
      → o.server.quota
        ≡ with_usage (reserved s w t.token).0 t.token w.later (copied unmarshal w resp).usage
      → o.server.audit
        ≡ s.audit ++ served_record t.token r.path (copied unmarshal w resp).usage resp.status ∷ []
      → o.sent ≡ some (outgoing s r t.secret (take body_cap body))
      → o.reply ≡ forwarded resp.status (copied unmarshal w resp).client
      → Account unmarshal s r w o

unresolved :
    {s : Server} {r : Request} (token : Bytes) (q : Keys.Error)
    → bearer_token r.header ≡ some token
    → Keys.secret_for_session s.pool token ≡ Keys.err q
    → ¬ Resolved s r
unresolved {s} token q e k t =
    let same : t.token ≡ token = ground (arith, t.carried) in
    ground (arith, t.known, ap (Keys.secret_for_session s.pool) same)

module _ (unmarshal : Bytes → Option Outer) (s : Server) (r : Request) (w : World) where
  with_response-Account :
      (n : ℕ) (t : Resolved s r) (h : Header) (body : Bytes) (o : Option Response)
      → Built w body
      → w.response ≡ o
      → (reserved s w t.token).1 ≡ none
      → Account unmarshal s r w (
          with_response unmarshal r w
            (record s { quota = (reserved s w t.token).0; inflight = n })
            t.token
            h
            (outgoing s r t.secret (take body_cap body))
            o)
  unfolding with_response deliver emit_audit refunded
  with_response-Account n t h body none b e ok =
      unreachable t body b e ok refl refl refl (λ x. x) refl
  with_response-Account n t h body (some resp) b e ok =
      served t body resp b e ok refl refl refl refl

  with_body-Account :
      (n : ℕ) (t : Resolved s r) (h : Header) (body : Option Bytes)
      → w.body ≡ body
      → (reserved s w t.token).1 ≡ none
      → Account unmarshal s r w (
          with_body unmarshal r w
            (record s { quota = (reserved s w t.token).0; inflight = n })
            t.token
            t.secret
            h
            body)
  unfolding with_body refunded
  with_body-Account n t h none e ok = aborted t (unread e refl) ok refl refl refl (λ x. x)
  with_body-Account n t h (some body) e ok = elim (Bool-cases w.builds) [
    | inl built ↦ simp built (with_response-Account n t h body w.response (e, built) refl ok)
    | inr broken ↦ simp broken (aborted t (unbuilt body e broken refl) ok refl refl refl (λ x. x))
  ]

  with_reservation-Account :
      (n : ℕ) (t : Resolved s r) (h : Header) (res : Option Quota.Error)
      → (reserved s w t.token).1 ≡ res
      → Account unmarshal s r w (
          with_reservation unmarshal r w
            (record s { inflight = n })
            t.token
            t.secret
            h
            ((reserved s w t.token).0, res))
  unfolding with_reservation emit_audit
  with_reservation-Account n t h none e = with_body-Account n t h w.body refl e
  with_reservation-Account n t h (some q) e = limited t q e refl refl refl (λ x. x) refl

  with_secret-Account :
      (n : ℕ) (token : Bytes) (h : Header) (res : Keys.Result (Bytes × Bytes))
      → bearer_token r.header ≡ some token
      → Keys.secret_for_session s.pool token ≡ res
      → Account unmarshal s r w (with_secret unmarshal r w (record s { inflight = n }) token h res)
  unfolding with_secret
  with_secret-Account n token h (Keys.ok (secret, id)) e k =
      with_reservation-Account n
        (record { token = token; secret = secret; key_id = id; carried = e; known = k }) _
        (reserved s w token).1 refl
  with_secret-Account n token h (Keys.err Keys.unknown_session) e k =
      unauthenticated (λ t. unresolved token _ e k t) refl refl refl (λ x. x)
  with_secret-Account n token h (Keys.err Keys.key_revoked) e k =
      unauthenticated (λ t. unresolved token _ e k t) refl refl refl (λ x. x)
  with_secret-Account n token h (Keys.err q) e k =
      unauthenticated (λ t. unresolved token q e k t) refl refl refl (λ x. x)

  with_token-Account :
      (n : ℕ) (h : Header) (o : Option Bytes)
      → bearer_token r.header ≡ o
      → Account unmarshal s r w (with_token unmarshal r w (record s { inflight = n }) h o)
  unfolding with_token
  with_token-Account n h none e =
      unauthenticated (λ t. ground (arith, t.carried)) refl refl refl (λ x. x)
  with_token-Account n h (some token) e =
      with_secret-Account n token h (Keys.secret_for_session s.pool token) e refl

-- The count of the forwards under way, set at the end, is no part of the account.
Account-settled :
    {unmarshal : Bytes → Option Outer} {s : Server} {r : Request} {w : World} {o : Outcome} (n : ℕ)
    → Account unmarshal s r w o
    → Account unmarshal s r w (record o { server = record (o.server) { inflight = n } })
Account-settled n (unauthenticated no_token q a t f) = unauthenticated no_token q a t f
Account-settled n (limited t e x q a y f c) = limited t e x q a y f c
Account-settled n (aborted t b x q a y f) = aborted t b x q a y f
Account-settled n (unreachable t b c e x q a y f d) = unreachable t b c e x q a y f d
Account-settled n (served t b resp c e x q a y f) = served t b resp c e x q a y f

module _ (unmarshal : Bytes → Option Outer) (s : Server) (r : Request) (w : World) where
  -- Every forward ends in one of five ways: for a session that cannot be resolved, nothing happens;
  -- where the quota refuses, there is a record with 429, which is the status; where the body cannot be
  -- read or the request not built, the slot is given back, without a record, and the status is 400 or
  -- 500; where the upstream does not answer, the slot is given back, with a record with 502, which is
  -- the status; and where it answers, the client gets its status and the copy of its body, and the
  -- usage that was metered in the copying is committed, and recorded with its price.
  pub handle_forward-Account : Account unmarshal s r w (handle_forward unmarshal r w s)
  unfolding handle_forward
  handle_forward-Account =
      Account-settled _ (with_token-Account unmarshal s r w _ _ (bearer_token r.header) refl)

  -- A forward, however it ends, leaves the keys, the tokens, the admin token and the count of the
  -- forwards under way as they were.
  pub handle_forward_frame :
      ((handle_forward unmarshal r w s).server.pool ≡ s.pool)
      × ((handle_forward unmarshal r w s).server.admin_token ≡ s.admin_token)
      × ((handle_forward unmarshal r w s).server.inflight ≡ s.inflight)
  unfolding handle_forward with_token with_secret with_reservation with_body with_response deliver
      refunded emit_audit
  handle_forward_frame = ground arith
