-- ===== src/Proxy/Server/Charges.antt =====
-- Who is charged, and what the retry hint in a 429 reply is worth.
use microvm_terminal.Base.{
  ℕ, ◌+◌, ◌*◌, ◌%◌, ◌<◌, ◌≤◌, ◌≡◌, ◌≢◌, refl, sym, ap, subst, ◌∙◌, Option, some, Bytes, arith,
}
use microvm_terminal.Proxy.Quota
use microvm_terminal.Proxy.Quota.{
  Manager, Bucket, Limits, Error, rate_limit_per_minute, second, minute, reserve, reserve_bucket,
}
use microvm_terminal.Proxy.Quota.Sessions.{usage-reserve, usage-refund, get-reserve}
use microvm_terminal.Proxy.Stream.{Outer}
use microvm_terminal.Proxy.Server.{Server, Request, World, Outcome, handle_forward, retry_seconds}
use microvm_terminal.Proxy.Server.Forward.{
  IsForwarded, Account, unauthenticated, limited, aborted, unreachable, served,
  handle_forward-Account,
}

-- Nobody's usage differs between two managers.
abbrev pub SameUsage : Manager → Manager → Type 0
SameUsage m q = (sid : Bytes) (t : ℕ) → (Quota.get q sid t).usage ≡ (Quota.get m sid t).usage

SameUsage-eq : (m : Manager) {p q : Manager} → q ≡ p → SameUsage m p → SameUsage m q
SameUsage-eq m e h = subst (SameUsage m) (sym e) h

Account-SameUsage :
    {unmarshal : Bytes → Option Outer} {s : Server} {r : Request} {w : World} {o : Outcome}
    → Account unmarshal s r w o
    → ¬ IsForwarded o.reply
    → SameUsage s.quota o.server.quota
Account-SameUsage {s} (unauthenticated no_token q a t f) n = SameUsage-eq s.quota q (λ sid t. refl)
Account-SameUsage {s} {w} (limited t e x q a y f c) n =
    SameUsage-eq s.quota q (λ sid u. usage-reserve s.quota t.token sid w.created w.now u)
Account-SameUsage {s} {w} (aborted t b x q a y f) n = SameUsage-eq s.quota q (λ sid u.
    usage-refund (reserve s.quota t.token w.created w.now).0 t.token sid w.later u
    ∙ usage-reserve s.quota t.token sid w.created w.now u)
Account-SameUsage {s} {w} (unreachable t b c e x q a y f d) n = SameUsage-eq s.quota q (λ sid u.
    usage-refund (reserve s.quota t.token w.created w.now).0 t.token sid w.later u
    ∙ usage-reserve s.quota t.token sid w.created w.now u)
Account-SameUsage (served t b resp c e x q a y f) n = absurd (n (subst IsForwarded (sym f) tt))

-- A forward whose reply is no response of the upstream changes the usage of no session.
pub handle_forward-SameUsage :
    (unmarshal : Bytes → Option Outer) (s : Server) (r : Request) (w : World)
    → ¬ IsForwarded (handle_forward unmarshal r w s).reply
    → SameUsage s.quota (handle_forward unmarshal r w s).server.quota
handle_forward-SameUsage unmarshal s r w =
    Account-SameUsage (handle_forward-Account unmarshal s r w)

-- The verdict of a second reservation of the session.
refusal-reserve :
    (m : Manager) (sid : Bytes) (created now created' later : ℕ)
    → (reserve_bucket m.limits sid
        (reserve_bucket m.limits sid (Quota.get m sid created) now).0
        later).1
      ≡ (reserve (reserve m sid created now).0 sid created' later).1
unfolding reserve
refusal-reserve m sid created now created' later =
    ap (λ (b : Bucket). (reserve_bucket m.limits sid b later).1)
      (sym (get-reserve m sid created now created'))

still_limited :
    (l : Limits) (sid : Bytes) (b : Bucket) (now : ℕ) (e : Error)
    → b.window_start ≤ now
    → (reserve_bucket l sid b now).1 ≡ some e
    → e.code ≡ rate_limit_per_minute
    → second < e.retry_after
    → e.retry_after % second ≢ 0
    → let later = now + retry_seconds e * second in
      (e' : Error) × ((reserve_bucket l sid (reserve_bucket l sid b now).0 later).1 ≡ some e')
      × (e'.code ≡ rate_limit_per_minute)
unfolding reserve_bucket
still_limited l sid b now e start refused is_rate long odd =
    let later : ℕ = now + retry_seconds e * second in
    let b' = (reserve_bucket l sid b now).0 in
    (
      record {
        code = rate_limit_per_minute;
        retry_after = Quota.retry_after b' later;
        session_id = sid;
      },
      ground arith,
      refl,
    )

-- The hint in seconds is cut to whole seconds: whenever the window does not end on a whole second,
-- a client that comes back after exactly so many seconds is refused for the rate once more, with no
-- call of its session between.
retry_seconds_early :
    (m : Manager) (sid : Bytes) (created now created' : ℕ) (e : Error)
    → (Quota.get m sid created).window_start ≤ now
    → (reserve m sid created now).1 ≡ some e
    → e.code ≡ rate_limit_per_minute
    → second < e.retry_after
    → e.retry_after % second ≢ 0
    → (e' : Error) × ((reserve
          (reserve m sid created now).0
          sid
          created'
          (now + retry_seconds e * second)).1
        ≡ some e')
      × (e'.code ≡ rate_limit_per_minute)
retry_seconds_early m sid created now created' e start refused is_rate long odd =
    let b = (reserve_bucket m.limits sid (Quota.get m sid created) now).0 in
    let (e', again, code) =
      still_limited m.limits sid (Quota.get m sid created) now e start (unfold reserve in refused)
        is_rate long odd in
    (
      e',
      sym (refusal-reserve m sid created now created' (now + retry_seconds e * second)) ∙ again,
      code,
    )
