-- ===== src/Proxy/Quota/Retry.antt =====
-- What the retry hint of a rate-limited reservation promises.
use microvm_terminal.Base.{
  ℕ, ◌+◌, ◌≤◌, ◌≡◌, Bool, true, false, ap, ◌∙◌, Option, none, some, Bytes, arith,
}
use microvm_terminal.Base.Int64.{pos, le64}
use microvm_terminal.Base.Text.{bytes-eq}
use microvm_terminal.Proxy.Quota.{
  Manager, Bucket, Limits, Error, rate_limit_per_minute, second, minute, get, reserve,
  reserve_bucket,
}
use microvm_terminal.Proxy.Quota.Sessions.{get-reserve}

-- On a bucket: the hint lies between a second and a minute, and after it the window has passed.
hint_bounds :
    (l : Limits) (sid : Bytes) (b : Bucket) (now : ℕ) (e : Error)
    → b.window_start ≤ now
    → (reserve_bucket l sid b now).1 ≡ some e
    → e.code ≡ rate_limit_per_minute
    → (second ≤ e.retry_after)
      × (e.retry_after ≤ minute)
      × ((reserve_bucket l sid b now).0.window_start + minute ≤ now + e.retry_after)
unfolding reserve_bucket
hint_bounds l sid b now e start refused limited = ground arith

abbrev pub is_rate_refusal : Option Error → Bool
is_rate_refusal none = false
is_rate_refusal (some e) = elim e.code [ rate_limit_per_minute ↦ true | _ ↦ false ]

fresh_window :
    (l : Limits) (sid : Bytes) (b : Bucket) (now : ℕ)
    → le64 l.max_requests_per_minute (pos 0) ≡ false
    → b.window_start + minute ≤ now
    → is_rate_refusal (reserve_bucket l sid b now).1 ≡ false
unfolding reserve_bucket
fresh_window l sid b now positive passed = ground arith

-- With a positive limit for the minute, and a window that did not start after `now`: a reservation
-- refused for the rate carries a hint between one second and one minute, and a reservation of the
-- same session made when that time has passed, with no call between, is not refused for the rate.
retry-accepted :
    (m : Manager) (sid : Bytes) (created now created' later : ℕ) (e : Error)
    → le64 m.limits.max_requests_per_minute (pos 0) ≡ false
    → (get m sid created).window_start ≤ now
    → (reserve m sid created now).1 ≡ some e
    → e.code ≡ rate_limit_per_minute
    → now + e.retry_after ≤ later
    → (second ≤ e.retry_after)
      × (e.retry_after ≤ minute)
      × (is_rate_refusal (reserve (reserve m sid created now).0 sid created' later).1 ≡ false)
unfolding reserve
retry-accepted m sid created now created' later e positive start refused limited waited = (
  hint.0,
  hint.1,
  ap (λ (c : Bucket). is_rate_refusal (reserve_bucket m.limits sid c later).1)
        (get-reserve m sid created now created')
      ∙ fresh_window m.limits sid (reserve_bucket m.limits sid b now).0 later positive
          (omega (arith, hint.2)),
)
  where
    b : Bucket
    b = get m sid created

    hint :
        (second ≤ e.retry_after)
        × (e.retry_after ≤ minute)
        × ((reserve_bucket m.limits sid b now).0.window_start + minute ≤ now + e.retry_after)
    hint = hint_bounds m.limits sid b now e start (unfold reserve in refused) limited
