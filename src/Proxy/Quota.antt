-- ===== src/Proxy/Quota.antt =====
-- proxy/internal/quota/quota.go: per-session caps. A time is a number of nanoseconds, and each
-- reading of the clock is an argument. `window_count` is incremented only below an int64 limit and
-- decremented only above 0, so a natural number holds it; the usage counters wrap as int64 does.
pub mod Sessions
pub mod Retry
pub mod Rate
pub mod Concurrent
use microvm_terminal.Base.{
  ℕ, ◌+◌, ◌-◌, ◌*◌, Bool, true, false, Option, none, some, [], Bytes, leb, ltb, if◌then◌else◌,
}
use microvm_terminal.Base.Int64.{ℤ, pos, add64, le64}
use microvm_terminal.Base.Map
use microvm_terminal.Base.Map.{GoMap}
use microvm_terminal.Base.Text.{bytes-eq}

abbrev pub second : ℕ
second = 1_000_000_000

abbrev pub minute : ℕ
minute = 60 * second

pub record Limits : Type 0 where
  pub max_tokens_in : ℤ
  pub max_tokens_out : ℤ
  pub max_requests : ℤ
  pub max_requests_per_minute : ℤ

abbrev pub default_limits : Limits
default_limits = record {
  max_tokens_in = pos 60000;
  max_tokens_out = pos 120000;
  max_requests = pos 60;
  max_requests_per_minute = pos 12;
}

pub record Usage : Type 0 where
  pub tokens_in : ℤ
  pub tokens_out : ℤ
  pub requests : ℤ

pub data Code : Type 0 where
  tokens_in_exhausted tokens_out_exhausted requests_exhausted rate_limit_per_minute : Code

pub record Error : Type 0 where
  pub code : Code
  pub retry_after : ℕ
  pub session_id : Bytes

pub record Bucket : Type 0 where
  pub usage : Usage
  pub window_start : ℕ
  pub window_count : ℕ

pub record Manager : Type 0 where
  pub limits : Limits
  pub buckets : GoMap Bytes Bucket

unfoldable pub new : Limits → Manager
new l = record { limits = if le64 l.max_tokens_in (pos 0) then default_limits else l; buckets = [] }

abbrev pub fresh_bucket : ℕ → Bucket
fresh_bucket now = record {
  usage = record { tokens_in = pos 0; tokens_out = pos 0; requests = pos 0 };
  window_start = now;
  window_count = 0;
}

abbrev pub bucket_or : ℕ → Option Bucket → Bucket
bucket_or now none = fresh_bucket now
bucket_or now (some b) = b

-- `get` hands out a pointer into the map: the bucket here, and `put` for what is written through it.
unfoldable pub get : Manager → Bytes → ℕ → Bucket
get m sid now = bucket_or now (Map.lookup sid m.buckets)

unfoldable pub put : Manager → Bytes → Bucket → Manager
put m sid b = record m { buckets = Map.insert sid b m.buckets }

-- The reset of the window, when a minute has passed.
unfoldable pub roll : Bucket → ℕ → Bucket
roll b now =
    if leb (b.window_start + minute) now
    then record b { window_start = now; window_count = 0 }
    else b

unfoldable pub retry_after : Bucket → ℕ → ℕ
retry_after b now =
    let retry : ℕ = b.window_start + minute - now in if ltb retry second then second else retry

-- The tests of `Reserve`, in its order, on a bucket whose window is current.
unfoldable pub refusal : Limits → Bytes → Bucket → ℕ → Option Error
unfolding retry_after
refusal l sid b now =
    if le64 l.max_requests_per_minute (pos b.window_count)
    then some
        (record { code = rate_limit_per_minute; retry_after = retry_after b now; session_id = sid })
    else if le64 l.max_requests b.usage.requests
    then some (record { code = requests_exhausted; retry_after = 0; session_id = sid })
    else if le64 l.max_tokens_in b.usage.tokens_in
    then some (record { code = tokens_in_exhausted; retry_after = 0; session_id = sid })
    else if le64 l.max_tokens_out b.usage.tokens_out
    then some (record { code = tokens_out_exhausted; retry_after = 0; session_id = sid })
    else none

abbrev pub count_if_admitted : Option Error → Bucket → Bucket
count_if_admitted none b = record b { window_count = b.window_count + 1 }
count_if_admitted (some e) b = b

unfoldable pub reserve_bucket : Limits → Bytes → Bucket → ℕ → Bucket × Option Error
unfolding roll refusal
reserve_bucket l sid b now =
    let b' = roll b now in let e = refusal l sid b' now in (count_if_admitted e b', e)

-- `created` is the reading of the clock inside `get`, `now` the one of `Reserve`.
unfoldable pub reserve : Manager → Bytes → ℕ → ℕ → Manager × Option Error
unfolding get put reserve_bucket
reserve m sid created now =
    let r = reserve_bucket m.limits sid (get m sid created) now in (put m sid r.0, r.1)

unfoldable pub commit_bucket : Bucket → ℤ → ℤ → Bucket
commit_bucket b request_tokens response_tokens = record b {
  usage = record {
    tokens_in = add64 b.usage.tokens_in request_tokens;
    tokens_out = add64 b.usage.tokens_out response_tokens;
    requests = add64 b.usage.requests (pos 1);
  };
}

unfoldable pub commit : Manager → Bytes → ℕ → ℤ → ℤ → Manager
unfolding get put commit_bucket
commit m sid created request_tokens response_tokens =
    put m sid (commit_bucket (get m sid created) request_tokens response_tokens)

unfoldable pub refund_bucket : Bucket → Bucket
refund_bucket b = if ltb 0 b.window_count then record b { window_count = b.window_count - 1 } else b

unfoldable pub refund : Manager → Bytes → ℕ → Manager
unfolding get put refund_bucket
refund m sid created = put m sid (refund_bucket (get m sid created))

-- Reading the usage of an unknown session creates its bucket too.
unfoldable pub usage : Manager → Bytes → ℕ → Manager × Usage
unfolding get put
usage m sid created = let b = get m sid created in (put m sid b, b.usage)

unfoldable pub reset : Manager → Bytes → Manager
reset m sid = record m { buckets = Map.delete sid m.buckets }
