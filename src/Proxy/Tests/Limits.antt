-- ===== src/Proxy/Tests/Limits.antt =====
-- proxy/internal/quota at concrete inputs.
use microvm_terminal.Base.{
  ℕ, ◌+◌, ◌*◌, ◌≤◌, ◌≡◌, refl, some, List, [], ◌∷◌, Bytes, bytes, bytes_eq, arith,
}
use microvm_terminal.Base.Int64.{pos, add64}
use microvm_terminal.Base.Map
use microvm_terminal.Base.Text.{bytes-eq}
use microvm_terminal.Proxy.Quota
use microvm_terminal.Proxy.Quota.{
  Bucket, Manager, Limits, Error, second, minute, new, get, reserve, reserve_bucket, refund, roll,
  fresh_bucket, rate_limit_per_minute,
}
use microvm_terminal.Proxy.Quota.Rate
use microvm_terminal.Proxy.Quota.Rate.{run, in_minute, in_minute-run}
use microvm_terminal.Proxy.Quota.Concurrent
use microvm_terminal.Proxy.Quota.Concurrent.{Capped, Reach, start, next, admit, Reach-Capped}

abbrev pub small : Limits
small = record {
  max_tokens_in = pos 100;
  max_tokens_out = pos 100;
  max_requests = pos 10;
  max_requests_per_minute = pos 2;
}

abbrev pub alice : Bytes
alice = bytes "sess_a"

-- Two requests of alice in the minute that began at 0.
abbrev full : Bucket
full = record {
  usage = record { tokens_in = pos 3; tokens_out = pos 4; requests = pos 2 };
  window_start = 0;
  window_count = 2;
}

abbrev busy : Manager
busy = record { limits = small; buckets = (alice, full) ∷ [] }

abbrev refusal_at : ℕ → Error
refusal_at t = record { code = rate_limit_per_minute; retry_after = t; session_id = alice }

fresh_limits : (new (record small { max_tokens_in = pos 0 })).limits ≡ Quota.default_limits
unfolding new
fresh_limits = refl

third_refused : (reserve busy alice 1 (20 * second)).1 ≡ some (refusal_at (40 * second))
unfolding reserve Map.lookup Map.insert bytes_eq
third_refused = refl

half_second_refused :
    (reserve busy alice 1 (10 * second + 500_000_000)).1
    ≡ some (refusal_at (49 * second + 500_000_000))
unfolding reserve Map.lookup Map.insert bytes_eq
half_second_refused = refl

abbrev history : List Rate.Call
history =
    Rate.reserves 1 2
    ∷ Rate.commits 3 (pos 7) (pos 8)
    ∷ Rate.reserves 4 5
    ∷ Rate.reserves 6 7
    ∷ Rate.reserves 8 (2 * minute)
    ∷ []

history_admits : (run alice (new small) [] history).1 ≡ 2 * minute ∷ 5 ∷ 2 ∷ []
unfolding run new reserve Quota.commit Map.lookup Map.insert bytes_eq add64
history_admits = refl

in_minute-run_example : in_minute 2 (run alice (new small) [] history).1 ≤ 2 * 2
in_minute-run_example =
    in_minute-run alice (new small) 2 0 history 2 (unfold new in refl)
      (unfold new Map.lookup in refl) (omega arith)

abbrev one_under_way : Concurrent.Session
one_under_way = record {
  bucket = (reserve_bucket small alice (fresh_bucket 3) 4).0;
  in_flight = 0 + 1;
  commit_log = [];
}

one_under_way_reached : Reach small alice 2 one_under_way
unfolding reserve_bucket
one_under_way_reached = next (start 3) (admit _ 4 (omega arith) refl)

Reach-Capped_example : Capped 10 2 one_under_way
Reach-Capped_example =
    Reach-Capped small alice 2 10 (omega arith) refl (omega arith) one_under_way_reached
