-- ===== src/Proxy/Quota/Sessions.antt =====
-- Operations on one session and the buckets of the others; a refund against its reservation.
use microvm_terminal.Base.{ℕ, ◌∙◌, ap, ◌≡◌, ◌≢◌, refl, none, Bytes, arith}
use microvm_terminal.Base.Int64.{ℤ}
use microvm_terminal.Base.Map
use microvm_terminal.Base.Text.{bytes-eq, bytes_eq_iff}
use microvm_terminal.Proxy.Quota.{
  Manager, Limits, Bucket, get, put, roll, reserve, reserve_bucket, commit, commit_bucket, refund,
  refund_bucket, usage, reset,
}

-- A call of the manager for one session, with what it read from the clock.
pub data Call : Type 0 where
  reserves : ℕ → ℕ → Call
  commits : ℕ → ℤ → ℤ → Call
  refunds : ℕ → Call
  reads_usage : ℕ → Call
  resets : Call

unfoldable pub after : Manager → Bytes → Call → Manager
unfolding reserve commit refund usage reset
after m sid (reserves created now) = (reserve m sid created now).0
after m sid (commits created i o) = commit m sid created i o
after m sid (refunds created) = refund m sid created
after m sid (reads_usage created) = (usage m sid created).0
after m sid resets = reset m sid

-- A call for one session leaves the limits, and the bucket of every other session, as they were.
pub after-isolated :
    (m : Manager) (sid other : Bytes) (c : Call)
    → sid ≢ other
    → ((after m sid c).limits ≡ m.limits)
      × (Map.lookup other (after m sid c).buckets ≡ Map.lookup other m.buckets)
unfolding after
after-isolated m sid other (reserves created now) ne = (
  refl,
  ground (
    arith,
    bytes_eq_iff sid other,
    Map.lookup-insert sid other (reserve_bucket m.limits sid (get m sid created) now).0 m.buckets,
  ),
)
after-isolated m sid other (commits created i o) ne = (
  refl,
  ground (
    arith,
    bytes_eq_iff sid other,
    Map.lookup-insert sid other (commit_bucket (get m sid created) i o) m.buckets,
  ),
)
after-isolated m sid other (refunds created) ne = (
  refl,
  ground (
    arith,
    bytes_eq_iff sid other,
    Map.lookup-insert sid other (refund_bucket (get m sid created)) m.buckets,
  ),
)
after-isolated m sid other (reads_usage created) ne = (
  refl,
  ground (arith, bytes_eq_iff sid other, Map.lookup-insert sid other (get m sid created) m.buckets),
)
after-isolated m sid other resets ne =
    (refl, ground (arith, bytes_eq_iff sid other, Map.lookup-delete sid other m.buckets))

get-put : (m : Manager) (sid : Bytes) (b : Bucket) (now : ℕ) → get (put m sid b) sid now ≡ b
unfolding get put
get-put m sid b now = simp (Map.lookup-insert, Map.==_self)

refund_bucket-reserve_bucket :
    (l : Limits) (sid : Bytes) (b : Bucket) (now : ℕ)
    → (reserve_bucket l sid b now).1 ≡ none
    → refund_bucket (reserve_bucket l sid b now).0 ≡ roll b now
unfolding reserve_bucket refund_bucket
refund_bucket-reserve_bucket l sid b now admitted = ground arith

pub get-reserve :
    (m : Manager) (sid : Bytes) (created now later : ℕ)
    → get (reserve m sid created now).0 sid later
      ≡ (reserve_bucket m.limits sid (get m sid created) now).0
get-reserve m sid created now later = unfold reserve in get-put m sid _ later

get-refund :
    (m : Manager) (sid : Bytes) (later : ℕ)
    → get (refund m sid later) sid later ≡ refund_bucket (get m sid later)
get-refund m sid later = unfold refund in get-put m sid _ later

-- A reservation that is admitted and then refunded leaves the bucket of its session as the reset of
-- the window alone leaves it: the slot of the minute and the usage are given back in full.
pub refund-reserve :
    (m : Manager) (sid : Bytes) (created now later : ℕ)
    → (reserve m sid created now).1 ≡ none
    → get (refund (reserve m sid created now).0 sid later) sid later ≡ roll (get m sid created) now
refund-reserve m sid created now later admitted =
    get-refund (reserve m sid created now).0 sid later
    ∙ ap refund_bucket (get-reserve m sid created now later)
    ∙ refund_bucket-reserve_bucket m.limits sid (get m sid created) now (unfold reserve in admitted)

-- The usage of a session with no bucket is nothing, at any time.
usage-get : (m : Manager) (sid : Bytes) (t u : ℕ) → (get m sid t).usage ≡ (get m sid u).usage
unfolding get
usage-get m sid t u = ground arith

usage-put :
    (m : Manager) (sid other : Bytes) (b : Bucket) (t u : ℕ)
    → b.usage ≡ (get m sid u).usage
    → (get (put m sid b) other t).usage ≡ (get m other t).usage
unfolding get put
usage-put m sid other b t u e =
    ground (arith, bytes_eq_iff sid other, Map.lookup-insert sid other b m.buckets)

usage-reserve_bucket :
    (l : Limits) (sid : Bytes) (b : Bucket) (now : ℕ)
    → (reserve_bucket l sid b now).0.usage ≡ b.usage
unfolding reserve_bucket
usage-reserve_bucket l sid b now = ground arith

usage-refund_bucket : (b : Bucket) → (refund_bucket b).usage ≡ b.usage
unfolding refund_bucket
usage-refund_bucket b = ground arith

-- Neither a reservation nor a refund changes the usage of any session.
pub usage-reserve :
    (m : Manager) (sid other : Bytes) (created now t : ℕ)
    → (get (reserve m sid created now).0 other t).usage ≡ (get m other t).usage
unfolding reserve
usage-reserve m sid other created now t =
    usage-put m sid other _ t created (usage-reserve_bucket m.limits sid (get m sid created) now)

pub usage-refund :
    (m : Manager) (sid other : Bytes) (created t : ℕ)
    → (get (refund m sid created) other t).usage ≡ (get m other t).usage
unfolding refund
usage-refund m sid other created t =
    usage-put m sid other _ t created (usage-refund_bucket (get m sid created))
