-- ===== src/Proxy/Quota/Rate.antt =====
-- The requests per minute, against a log of the admissions.
use microvm_terminal.Base.{
  ℕ, ◌+◌, ◌*◌, ◌≤◌, ◌≡◌, refl, List, [], ◌∷◌, Option, none, some, Bytes, arith, leb, ltb,
  if◌then◌else◌, ◌&&◌,
}
use microvm_terminal.Base.Int64.{ℤ, pos}
use microvm_terminal.Base.Map
use microvm_terminal.Base.Text.{bytes-eq}
use microvm_terminal.Proxy.Quota.{
  Manager, Bucket, Limits, Error, minute, get, put, reserve, reserve_bucket, commit, commit_bucket,
  fresh_bucket, bucket_or,
}

-- Requests of one session and their completions, with the readings of the clock.
pub data Call : Type 0 where
  reserves : ℕ → ℕ → Call
  commits : ℕ → ℤ → ℤ → Call

abbrev log_if_admitted : Option Error → ℕ → List ℕ → List ℕ
log_if_admitted none now log = now ∷ log
log_if_admitted (some e) now log = log

-- The manager and the times of the admissions, newest first.
unfoldable pub run : Bytes → Manager → List ℕ → List Call → Manager × List ℕ
run sid m log [] = (m, log)
run sid m log (reserves created now ∷ cs) =
    run sid (reserve m sid created now).0 (log_if_admitted (reserve m sid created now).1 now log) cs
run sid m log (commits created i o ∷ cs) = run sid (commit m sid created i o) log cs

-- The clock does not run backwards.
abbrev pub Forward : ℕ → List Call → Type 0
Forward t [] = Unit {0}
Forward t (reserves created now ∷ cs) = (t ≤ created) × (created ≤ now) × Forward now cs
Forward t (commits created i o ∷ cs) = (t ≤ created) × Forward created cs

-- The admissions in the minute that begins at `t`.
abbrev pub in_minute : ℕ → List ℕ → ℕ
in_minute t [] = 0
in_minute t (x ∷ log) = (if leb t x && ltb x (t + minute) then 1 else 0) + in_minute t log

since : ℕ → List ℕ → ℕ
since t [] = 0
since t (x ∷ log) = (if leb t x then 1 else 0) + since t log

since_mono : (s t : ℕ) (log : List ℕ) → s ≤ t → since t log ≤ since s log
unfolding since
since_mono s t [] h = omega arith
since_mono s t (x ∷ log) h = ground (arith, since_mono s t log)

in_minute-since : (t : ℕ) (log : List ℕ) → in_minute t log + since (t + minute) log ≡ since t log
unfolding since
in_minute-since t [] = omega arith
in_minute-since t (x ∷ log) = ground (arith, in_minute-since t log)

record Inv (max t : ℕ) (b : Bucket) (log : List ℕ) : Type 0 where
  started : b.window_start ≤ t
  counted : since b.window_start log ≤ b.window_count
  limited : b.window_count ≤ max
  ended : since (b.window_start + minute) log ≡ 0
  before : (u : ℕ) → b.window_start ≤ u + minute → since u log ≤ since b.window_start log + max
  each : (u : ℕ) → since u log ≤ since (u + minute) log + (max + max)

Inv-fresh : (max t : ℕ) (b : Bucket) → b.window_start ≤ t → b.window_count ≤ max → Inv max t b []
unfolding since
Inv-fresh max t b h g = record {
  started = h;
  counted = omega arith;
  limited = g;
  ended = refl;
  before = λ u k. omega arith;
  each = λ u. omega arith;
}

Inv-reserve :
    (l : Limits) (sid : Bytes) (max t : ℕ) (b : Bucket) (log : List ℕ) (now : ℕ)
    → l.max_requests_per_minute ≡ pos max
    → t ≤ now
    → Inv max t b log
    → let r = reserve_bucket l sid b now in Inv max now r.0 (log_if_admitted r.1 now log)
unfolding reserve_bucket since
Inv-reserve l sid max t b log now lim later v = record {
  started = ground arith;
  counted = ground (arith, since_mono (b.window_start + minute) now log);
  limited = ground arith;
  ended = ground (arith, since_mono (b.window_start + minute) (now + minute) log);
  before = λ u h. ground (
    arith,
    v.before u,
    since_mono b.window_start u log,
    since_mono (b.window_start + minute) now log,
  );
  each = λ u. ground (arith, v.each u, v.before u, since_mono b.window_start u log);
}

Inv-commit :
    (max t : ℕ) (b : Bucket) (log : List ℕ) (i o : ℤ)
    → Inv max t b log
    → Inv max t (commit_bucket b i o) log
unfolding commit_bucket
Inv-commit max t b log i o v = record {
  started = v.started;
  counted = v.counted;
  limited = v.limited;
  ended = v.ended;
  before = v.before;
  each = v.each;
}

-- The invariant of a session that may have no bucket yet.
abbrev Tracked : ℕ → ℕ → List ℕ → Option Bucket → Type 0
Tracked max t log none = log ≡ []
Tracked max t log (some b) = Inv max t b log

Inv-bucket_or :
    (max t created : ℕ) (log : List ℕ) (o : Option Bucket)
    → t ≤ created
    → Tracked max t log o
    → Inv max created (bucket_or created o) log
Inv-bucket_or max t created log none later e =
    rw e (Inv-fresh max created (fresh_bucket created) (omega arith) (omega arith))
Inv-bucket_or max t created log (some b) later v = record {
  started = omega arith;
  counted = v.counted;
  limited = v.limited;
  ended = v.ended;
  before = v.before;
  each = v.each;
}

each-Tracked :
    (max t : ℕ) (log : List ℕ) (o : Option Bucket)
    → Tracked max t log o
    → (u : ℕ) → since u log ≤ since (u + minute) log + (max + max)
unfolding since
each-Tracked max t log none e u = rw e (omega arith)
each-Tracked max t log (some b) v u = v.each u

lookup-put :
    (m : Manager) (sid : Bytes) (b : Bucket) → Map.lookup sid (put m sid b).buckets ≡ some b
unfolding put
lookup-put m sid b = simp (Map.lookup-insert, Map.==_self)

Tracked-reserve :
    (sid : Bytes) (max t : ℕ) (m : Manager) (log : List ℕ) (created now : ℕ)
    → m.limits.max_requests_per_minute ≡ pos max
    → t ≤ created
    → created ≤ now
    → Tracked max t log (Map.lookup sid m.buckets)
    → let r = reserve m sid created now in
      Tracked max now (log_if_admitted r.1 now log) (Map.lookup sid r.0.buckets)
unfolding reserve
Tracked-reserve sid max t m log created now lim h g v =
    rw (lookup-put m sid (reserve_bucket m.limits sid (get m sid created) now).0) (
      Inv-reserve m.limits sid max created (get m sid created) log now lim g
        (unfold get in Inv-bucket_or max t created log _ h v))

Tracked-commit :
    (sid : Bytes) (max t : ℕ) (m : Manager) (log : List ℕ) (created : ℕ) (i o : ℤ)
    → t ≤ created
    → Tracked max t log (Map.lookup sid m.buckets)
    → Tracked max created log (Map.lookup sid (commit m sid created i o).buckets)
unfolding commit
Tracked-commit sid max t m log created i o h v =
    rw (lookup-put m sid (commit_bucket (get m sid created) i o)) (
      Inv-commit max created (get m sid created) log i o
        (unfold get in Inv-bucket_or max t created log _ h v))

each-run :
    (sid : Bytes) (max : ℕ) (m : Manager) (log : List ℕ) (t : ℕ) (cs : List Call)
    → m.limits.max_requests_per_minute ≡ pos max
    → Tracked max t log (Map.lookup sid m.buckets)
    → Forward t cs
    → (u : ℕ) → since u (run sid m log cs).1 ≤ since (u + minute) (run sid m log cs).1 + (max + max)
unfolding run
each-run sid max m log t [] lim v fwd u = each-Tracked max t log (Map.lookup sid m.buckets) v u
each-run sid max m log t (reserves created now ∷ cs) lim v fwd u =
    each-run sid max (reserve m sid created now).0 _ now cs (unfold reserve in lim)
      (Tracked-reserve sid max t m log created now lim fwd.0 fwd.1 v) fwd.2 u
each-run sid max m log t (commits created i o ∷ cs) lim v fwd u =
    each-run sid max (commit m sid created i o) log created cs (unfold commit in lim)
      (Tracked-commit sid max t m log created i o fwd.0 v) fwd.1 u

-- With a limit of `max` requests per minute and a clock that does not run backwards, any sequence of
-- requests and completions of a session that starts with no bucket and has no refund admits, in
-- every span of one minute, at most twice `max` requests.
pub in_minute-run :
    (sid : Bytes) (m : Manager) (max t : ℕ) (cs : List Call) (u : ℕ)
    → m.limits.max_requests_per_minute ≡ pos max
    → Map.lookup sid m.buckets ≡ none
    → Forward t cs
    → in_minute u (run sid m [] cs).1 ≤ 2 * max
in_minute-run sid m max t cs u lim unknown fwd = omega (
  arith,
  in_minute-since u (run sid m [] cs).1,
  each-run sid max m [] t cs lim (rw unknown refl) fwd u,
)
