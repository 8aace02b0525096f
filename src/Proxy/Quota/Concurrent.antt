-- ===== src/Proxy/Quota/Concurrent.antt =====
-- The cap on the requests of a session, with several of its requests under way at once.
use microvm_terminal.Base.{ℕ, ◌+◌, ◌<◌, ◌≡◌, refl, none, some, List, [], ◌∷◌, Bytes, length, arith}
use microvm_terminal.Base.Int64.{ℤ, pos, add64_pos, int64_half}
use microvm_terminal.Proxy.Quota.{
  Bucket, Limits, Error, fresh_bucket, reserve_bucket, commit_bucket, refund_bucket,
}

-- `commit_log` logs the tokens of each commit, the last one first; the code has no such log.
pub record Session : Type 0 where
  pub bucket : Bucket
  pub in_flight : ℕ
  pub commit_log : List (ℤ × ℤ)

-- What the forward handler does with one session, of which at most `k` requests run at once: every
-- admitted reservation is followed by one commit or one refund.
pub data Step (l : Limits) (sid : Bytes) (k : ℕ) : Session → Session → Type 0 where
  admit :
      (s : Session) (now : ℕ)
      → s.in_flight < k
      → (reserve_bucket l sid s.bucket now).1 ≡ none
      → Step l sid k s
          (record s { bucket = (reserve_bucket l sid s.bucket now).0; in_flight = s.in_flight + 1 })
  refuse :
      (s : Session) (now : ℕ) (e : Error)
      → (reserve_bucket l sid s.bucket now).1 ≡ some e
      → Step l sid k s (record s { bucket = (reserve_bucket l sid s.bucket now).0 })
  finish :
      (s : Session) (n : ℕ) (i o : ℤ)
      → s.in_flight ≡ n + 1
      → Step l sid k s (record {
        bucket = commit_bucket s.bucket i o;
        in_flight = n;
        commit_log = (i, o) ∷ s.commit_log;
      })
  abort :
      (s : Session) (n : ℕ)
      → s.in_flight ≡ n + 1
      → Step l sid k s (record s { bucket = refund_bucket s.bucket; in_flight = n })

pub data Reach (l : Limits) (sid : Bytes) (k : ℕ) : Session → Type 0 where
  start :
      (now : ℕ)
      → Reach l sid k (record { bucket = fresh_bucket now; in_flight = 0; commit_log = [] })
  next : {s t : Session} → Reach l sid k s → Step l sid k s t → Reach l sid k t

-- The counter of the bucket is the number of commits, and these leave room below the cap.
abbrev pub Capped : ℕ → ℕ → Session → Type 0
Capped c k s =
    (s.bucket.usage.requests ≡ pos (length s.commit_log))
    × (length s.commit_log + s.in_flight < c + k)

Step-Capped :
    (l : Limits) (sid : Bytes) (k c : ℕ) {s t : Session}
    → l.max_requests ≡ pos c
    → c + k < int64_half
    → Step l sid k s t
    → Capped c k s
    → Capped c k t
unfolding reserve_bucket commit_bucket refund_bucket
Step-Capped l sid k c lim small (admit s now room ok) (e, h) = (ground arith, ground arith)
Step-Capped l sid k c lim small (refuse s now x ok) (e, h) = (ground arith, ground arith)
Step-Capped l sid k c lim small (finish s m i o busy) (e, h) =
    (ground (arith, add64_pos (length s.commit_log) 1), omega arith)
Step-Capped l sid k c lim small (abort s m busy) (e, h) = (ground arith, omega arith)

-- With a cap of `c` requests and at most `k` requests of the session under way at once, the requests
-- that were committed, counted by their log, and those under way are fewer than `c + k` at every
-- moment, and the counter of the bucket is the number of commits in the log: the cap is exact for a
-- client that sends one request at a time, and is passed by at most `k - 1` otherwise. This holds for
-- `k` above 0 and `c + k` below the bound of the 64-bit counter.
pub Reach-Capped :
    (l : Limits) (sid : Bytes) (k c : ℕ) {s : Session}
    → 0 < k
    → l.max_requests ≡ pos c
    → c + k < int64_half
    → Reach l sid k s
    → Capped c k s
Reach-Capped l sid k c some_room lim small (start now) = (refl, omega arith)
Reach-Capped l sid k c some_room lim small (next r st) =
    Step-Capped l sid k c lim small st (Reach-Capped l sid k c some_room lim small r)
