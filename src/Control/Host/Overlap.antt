-- ===== src/Control/Host/Overlap.antt =====
-- The capacity when calls of Create overlap, and when a warm machine is asked for.
use microvm_terminal.Base.{
  ℕ, ◌+◌, ◌-◌, ◌≡◌, ◌≢◌, ◌≤◌, ◌<◌, Bool, true, false, Option, none, some, List, ◌∷◌, Bytes, length,
  arith,
}
use microvm_terminal.Base.Map
use microvm_terminal.Base.Map.{length-insert-le, length-delete-le, length-insert_new, lookup-insert}
use microvm_terminal.Base.Result.{Result, err}
use microvm_terminal.Base.Text.{bytes-eq, bytes_eq_iff}
use microvm_terminal.Control.Host.{
  Session, WarmPool, Host, Error, at_capacity, acquire_warm, full, land, create_warm, removed,
  destroy, unless_replaced, watch_fires,
}

-- The host, and the number of Creates that have passed the test and not ended.
pub record Now : Type 0 where
  pub host : Host
  pub under_way : ℕ

-- One step of a host on which at most `k` Creates overlap.
pub data Step (k : ℕ) (s : Now) : Now → Type 0 where
  passes :
      full s.host ≡ false → s.under_way < k → Step k s (record s { under_way = s.under_way + 1 })
  lands :
      (new : Session)
      → 0 < s.under_way
      → Step k s (record { host = land s.host new; under_way = s.under_way - 1 })
  fails : 0 < s.under_way → Step k s (record s { under_way = s.under_way - 1 })
  destroys :
      (id : Bytes) (torn_down : Bool)
      → Step k s (record s { host = (destroy s.host id torn_down).0 })
  exits : (old : Session) → Step k s (record s { host = watch_fires s.host old })

pub data Reach (k : ℕ) (h : Host) : Now → Type 0 where
  start : Reach k h (record { host = h; under_way = 0 })
  and_next : {s t : Now} → Reach k h s → Step k s t → Reach k h t

-- So many sessions, counting those to come.
abbrev pub Bounded : ℕ → ℕ → Now → Type 0
Bounded limit k s =
    (s.host.max_live ≡ limit)
    × (length s.host.sessions + s.under_way < limit + k)
    × (s.under_way ≤ k)

removed-length :
    (h : Host) (id : Bytes) (torn_down : Bool) (o : Option Session)
    → (length (removed h id torn_down o).0.sessions ≤ length h.sessions)
      × ((removed h id torn_down o).0.max_live ≡ h.max_live)
removed-length h id torn_down none = ground arith
removed-length h id torn_down (some s) = ground (arith, length-delete-le id h.sessions)

unless_replaced-length :
    (h : Host) (s : Session) (o : Option Session)
    → (length (unless_replaced h s o).sessions ≤ length h.sessions)
      × ((unless_replaced h s o).max_live ≡ h.max_live)
unless_replaced-length h s none = ground arith
unless_replaced-length h s (some cur) = ground (arith, length-delete-le s.id h.sessions)

Step-Bounded :
    (limit k : ℕ) {s t : Now} → 0 < limit → Bounded limit k s → Step k s t → Bounded limit k t
unfolding full land destroy watch_fires
Step-Bounded limit k {s} pos b (passes room few) = ground (arith, b)
Step-Bounded limit k {s} pos b (lands new some_way) =
    ground (arith, b, length-insert-le new.id new s.host.sessions)
Step-Bounded limit k {s} pos b (fails some_way) = ground (arith, b)
Step-Bounded limit k {s} pos b (destroys id torn_down) =
    ground (arith, b, removed-length s.host id torn_down (Map.lookup id s.host.sessions))
Step-Bounded limit k {s} pos b (exits old) =
    ground (arith, b, unless_replaced-length s.host old (Map.lookup old.id s.host.sessions))

-- With at most `k` Creates under way at once, a host that starts empty has at most `k - 1` sessions
-- more than its capacity: the capacity is exact when no two Creates overlap.
pub Reach-Bounded :
    (limit k : ℕ) (h : Host) {s : Now}
    → 0 < limit
    → 0 < k
    → h.max_live ≡ limit
    → length h.sessions ≡ 0
    → Reach k h s
    → Bounded limit k s
Reach-Bounded limit k h pos some_k max empty start = ground arith
Reach-Bounded limit k h pos some_k max empty (and_next r step) =
    Step-Bounded limit k pos (Reach-Bounded limit k h pos some_k max empty r) step

full_below : (h : Host) → length h.sessions < h.max_live → full h ≡ false
unfolding full
full_below h below = ground arith

-- Two Creates that overlap pass the test before either of them lands: a host with one place left ends
-- with one session more than its capacity.
overlap_exceeds :
    (h : Host) (a b : Session)
    → length h.sessions + 1 ≡ h.max_live
    → Map.lookup a.id h.sessions ≡ none
    → Map.lookup b.id h.sessions ≡ none
    → a.id ≢ b.id
    → (s : Now) × Reach 2 h s × (length s.host.sessions ≡ h.max_live + 1)
unfolding land
overlap_exceeds h a b one_left new_a new_b differ =
    let room : full h ≡ false = full_below h (omega (arith, one_left)) in
    let r0 : Reach 2 h (record { host = h; under_way = 0 }) = start in
    let r1 = and_next r0 (passes room (omega arith)) in
    let r2 = and_next r1 (passes room (omega arith)) in
    let r3 = and_next r2 (lands a (omega arith)) in
    let r4 = and_next r3 (lands b (omega arith)) in
    let first = length-insert_new a.id a h.sessions new_a in
    let new_b' : Map.lookup b.id (Map.insert a.id a h.sessions) ≡ none =
      ground (arith, lookup-insert a.id b.id a h.sessions, bytes_eq_iff a.id b.id) in
    let second = length-insert_new b.id b (Map.insert a.id a h.sessions) new_b' in
    (_, r4, omega (arith, first, second, one_left))

-- At capacity, asking for a warm machine fails and takes the first one out of the pool, and neither
-- the pool nor the live sessions have it afterwards.
create_warm_loses :
    (h : Host) (p : WarmPool) (s : Session) (rest : List Session) (fresh : Bytes)
    (launch : Result Error Session)
    → h.pool ≡ some p
    → p.ready ≡ s ∷ rest
    → full h ≡ true
    → ((create_warm h fresh launch).1 ≡ err at_capacity)
      × ((create_warm h fresh launch).0.pool ≡ some (record p { ready = rest }))
      × ((create_warm h fresh launch).0.sessions ≡ h.sessions)
      × ((create_warm h fresh launch).0.gone ≡ h.gone)
unfolding create_warm acquire_warm
create_warm_loses h p s rest fresh launch pool ready no_room = ground (arith, pool, ready, no_room)
