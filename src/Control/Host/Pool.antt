-- ===== src/Control/Host/Pool.antt =====
-- control-plane/internal/session/warmpool.go: the pool over time. The channel of pokes holds twice the
-- target; a caller that has taken a machine pokes after it has left the lock, the loop takes a poke
-- and starts a build, and a build ends with its machine in the pool, or without one.
pub mod Heals
use microvm_terminal.Base.{
  ℕ, zero, suc, ◌+◌, ◌*◌, ◌≡◌, Bool, true, false, Option, none, some, List, [], ◌∷◌, ◌++◌, length,
  ltb, if◌then◌else◌,
}
use microvm_terminal.Control.Host.{Session, WarmPool, acquire_warm, build_one, wants_more}

-- `poking` are the callers that have yet to poke, `failed` the builds without a machine.
pub record Live : Type 0 where
  pub pool : WarmPool
  pub pokes : ℕ
  pub poking : ℕ
  pub building : ℕ
  pub failed : ℕ

unfoldable pub poke : WarmPool → ℕ → ℕ
poke p pokes = if ltb pokes (p.target * 2) then pokes + 1 else pokes

-- The pokes of Start, before the loop has taken one.
unfoldable pub seeded : WarmPool → ℕ → ℕ
seeded p zero = 0
seeded p (suc n) = poke p (seeded p n)

unfoldable pub new_warm_pool : ℕ → WarmPool
new_warm_pool target = record { target = if ltb 0 target then target else 2; ready = [] }

unfoldable pub start : WarmPool → Live
start p = record { pool = p; pokes = seeded p p.target; poking = 0; building = 0; failed = 0 }

-- The loop, with a poke taken.
unfoldable pub loop_turn : Live → ℕ → Live
loop_turn s pokes = record s {
  pokes = pokes;
  building = if wants_more s.pool then s.building + 1 else s.building;
}

-- What the pool does by itself.
pub data Turn (s : Live) : Live → Type 0 where
  pokes_loop :
      (n : ℕ) → s.poking ≡ suc n → Turn s (record s { pokes = poke s.pool s.pokes; poking = n })
  takes : (n : ℕ) → s.pokes ≡ suc n → Turn s (loop_turn s n)
  built :
      (n : ℕ) (launched : Session)
      → s.building ≡ suc n
      → Turn s (record s { pool = build_one s.pool (some launched); building = n })
  fails :
      (n : ℕ)
      → s.building ≡ suc n
      → Turn s (record s { pool = build_one s.pool none; building = n; failed = s.failed + 1 })

pub data Step (s : Live) : Live → Type 0 where
  acquires : Step s (record s { pool = (acquire_warm s.pool).0; poking = s.poking + 1 })
  by_itself : {t : Live} → Turn s t → Step s t

unfoldable pub most : ℕ → ℕ → ℕ
most a b = if ltb a b then b else a

-- The moments of the pool, each with the most builds that were under way at once until then.
pub data Reach (p : WarmPool) : ℕ → Live → Type 0 where
  begin : Reach p 0 (start p)
  and_then : {peak : ℕ} {s t : Live} → Reach p peak s → Step s t → Reach p (most peak t.building) t

-- A number of turns with no caller between them.
pub data Run : ℕ → Live → Live → Type 0 where
  done : {s : Live} → Run 0 s s
  turn : {n : ℕ} {s t u : Live} → Turn s t → Run n t u → Run (suc n) s u
