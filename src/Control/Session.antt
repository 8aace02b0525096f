-- ===== src/Control/Session.antt =====
-- control-plane/internal/session/session.go: the readiness of a session, and the count of attached
-- terminals from which the idle reaper works. A time is a number of nanoseconds since 1970, and
-- positive, since 0 stands for no time. The functions that Attach returns are numbered in turn, and
-- `once` says which of them have run.
pub mod Idle
use microvm_terminal.Base.{
  ℕ, zero, suc, ◌+◌, ◌-◌, Bool, true, false, Option, none, some, List, [], ◌∷◌, ◌++◌, get_elem?,
  nat_eq, ltb, if◌then◌else◌,
}

pub record Session : Type 0 where
  pub created_at : ℕ
  pub ready_at : ℕ
  pub is_ready : Bool
  pub attached : ℕ
  pub last_detach : ℕ
  pub once : List Bool

unfoldable pub new_session : ℕ → Session
new_session now = record {
  created_at = now;
  ready_at = 0;
  is_ready = false;
  attached = 0;
  last_detach = 0;
  once = [];
}

-- Only the first call counts.
unfoldable pub mark_ready : Session → ℕ → Session
mark_ready s now = if s.is_ready then s else record s { ready_at = now; is_ready = true }

unfoldable pub attach : Session → Session
attach s = record s { attached = s.attached + 1; once = s.once ++ false ∷ [] }

unfoldable pub set_done : ℕ → List Bool → List Bool
set_done i [] = []
set_done zero (x ∷ xs) = true ∷ xs
set_done (suc i) (x ∷ xs) = x ∷ set_done i xs

abbrev pub detached : Session → ℕ → ℕ → Option Bool → Session
detached s i now none = s
detached s i now (some true) = s
detached s i now (some false) = record s {
  attached = s.attached - 1;
  last_detach = if nat_eq (s.attached - 1) 0 then now else s.last_detach;
  once = set_done i s.once;
}

-- The function number `i` that Attach returned.
unfoldable pub detach : Session → ℕ → ℕ → Session
detach s i now = detached s i now (get_elem? s.once i)

unfoldable pub idle_since : Session → Option ℕ
idle_since s =
    if ltb 0 s.attached
    then none
    else if ltb 0 s.last_detach
    then some s.last_detach
    else if ltb 0 s.ready_at
    then some s.ready_at
    else some s.created_at

-- The time of the handshake, if there was one.
unfoldable pub ready_time : Session → Option ℕ
ready_time s = if nat_eq s.ready_at 0 then none else some s.ready_at

-- A session without a machine is ready at once.
unfoldable pub new_in_memory_session : ℕ → Session
unfolding mark_ready
new_in_memory_session now = mark_ready (new_session now) now
