-- ===== src/Control/Host/Reaper.antt =====
-- The idle reaper: which sessions it ends.
use microvm_terminal.Base.{
  ℕ, ◌≡◌, refl, Bool, false, ◌&&◌, ◌||◌, Option, none, some, List, [], ◌∷◌, Bytes, bytes_eq,
  if◌then◌else◌, arith, inl, inr, Bool-cases,
}
use microvm_terminal.Base.Map
use microvm_terminal.Base.Map.{GoMap, lookup-delete}
use microvm_terminal.Base.Text.{bytes-eq, bytes_eq_iff}
use microvm_terminal.Control.Session.{idle_since}
use microvm_terminal.Control.Host.{Session, Host, destroy, stale, reap_each}

-- Each session is filed once, under its own id.
abbrev pub Filed : GoMap Bytes Session → Type 0
Filed [] = Unit
Filed ((id, s) ∷ rest) = (s.id ≡ id) × (Map.lookup id rest ≡ none) × Filed rest

abbrev pub due : ℕ → ℕ → Session → Bool
due now timeout s = stale now timeout (idle_since s.terminal)

-- A session of the list with this id is due.
abbrev pub due_in : ℕ → ℕ → Bytes → List Session → Bool
due_in now timeout id [] = false
due_in now timeout id (s ∷ ss) = (due now timeout s && bytes_eq s.id id) || due_in now timeout id ss

-- What is left of an entry.
abbrev pub unless_due : ℕ → ℕ → Option Session → Option Session
unless_due now timeout none = none
unless_due now timeout (some s) = if due now timeout s then none else some s

pub destroy-lookup :
    (h : Host) (id other : Bytes) (torn : Bool)
    → Map.lookup other (destroy h id torn).0.sessions
      ≡ (if bytes_eq id other then none else Map.lookup other h.sessions)
unfolding destroy
destroy-lookup h id other torn =
    ground (arith, bytes_eq_iff id other, lookup-delete id other h.sessions)

pub reap_each-lookup :
    (now timeout : ℕ) (torn_down : Bytes → Bool) (h : Host) (ss : List Session) (id : Bytes)
    → Map.lookup id (reap_each now timeout torn_down h ss).0.sessions
      ≡ (if due_in now timeout id ss then none else Map.lookup id h.sessions)
unfolding reap_each
reap_each-lookup now timeout torn_down h [] id = refl
reap_each-lookup now timeout torn_down h (s ∷ ss) id = elim (Bool-cases (due now timeout s)) [
  | inl yes_due ↦ ground (
    arith,
    yes_due,
    reap_each-lookup now timeout torn_down (destroy h s.id (torn_down s.id)).0 ss id,
    destroy-lookup h s.id id (torn_down s.id),
  )
  | inr not_due ↦ ground (arith, not_due, reap_each-lookup now timeout torn_down h ss id)
]
