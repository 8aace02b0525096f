-- ===== src/Control/Api/Current.antt =====
-- GET /sessions/current: which session is shown.
use microvm_terminal.Base.{
  ◌≡◌, ◌≢◌, ◌≤◌, refl, ◌⊎◌, inl, inr, Option, none, some, List, [], ◌∷◌, Bytes, bytes_eq, ltb,
  arith, Bool-cases,
}
use microvm_terminal.Base.Lists.{All, IsIn}
use microvm_terminal.Base.Text.{bytes_eq_iff}
use microvm_terminal.Control.Host
use microvm_terminal.Control.Host.{Session}
use microvm_terminal.Control.Wire.{Server}
use microvm_terminal.Control.Api.{newest, current_reply, current}

abbrev pub NotAfter : Bytes → Session → Session → Type 0
NotAfter owner best s = s.owner ≡ owner → s.terminal.created_at ≤ best.terminal.created_at

-- The newest session of an owner in a list, if the owner has one there.
abbrev pub IsNewest : Bytes → List Session → Option Session → Type 0
IsNewest owner ss none = All (λ s. s.owner ≢ owner) ss
IsNewest owner ss (some best) = IsIn best ss × (best.owner ≡ owner) × All (NotAfter owner best) ss

-- The same, with one session found before the list.
abbrev Later : Bytes → Session → List Session → Option Session → Type 0
Later owner start ss none = ⊥
Later owner start ss (some best) =
    ((best ≡ start) ⊎ IsIn best ss)
    × (best.owner ≡ owner)
    × (start.terminal.created_at ≤ best.terminal.created_at)
    × All (NotAfter owner best) ss

Later-cons :
    (owner : Bytes) (start x : Session) (ss : List Session) (o : Option Session)
    → Later owner x ss o
    → start.terminal.created_at ≤ x.terminal.created_at
    → Later owner start (x ∷ ss) o
Later-cons owner start x ss none later le = later
Later-cons owner start x ss (some best) (place, own, after, rest) le =
    (inr place, own, omega (arith, after, le), ((λ e. after), rest))

Later-skip :
    (owner : Bytes) (start x : Session) (ss : List Session) (o : Option Session)
    → (x.owner ≡ owner → x.terminal.created_at ≤ start.terminal.created_at)
    → Later owner start ss o
    → Later owner start (x ∷ ss) o
Later-skip owner start x ss none older later = later
Later-skip owner start x ss (some best) older (inl e, own, after, rest) =
    (inl e, own, after, ((λ o. omega (arith, older o, after)), rest))
Later-skip owner start x ss (some best) older (inr e, own, after, rest) =
    (inr (inr e), own, after, ((λ o. omega (arith, older o, after)), rest))

newest-Later :
    (owner : Bytes) (ss : List Session) (start : Session)
    → start.owner ≡ owner
    → Later owner start ss (newest owner ss (some start))
unfolding newest
newest-Later owner [] start own = (inl refl, own, omega arith, tt)
newest-Later owner (x ∷ ss) start own = elim (Bool-cases (bytes_eq x.owner owner)) [
  | inl same ↦
      let o = (bytes_eq_iff x.owner owner).0 same in
      elim (Bool-cases (ltb start.terminal.created_at x.terminal.created_at)) [
        | inl later ↦
            rw (same, later)
              (Later-cons owner start x ss (newest owner ss (some x)) (newest-Later owner ss x o)
                (ground (arith, later)))
        | inr older ↦
            rw (same, older)
              (Later-skip owner start x ss (newest owner ss (some start))
                (λ e. ground (arith, older)) (newest-Later owner ss start own))
      ]
  | inr differs ↦ rw differs (
      Later-skip owner start x ss (newest owner ss (some start))
        (λ e. absurd (ground (arith, differs, e, bytes_eq_iff x.owner owner)))
        (newest-Later owner ss start own))
]

Later-IsNewest :
    (owner : Bytes) (x : Session) (ss : List Session) (o : Option Session)
    → Later owner x ss o
    → IsNewest owner (x ∷ ss) o
Later-IsNewest owner x ss none later = absurd later
Later-IsNewest owner x ss (some best) (place, own, after, rest) = (place, own, ((λ o. after), rest))

skip-IsNewest :
    (owner : Bytes) (x : Session) (ss : List Session) (o : Option Session)
    → x.owner ≢ owner
    → IsNewest owner ss o
    → IsNewest owner (x ∷ ss) o
skip-IsNewest owner x ss none ne h = (ne, h)
skip-IsNewest owner x ss (some best) ne (place, own, rest) =
    (inr place, own, ((λ e. absurd (ne e)), rest))

newest-IsNewest : (owner : Bytes) (ss : List Session) → IsNewest owner ss (newest owner ss none)
unfolding newest
newest-IsNewest owner [] = tt
newest-IsNewest owner (x ∷ ss) = elim (Bool-cases (bytes_eq x.owner owner)) [
  | inl same ↦ rw same (
      Later-IsNewest owner x ss (newest owner ss (some x))
        (newest-Later owner ss x ((bytes_eq_iff x.owner owner).0 same)))
  | inr differs ↦ rw differs (
      skip-IsNewest owner x ss (newest owner ss none)
        (λ e. ground (arith, differs, e, bytes_eq_iff x.owner owner)) (newest-IsNewest owner ss))
]

-- The reply shows a live session of the caller that no live session of the caller is newer than, and
-- says that there is none exactly when the caller has none.
current_lem :
    (sv : Server) (owner : Bytes)
    → (o : Option Session) × (current sv owner ≡ current_reply o)
      × IsNewest owner (Host.list sv.host) o
unfolding current
current_lem sv owner =
    (newest owner (Host.list sv.host) none, refl, newest-IsNewest owner (Host.list sv.host))
