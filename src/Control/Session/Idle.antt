-- ===== src/Control/Session/Idle.antt =====
-- When a session counts as idle, over any calls.
use microvm_terminal.Base.{
  ℕ, zero, suc, ◌≡◌, ◌<◌, ◌↔◌, refl, Bool, true, false, Option, none, some, List, [], ◌∷◌, ◌++◌,
  get_elem?, arith,
}
use microvm_terminal.Control.Session.{
  Session, new_session, mark_ready, attach, set_done, detached, detach, idle_since,
}

pub data Call : Type 0 where
  marks : ℕ → Call
  attaches : Call
  detaches : (i now : ℕ) → Call

unfoldable pub run : Session → List Call → Session
run s [] = s
run s (marks now ∷ cs) = run (mark_ready s now) cs
run s (attaches ∷ cs) = run (attach s) cs
run s (detaches i now ∷ cs) = run (detach s i now) cs

-- The terminals that have not detached.
abbrev pub still_open : List Bool → ℕ
still_open [] = 0
still_open (true ∷ xs) = still_open xs
still_open (false ∷ xs) = suc (still_open xs)

still_open-append : (xs : List Bool) → still_open (xs ++ false ∷ []) ≡ suc (still_open xs)
still_open-append [] = refl
still_open-append (true ∷ xs) = still_open-append xs
still_open-append (false ∷ xs) = ground (arith, still_open-append xs)

still_open-set_done :
    (i : ℕ) (xs : List Bool)
    → get_elem? xs i ≡ some false
    → suc (still_open (set_done i xs)) ≡ still_open xs
unfolding set_done
still_open-set_done i [] h = absurd (ground (arith, h))
still_open-set_done zero (true ∷ xs) h = absurd (ground (arith, h))
still_open-set_done zero (false ∷ xs) h = refl
still_open-set_done (suc i) (true ∷ xs) h = still_open-set_done i xs h
still_open-set_done (suc i) (false ∷ xs) h = ground (arith, still_open-set_done i xs h)

detached-Counts :
    (s : Session) (i now : ℕ) (o : Option Bool)
    → get_elem? s.once i ≡ o
    → s.attached ≡ still_open s.once
    → (detached s i now o).attached ≡ still_open (detached s i now o).once
detached-Counts s i now none eq h = h
detached-Counts s i now (some true) eq h = h
detached-Counts s i now (some false) eq h = omega (arith, h, still_open-set_done i s.once eq)

run-Counts :
    (s : Session) (cs : List Call)
    → s.attached ≡ still_open s.once
    → (run s cs).attached ≡ still_open (run s cs).once
unfolding run mark_ready attach detach
run-Counts s [] h = h
run-Counts s (marks now ∷ cs) h = run-Counts (mark_ready s now) cs (ground arith)
run-Counts s (attaches ∷ cs) h = run-Counts (attach s) cs (ground (arith, still_open-append s.once))
run-Counts s (detaches i now ∷ cs) h =
    run-Counts (detach s i now) cs (detached-Counts s i now (get_elem? s.once i) refl h)

-- Over any calls, in which a terminal may detach any number of times: the count of attached terminals
-- is the number of those that have not detached, and the session is idle exactly when there is none.
pub run-idle_since :
    (created : ℕ) (cs : List Call)
    → let s = run (new_session created) cs in
      (s.attached ≡ still_open s.once) × ((idle_since s ≡ none) ↔ (0 < still_open s.once))
unfolding idle_since new_session
run-idle_since created cs =
    let counts = run-Counts (new_session created) cs refl in (counts, ground (arith, counts))
