-- ===== src/Control/Tests/Terminals.antt =====
-- Runs of a session's terminals.
use microvm_terminal.Base.{◌≡◌, ◌<◌, ◌↔◌, refl, none, some, [], ◌∷◌}
use microvm_terminal.Control.Session.{new_session, mark_ready, attach, set_done, detach, idle_since}
use microvm_terminal.Control.Session.Idle.{marks, attaches, detaches, run, run-idle_since}

-- Two terminals; the first detaches twice, and the second once.
idle_at_9 :
    idle_since (
      run
        (new_session 1)
        (marks 2 ∷ attaches ∷ attaches ∷ detaches 0 5 ∷ detaches 0 6 ∷ detaches 1 9 ∷ []))
    ≡ some 9
unfolding run new_session mark_ready attach detach set_done idle_since
idle_at_9 = refl

not_idle :
    idle_since (run (new_session 1) (attaches ∷ attaches ∷ detaches 0 5 ∷ detaches 0 6 ∷ [])) ≡ none
unfolding run new_session mark_ready attach detach set_done idle_since
not_idle = refl

run-idle_since_example :
    ((run (new_session 1) (attaches ∷ attaches ∷ detaches 0 5 ∷ detaches 0 6 ∷ [])).attached ≡ 1)
    × ((idle_since (run (new_session 1) (attaches ∷ attaches ∷ detaches 0 5 ∷ detaches 0 6 ∷ []))
          ≡ none)
        ↔ (0 < 1))
unfolding run new_session attach detach set_done
run-idle_since_example = run-idle_since 1 (attaches ∷ attaches ∷ detaches 0 5 ∷ detaches 0 6 ∷ [])
