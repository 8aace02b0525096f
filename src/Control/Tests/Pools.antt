-- ===== src/Control/Tests/Pools.antt =====
-- Runs of the warm pool.
use microvm_terminal.Base.{◌+◌, ◌-◌, ◌≡◌, ◌≤◌, ◌⊎◌, refl, some, length}
use microvm_terminal.Control.Host.{build_one, wants_more}
use microvm_terminal.Control.Host.Pool.{
  Live, new_warm_pool, start, seeded, poke, loop_turn, Turn, takes, built, Reach, begin, and_then,
  by_itself, most, Run, done, turn,
}
use microvm_terminal.Control.Host.Pool.Heals.{work, Run-work, Reach-heals}
use microvm_terminal.Control.Tests.Hosts.{one}

-- A pool of one machine, from its start until the machine is ready.
abbrev fresh : Live
fresh = record { pool = new_warm_pool 1; pokes = 1; poking = 0; building = 0; failed = 0 }

abbrev builds : Live
builds = loop_turn fresh 0

abbrev warm : Live
warm = record {
  pool = build_one (new_warm_pool 1) (some one);
  pokes = 0;
  poking = 0;
  building = 0;
  failed = 0;
}

to_warm : Run 2 fresh warm
unfolding loop_turn wants_more new_warm_pool build_one
to_warm = turn (takes 0 refl) (turn (built 0 one refl) done)

Run-work_example : (2 + work warm ≤ work fresh) × ((work warm ≡ 0) ⊎ (u : Live) × Turn warm u)
Run-work_example = Run-work to_warm

reached : Reach (new_warm_pool 1) 1 warm
unfolding loop_turn wants_more new_warm_pool build_one start seeded poke most
reached = and_then (and_then begin (by_itself (takes 0 refl))) (by_itself (built 0 one refl))

Reach-heals_example :
    ((new_warm_pool 1).target ≤ length warm.pool.ready + warm.failed)
    × (length warm.pool.ready ≤ (new_warm_pool 1).target + (1 - 1))
unfolding work
Reach-heals_example = Reach-heals 1 reached refl
