-- ===== src/Control/Host/Pool/Heals.antt =====
-- How many machines the pool holds when it settles; and that a burst of callers that find it empty
-- makes it grow past what it aims at.
use microvm_terminal.Base.{
  ℕ, zero, suc, ◌+◌, ◌-◌, ◌*◌, ◌≡◌, ◌≤◌, ◌<◌, ◌⊎◌, inl, inr, refl, subst, ◌∙◌, List, [], ◌∷◌, ◌++◌,
  length, ltb, if◌then◌else◌, arith,
}
use microvm_terminal.Control.Host.{Session, WarmPool, acquire_warm, build_one, wants_more}
use microvm_terminal.Control.Host.Pool.{
  Live, poke, seeded, new_warm_pool, start, loop_turn, Turn, pokes_loop, takes, built, fails, Step,
  acquires, by_itself, most, Reach, begin, and_then, Run, done, turn,
}

-- The machines that are ready, on their way or given up.
abbrev Covered : ℕ → Live → Type 0
Covered target s =
    (s.pool.target ≡ target)
    × (target ≤ s.pokes + s.poking + s.building + length s.pool.ready + s.failed)

length-snoc : (xs : List Session) (x : Session) → length (xs ++ x ∷ []) ≡ length xs + 1
length-snoc [] x = refl
length-snoc (y ∷ xs) x = ground (arith, length-snoc xs x)

seeded-target : (p : WarmPool) (n : ℕ) → n ≤ p.target → seeded p n ≡ n
unfolding seeded poke
seeded-target p zero h = refl
seeded-target p (suc n) h = ground (arith, h, seeded-target p n)

Turn-Covered : (target : ℕ) {s t : Live} → Covered target s → Turn s t → Covered target t
unfolding poke loop_turn build_one wants_more
Turn-Covered target {s} (aim, h) (pokes_loop n e) = (aim, ground (arith, aim, h, e))
Turn-Covered target {s} (aim, h) (takes n e) = (aim, ground (arith, aim, h, e))
Turn-Covered target {s} (aim, h) (built n x e) =
    (aim, ground (arith, aim, h, e, length-snoc s.pool.ready x))
Turn-Covered target {s} (aim, h) (fails n e) = (aim, ground (arith, aim, h, e))

acquire_parts :
    (target : ℕ) (ready : List Session)
    → let p : WarmPool = record { target = target; ready = ready } in
      ((acquire_warm p).0.target ≡ target) × (length ready ≤ length (acquire_warm p).0.ready + 1)
unfolding acquire_warm
acquire_parts target [] = (refl, omega arith)
acquire_parts target (x ∷ ready) = (refl, omega arith)

acquire-Covered :
    (p : WarmPool)
    → ((acquire_warm p).0.target ≡ p.target)
      × (length p.ready ≤ length (acquire_warm p).0.ready + 1)
acquire-Covered p = acquire_parts p.target p.ready

Step-Covered : (target : ℕ) {s t : Live} → Covered target s → Step s t → Covered target t
Step-Covered target {s} (aim, h) acquires =
    let (same, fewer) = acquire-Covered s.pool in (same ∙ aim, omega (arith, h, fewer))
Step-Covered target c (by_itself t) = Turn-Covered target c t

Reach-Covered : (p : WarmPool) {n : ℕ} {s : Live} → p.ready ≡ [] → Reach p n s → Covered p.target s
unfolding start
Reach-Covered p empty begin = (refl, omega (arith, seeded-target p p.target (omega arith)))
Reach-Covered p empty (and_then r step) = Step-Covered p.target (Reach-Covered p empty r) step

-- The machines that are ready or on their way, against the most builds at once.
abbrev Kept : ℕ → ℕ → Live → Type 0
Kept target peak s =
    (s.pool.target ≡ target)
    × (s.building ≤ peak)
    × (length s.pool.ready + s.building ≤ target + (peak - 1))

Turn-Kept :
    (target n : ℕ) {s t : Live} → Kept target n s → Turn s t → Kept target (most n t.building) t
unfolding loop_turn build_one wants_more most
Turn-Kept target n {s} (aim, few, h) (pokes_loop k e) =
    (aim, ground (arith, few), ground (arith, h, few))
Turn-Kept target n {s} (aim, few, h) (takes k e) =
    (aim, ground (arith, few, aim), ground (arith, h, few, aim))
Turn-Kept target n {s} (aim, few, h) (built k x e) =
    (aim, ground (arith, few, e), ground (arith, h, few, e, length-snoc s.pool.ready x))
Turn-Kept target n {s} (aim, few, h) (fails k e) =
    (aim, ground (arith, few, e), ground (arith, h, few, e))

-- What is left to do without callers.
unfoldable pub work : Live → ℕ
work s = 3 * s.poking + 2 * s.pokes + s.building

Turn-work : {s t : Live} → Turn s t → work t < work s
unfolding work poke loop_turn
Turn-work {s} (pokes_loop n e) = ground (arith, e)
Turn-work {s} (takes n e) = ground (arith, e)
Turn-work {s} (built n x e) = ground (arith, e)
Turn-work {s} (fails n e) = ground (arith, e)

zero_or_suc : (n : ℕ) → (n ≡ 0) ⊎ (m : ℕ) × (n ≡ suc m)
zero_or_suc zero = inl refl
zero_or_suc (suc m) = inr (m, refl)

work_left : (s : Live) → (work s ≡ 0) ⊎ (t : Live) × Turn s t
unfolding work
work_left s = elim (zero_or_suc s.poking) [
  | inr (n, e) ↦ inr (_, pokes_loop n e)
  | inl no_poking ↦ elim (zero_or_suc s.pokes) [
    | inr (n, e) ↦ inr (_, takes n e)
    | inl no_pokes ↦ elim (zero_or_suc s.building) [
      | inr (n, e) ↦ inr (_, fails n e)
      | inl none_built ↦ inl (omega (arith, no_poking, no_pokes, none_built))
    ]
  ]
]

Run-shorter : {n : ℕ} {s t : Live} → Run n s t → n + work t ≤ work s
Run-shorter done = omega arith
Run-shorter (turn t r) = omega (arith, Turn-work t, Run-shorter r)

-- The turns of a pool that no caller disturbs come to an end: there are at most as many as there is
-- work, and where none is possible any more, no work is left.
pub Run-work :
    {n : ℕ} {s t : Live}
    → Run n s t
    → (n + work t ≤ work s) × ((work t ≡ 0) ⊎ (u : Live) × Turn t u)
Run-work {t} r = (Run-shorter r, work_left t)

acquire_fewer_parts :
    (target : ℕ) (ready : List Session)
    → let p : WarmPool = record { target = target; ready = ready } in
      length (acquire_warm p).0.ready ≤ length ready
unfolding acquire_warm
acquire_fewer_parts target [] = omega arith
acquire_fewer_parts target (x ∷ ready) = omega arith

new_pool_empty : (target : ℕ) → (new_warm_pool target).ready ≡ []
unfolding new_warm_pool
new_pool_empty target = refl

acquire_fewer : (p : WarmPool) → length (acquire_warm p).0.ready ≤ length p.ready
acquire_fewer p = acquire_fewer_parts p.target p.ready

Step-Kept :
    (target n : ℕ) {s t : Live} → Kept target n s → Step s t → Kept target (most n t.building) t
unfolding most
Step-Kept target n {s} (aim, few, h) acquires =
    let (same, fewer) = acquire-Covered s.pool in
    (same ∙ aim, ground (arith, few), ground (arith, h, few, acquire_fewer s.pool))
Step-Kept target n k (by_itself t) = Turn-Kept target n k t

Reach-Kept : (p : WarmPool) {n : ℕ} {s : Live} → p.ready ≡ [] → Reach p n s → Kept p.target n s
unfolding start
Reach-Kept p empty begin = (refl, omega arith, ground (arith, empty))
Reach-Kept p empty (and_then {peak} r step) = Step-Kept p.target peak (Reach-Kept p empty r) step

-- However callers, pokes and builds overlap: when the pool has nothing left to do, it holds at least
-- as many machines as it aims at, less one for each build that failed, and at most as many as it aims
-- at and one less than the most builds that were under way at once: never more than it aims at, if
-- its builds did not overlap.
pub Reach-heals :
    (target : ℕ) {peak : ℕ} {s : Live}
    → Reach (new_warm_pool target) peak s
    → work s ≡ 0
    → ((new_warm_pool target).target ≤ length s.pool.ready + s.failed)
      × (length s.pool.ready ≤ (new_warm_pool target).target + (peak - 1))
unfolding work
Reach-heals target {s} r idle =
    let p = new_warm_pool target in
    let (aim, few, bound) = Reach-Kept p (new_pool_empty target) r in
    (omega (arith, idle, (Reach-Covered p (new_pool_empty target) r).1), omega (arith, bound))

-- The loop counts no build under way: with callers that find the pool empty, any number of builds is
-- started.
many_builds :
    (target k : ℕ)
    → 0 < target
    → let p : WarmPool = record { target = target; ready = [] } in
      (n : ℕ) × Reach p n
        (record { pool = p; pokes = seeded p target; poking = 0; building = k; failed = 0 })
unfolding start acquire_warm loop_turn wants_more poke
many_builds target zero h = (0, begin)
many_builds target (suc k) h =
    let p : WarmPool = record { target = target; ready = [] } in
    let called = and_then (many_builds target k h).1 acquires in
    let poked = and_then called (by_itself (pokes_loop 0 refl)) in
    let full : seeded p target ≡ target = seeded-target p target (omega arith) in
    let room : poke p (seeded p target) ≡ suc (seeded p target) = ground (arith, full, h) in
    let taken = and_then poked (by_itself (takes (seeded p target) room)) in
    let one_more : (if wants_more p then k + 1 else k) ≡ suc k = ground (arith, h) in
    subst
      (λ b.
        (n : ℕ) × Reach p n
          (record { pool = p; pokes = seeded p target; poking = 0; building = b; failed = 0 }))
      one_more (_, taken)

all_built :
    (p : WarmPool) (x : Session) (k pokes : ℕ) (ready : List Session) {n : ℕ}
    → Reach p n (record {
      pool = record p { ready = ready };
      pokes = pokes;
      poking = 0;
      building = k;
      failed = 0;
    })
    → (s : Live) × (n : ℕ) × Reach p n s × (length s.pool.ready ≡ length ready + k)
unfolding build_one
all_built p x zero pokes ready r = (_, _, r, omega arith)
all_built p x (suc k) pokes ready r =
    let (s, m, all, e) =
      all_built p x k pokes (ready ++ x ∷ []) (and_then r (by_itself (built k x refl))) in
    (s, m, all, ground (arith, e, length-snoc ready x))

-- Whatever the pool aims at, callers that find it empty can make it hold any number of machines.
overgrows :
    (target k : ℕ) (launched : Session)
    → (s : Live) × (n : ℕ) × Reach (new_warm_pool target) n s × (length s.pool.ready ≡ k)
unfolding new_warm_pool
overgrows target k launched =
    let aim : ℕ = if ltb 0 target then target else 2 in
    let p : WarmPool = record { target = aim; ready = [] } in
    let (s, n, r, e) =
      all_built p launched k (seeded p aim) [] (many_builds aim k (ground arith)).1 in
    (s, n, r, omega (arith, e))
