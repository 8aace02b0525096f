-- ===== src/Control/Daemon/Exit.antt =====
-- Which machines the end of the daemon stops.
use microvm_terminal.Base.{
  ◌≡◌, refl, sym, ap, subst, ◌||◌, ◌&&◌, Bool, true, false, Option, none, some, List, [], ◌∷◌,
  Bytes, bytes_eq, arith, if◌then◌else◌, inl, inr,
}
use microvm_terminal.Base.Map
use microvm_terminal.Base.Map.{GoMap, lookup-delete}
use microvm_terminal.Base.Tests.{Bool-cases}
use microvm_terminal.Base.Text.{bytes-eq, bytes_eq_iff}
use microvm_terminal.Control.Daemon.{Daemon, no_failure, destroyed, destroy, tear_down, exit}
use microvm_terminal.Control.Host
use microvm_terminal.Control.Host.{Session, Host, live_list, removed}
use microvm_terminal.Control.Manager
use microvm_terminal.Control.Manager.{Manager, Removal}
use microvm_terminal.Control.Manager.Lifetimes.{destroy-lookup}

abbrev pub known : {V : Type 0} → Option V → Bool
known none = false
known (some v) = true

-- Every session is filed under its id.
abbrev pub Filed : GoMap Bytes Session → Type 0
Filed sessions = (k : Bytes) (s : Session) → Map.lookup k sessions ≡ some s → s.id ≡ k

removed-lookup :
    (h : Host) (id j : Bytes) (torn : Bool) (o : Option Session)
    → Map.lookup id h.sessions ≡ o
    → Map.lookup j (removed h id torn o).0.sessions
      ≡ (if bytes_eq id j then none else Map.lookup j h.sessions)
removed-lookup h id j torn none e = ground (arith, e, bytes_eq_iff id j)
removed-lookup h id j torn (some s) e = lookup-delete id j h.sessions

destroyed_host-lookup :
    (h : Host) (id j : Bytes) (torn : Bool)
    → Map.lookup j (Host.destroy h id torn).0.sessions
      ≡ (if bytes_eq id j then none else Map.lookup j h.sessions)
unfolding Host.destroy
destroyed_host-lookup h id j torn = removed-lookup h id j torn (Map.lookup id h.sessions) refl

-- The text is in the list.
abbrev pub holds : Bytes → List Bytes → Bool
holds j [] = false
holds j (x ∷ xs) = bytes_eq x j || holds j xs

destroyed-stopped :
    (m : Manager) (id j : Bytes) (r : Removal) (o : Option Manager.Session)
    → holds j (Manager.destroyed m id r o).0.stopped
      ≡ (bytes_eq id j && known o || holds j m.stopped)
destroyed-stopped m id j r none = ground arith
destroyed-stopped m id j r (some s) = ground arith

destroy-stopped :
    (m : Manager) (id j : Bytes) (r : Removal)
    → holds j (Manager.destroy m id r).0.stopped
      ≡ (bytes_eq id j && known (Map.lookup j m.sessions) || holds j m.stopped)
unfolding Manager.destroy
destroy-stopped m id j r =
    let stopped = destroyed-stopped m id j r (Map.lookup id m.sessions) in
    elim (Bool-cases (bytes_eq id j)) [
      | inl hit ↦
          let alike = ap (λ i. known (Map.lookup i m.sessions)) ((bytes_eq_iff id j).0 hit) in
          ground (arith, hit, stopped, alike)
      | inr miss ↦ ground (arith, miss, stopped)
    ]

-- What a Destroy of `id` does to the machine `j`, where the host has a session of that id.
abbrev Stops : Manager → Bool → Bytes → Manager → Type 0
Stops m hit j m' =
    (Map.lookup j m'.sessions ≡ (if hit then none else Map.lookup j m.sessions))
    × (holds j m'.stopped ≡ (hit && known (Map.lookup j m.sessions) || holds j m.stopped))

-- One session less.
one_less :
    (d : Daemon) (id : Bytes) (r : Removal) (o : Option Session)
    → Filed d.host.sessions
    → Map.lookup id d.host.sessions ≡ o
    → let after = destroyed d id r o in
      Filed after.host.sessions
      × ((j : Bytes)
          → (Map.lookup j after.host.sessions
              ≡ (if bytes_eq id j then none else Map.lookup j d.host.sessions))
            × Stops d.manager (bytes_eq id j && known o) j after.manager)
one_less d id r none filed h =
    (filed, λ j. (ground (arith, h, bytes_eq_iff id j), (ground arith, ground arith)))
one_less d id r (some s) filed h =
    let torn = no_failure (Manager.destroy d.manager s.id r).1 in
    let fewer : (j : Bytes) → _ = λ j. destroyed_host-lookup d.host id j torn in
    (
      λ k s' e. filed k s' (ground (arith, fewer k, e)),
      λ j. (
        fewer j,
        subst (λ i. Stops d.manager (bytes_eq id j && true) j (Manager.destroy d.manager i r).0)
            (sym (filed id s h))
            (
              ground (arith, destroy-lookup d.manager id j r),
              ground (arith, destroy-stopped d.manager id j r),
            ),
      ),
    )

abbrev listed : List Session → Bytes → Bool
listed [] j = false
listed (s ∷ ss) j = bytes_eq s.id j || listed ss j

tear_down-Stops :
    (ss : List Session) (removal : Bytes → Removal) (d : Daemon) (j : Bytes)
    → Filed d.host.sessions
    → Stops d.manager
        (listed ss j && known (Map.lookup j d.host.sessions))
        j
        (tear_down ss removal d).manager
unfolding tear_down destroy
tear_down-Stops [] removal d j filed = (refl, refl)
tear_down-Stops (s ∷ ss) removal d j filed =
    let (filed', at) =
      one_less d s.id (removal s.id) (Map.lookup s.id d.host.sessions) filed refl in
    let (gone, noted) = tear_down-Stops ss removal (destroy d s.id (removal s.id)) j filed' in
    let (left, (gone_now, noted_now)) = at j in
    let fewer = ap known left in
    let less = ap known gone_now in
    elim (Bool-cases (bytes_eq s.id j)) [
      | inl hit ↦
          let alike =
            ap (λ i. known (Map.lookup i d.host.sessions)) ((bytes_eq_iff s.id j).0 hit) in
          (
            ground (arith, hit, gone, fewer, gone_now, alike),
            ground (arith, hit, noted, fewer, less, noted_now, alike),
          )
      | inr miss ↦ (
        ground (arith, miss, gone, fewer, gone_now),
        ground (arith, miss, noted, fewer, less, noted_now),
      )
    ]

pub some_id : (x s : Session) → some x ≡ some s → x.id ≡ s.id
some_id x s h = let same : x ≡ s = ground (arith, h) in ap (λ y. y.id) same

known-listed :
    (j : Bytes) (s : Session) (m : GoMap Bytes Session)
    → Map.lookup j m ≡ some s
    → s.id ≡ j
    → listed (live_list m) j ≡ true
unfolding Map.lookup live_list
known-listed j s [] h e = absurd (ground (arith, h))
known-listed j s ((k, x) ∷ m) h e =
    ground (arith, h, known-listed j s m, bytes_eq_iff x.id j, some_id x s)

exit_known :
    (removal : Bytes → Removal) (d : Daemon) (j : Bytes) (o : Option Session)
    → Filed d.host.sessions
    → Map.lookup j d.host.sessions ≡ o
    → Stops d.manager (known o) j (exit removal d).manager
unfolding exit
exit_known removal d j none filed h =
    let (gone, noted) = tear_down-Stops (live_list d.host.sessions) removal d j filed in
    (ground (arith, ap known h, gone), ground (arith, ap known h, noted))
exit_known removal d j (some s) filed h =
    let (gone, noted) = tear_down-Stops (live_list d.host.sessions) removal d j filed in
    let there = known-listed j s d.host.sessions h (filed j s h) in
    (ground (arith, ap known h, gone, there), ground (arith, ap known h, noted, there))

-- After the end of the daemon, a machine has been told to stop exactly if it had been before, or the
-- manager knows it and the host has a session of its id; and the manager forgets the machines that the
-- host has sessions of and keeps the others: so a machine without a session of the host, as one that
-- waits in the warm pool, is neither told to stop nor forgotten. This holds whatever becomes of the
-- removals, when each session is filed under its id.
pub exit-stopped :
    (removal : Bytes → Removal) (d : Daemon) (id : Bytes)
    → Filed d.host.sessions
    → let m = (exit removal d).manager in
      let given = known (Map.lookup id d.host.sessions) in
      (Map.lookup id m.sessions ≡ (if given then none else Map.lookup id d.manager.sessions))
      × (holds id m.stopped
          ≡ (given && known (Map.lookup id d.manager.sessions) || holds id d.manager.stopped))
exit-stopped removal d id filed = exit_known removal d id (Map.lookup id d.host.sessions) filed refl
