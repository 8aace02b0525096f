-- ===== src/Control/Manager/Lifetimes.antt =====
-- Whole lifetimes: a machine that is created and destroyed, and runs of both calls.
use microvm_terminal.Base.{
  ℕ, ◌+◌, ◌≡◌, ◌≤◌, refl, ap, ◌∙◌, true, Option, none, some, List, [], ◌∷◌, Bytes, length, arith,
  bytes_eq, if◌then◌else◌,
}
use microvm_terminal.Base.Map
use microvm_terminal.Base.Map.{
  GoMap, lookup-insert, lookup-delete, length-insert-le, length-delete-le,
}
use microvm_terminal.Base.Result.{Result, ok, err}
use microvm_terminal.Base.Text.{bytes-eq, bytes_eq_iff}
use microvm_terminal.Control.Netalloc
use microvm_terminal.Control.Netalloc.{Allocator, Lease, alloc}
use microvm_terminal.Control.Manager.{
  Session, Removal, Manager, Error, session_of, World, create_tap, delete_tap, release_ip, cleanup,
  launched, with_dir, with_random, with_tap, with_lease, create, destroyed, destroy,
}
use microvm_terminal.Control.Manager.Holdings.{
  SameHoldings, release-Taken, delete-insert_new, without-Kept,
}
use microvm_terminal.Control.Manager.Endings.{Started, Ends, failed, started, create-Ends}

lookup-insert_self :
    {V : Type 0} (k : Bytes) (v : V) (m : GoMap Bytes V) → Map.lookup k (Map.insert k v m) ≡ some v
lookup-insert_self k v m = ground (arith, lookup-insert k k v m, bytes_eq_iff k k)

-- The machines without one that is destroyed.
destroyed-lookup :
    (m : Manager) (id j : Bytes) (r : Removal) (o : Option Session)
    → Map.lookup id m.sessions ≡ o
    → Map.lookup j (destroyed m id r o).0.sessions
      ≡ (if bytes_eq id j then none else Map.lookup j m.sessions)
destroyed-lookup m id j r none h = ground (arith, h, bytes_eq_iff id j)
destroyed-lookup m id j r (some s) h = lookup-delete id j m.sessions

pub destroy-lookup :
    (m : Manager) (id j : Bytes) (r : Removal)
    → Map.lookup j (destroy m id r).0.sessions
      ≡ (if bytes_eq id j then none else Map.lookup j m.sessions)
unfolding destroy
destroy-lookup m id j r = destroyed-lookup m id j r (Map.lookup id m.sessions) refl

destroyed-Started :
    (m : Manager) (w : World) (r : Removal) (m' : Manager) (s : Session)
    → Map.lookup w.sid m.sessions ≡ none
    → Map.lookup w.sid m.dirs ≡ none
    → Started m w m' s
    → SameHoldings r m (destroyed m' w.sid r (some s)).0
destroyed-Started m w r m' s new dir st = record {
  sessions = λ id. rw st.sessions (delete-insert_new w.sid id s m.sessions new);
  addresses = λ ip. rw st.ip (release-Taken m.allocator m'.allocator st.lease ip st.taken);
  taps = λ j. rw (st.taps, st.tap) (without-Kept r.deletes_tap st.lease.tap j m.taps st.tap_new);
  dirs = λ j. rw (st.dirs, st.id) (without-Kept r.removes_dir w.sid j m.dirs dir);
}

pub destroy-Started :
    (m : Manager) (w : World) (r : Removal) (m' : Manager) (s : Session)
    → Map.lookup w.sid m.sessions ≡ none
    → Map.lookup w.sid m.dirs ≡ none
    → Started m w m' s
    → ((destroy m' w.sid r).1 ≡ none) × SameHoldings r m (destroy m' w.sid r).0
unfolding destroy
destroy-Started m w r m' s new dir st =
    let known : Map.lookup w.sid m'.sessions ≡ some s =
      ap (Map.lookup w.sid) st.sessions ∙ lookup-insert_self w.sid s m.sessions in
    rw known (refl, destroyed-Started m w r m' s new dir st)

Ends-destroy :
    (m : Manager) (w : World) (x : Removal) (r : Manager × Result Error Session) (s : Session)
    → Map.lookup w.sid m.sessions ≡ none
    → Map.lookup w.sid m.dirs ≡ none
    → r.1 ≡ ok s
    → Ends m w r
    → ((destroy r.0 w.sid x).1 ≡ none) × SameHoldings x m (destroy r.0 w.sid x).0
Ends-destroy m w x r s new dir h (failed e e' same) = absurd (ground (arith, h, e'))
Ends-destroy m w x r s new dir h (started s' e' st) = destroy-Started m w x r.0 s' new dir st

-- Creating a machine and destroying it, which succeeds, leaves the machines and the addresses in use
-- as they were, and the TAP devices and the directories too, but for the new one, where its removal
-- fails; when the id, the directory and the name of the TAP device are new, the device can be attached
-- and set up, and the Create succeeds.
pub create-destroy :
    (m : Manager) (w : World) (r : Removal) (s : Session)
    → Map.lookup w.sid m.sessions ≡ none
    → Map.lookup w.sid m.dirs ≡ none
    → ((l : Lease) → (alloc m.allocator).1 ≡ ok l → Map.lookup l.tap m.taps ≡ none)
    → w.tap_attaches ≡ true
    → w.tap_goes_up ≡ true
    → (create m w).1 ≡ ok s
    → ((destroy (create m w).0 w.sid r).1 ≡ none)
      × SameHoldings r m (destroy (create m w).0 w.sid r).0
create-destroy m w r s new dir tap attaches up h =
    Ends-destroy m w r (create m w) s new dir h (create-Ends m w dir tap attaches up)

pub data Call : Type 0 where
  creates : World → Call
  destroys : Bytes → Removal → Call

unfoldable pub after : Manager → List Call → Manager
after m [] = m
after m (creates w ∷ cs) = after (create m w).0 cs
after m (destroys id r ∷ cs) = after (destroy m id r).0 cs

-- No more machines than allowed.
abbrev pub Capped : Manager → Type 0
Capped m = length m.sessions ≤ m.max_concurrent

-- At most one machine more than `n`, under the same cap.
abbrev Grown : ℕ → ℕ → Manager → Type 0
Grown n cap m = (length m.sessions ≤ n + 1) × (m.max_concurrent ≡ cap)

launched-Grown :
    (m : Manager) (w : World) (l : Lease) (token : Bytes)
    → Grown (length m.sessions) m.max_concurrent (launched m w l token).0
unfolding launched cleanup delete_tap release_ip
launched-Grown m w l token =
    ground (arith, length-insert-le w.sid (session_of w l token) m.sessions)

with_dir-Grown :
    (m : Manager) (w : World) (l : Lease) (token : Bytes) (file : Option Bytes)
    → Grown (length m.sessions) m.max_concurrent (with_dir m w l token file).0
unfolding with_dir cleanup delete_tap release_ip
with_dir-Grown m w l token none = ground arith
with_dir-Grown m w l token (some file) = ground (arith, launched-Grown m w l token)

with_random-Grown :
    (m : Manager) (w : World) (l : Lease) (random : Option Bytes)
    → Grown (length m.sessions) m.max_concurrent (with_random m w l random).0
unfolding with_random delete_tap release_ip
with_random-Grown m w l none = ground arith
with_random-Grown m w l (some token) = ground (
  arith,
  with_dir-Grown (record m { dirs = Map.insert w.sid true m.dirs }) w l token w.token_file,
)

with_lease-Grown :
    (m : Manager) (w : World) (r : Allocator × Result Netalloc.Error Lease)
    → Grown (length m.sessions) m.max_concurrent (with_lease m w r).0
unfolding with_lease with_tap release_ip
with_lease-Grown m w (a, err e) = ground arith
with_lease-Grown m w (a, ok l) = ground (
  arith,
  with_random-Grown (record m { allocator = a; taps = (create_tap m.taps l.tap w).0 }) w l w.random,
)

create-Capped : (m : Manager) (w : World) → Capped m → Capped (create m w).0
unfolding create
create-Capped m w h = ground (arith, with_lease-Grown m w (alloc m.allocator))

destroyed-Capped :
    (m : Manager) (id : Bytes) (r : Removal) (o : Option Session)
    → Capped m
    → Capped (destroyed m id r o).0
destroyed-Capped m id r none h = h
destroyed-Capped m id r (some s) h = omega (arith, h, length-delete-le id m.sessions)

destroy-Capped : (m : Manager) (id : Bytes) (r : Removal) → Capped m → Capped (destroy m id r).0
unfolding destroy
destroy-Capped m id r h = destroyed-Capped m id r (Map.lookup id m.sessions) h

-- As long as the calls do not overlap, there are never more machines than the configured number.
after-Capped : (m : Manager) (cs : List Call) → Capped m → Capped (after m cs)
unfolding after
after-Capped m [] h = h
after-Capped m (creates w ∷ cs) h = after-Capped (create m w).0 cs (create-Capped m w h)
after-Capped m (destroys id r ∷ cs) h = after-Capped (destroy m id r).0 cs (destroy-Capped m id r h)
