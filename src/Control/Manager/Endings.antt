-- ===== src/Control/Manager/Endings.antt =====
-- How a Create ends.
use microvm_terminal.Base.{
  ℕ, zero, suc, ◌+◌, ◌≡◌, refl, ap, true, Option, none, some, Bytes, length, leb, arith, inl, inr,
  Bool-cases,
}
use microvm_terminal.Base.Map
use microvm_terminal.Base.Map.{GoMap, lookup-insert, lookup-delete}
use microvm_terminal.Base.Result.{Result, ok, err}
use microvm_terminal.Base.Tests.{ℕ-eq}
use microvm_terminal.Base.Text.{bytes-eq}
use microvm_terminal.Control.Netalloc
use microvm_terminal.Control.Netalloc.{
  Allocator, Lease, marked, contains, issue, alloc_loop, rounds, alloc,
}
use microvm_terminal.Control.Manager.{
  Session, Removal, Manager, Error, at_capacity, create_tap_failed, alloc_net, World, create_tap,
  delete_tap, release_ip, cleanup, session_of, launched, with_dir, with_random, with_tap,
  with_lease, create,
}
use microvm_terminal.Control.Manager.Holdings.{
  SameHoldings, Taken, alloc_loop-Taken, release-Taken, cleanup-SameHoldings, net-SameHoldings,
}

-- What a machine holds that was started from `m`.
pub record Started (m : Manager) (w : World) (m' : Manager) (s : Session) : Type 0 where
  pub lease : Lease
  pub taken : Taken m.allocator m'.allocator lease
  pub tap_new : Map.lookup lease.tap m.taps ≡ none
  pub ip : s.ip ≡ lease.ip
  pub tap : s.tap ≡ lease.tap
  pub id : s.id ≡ w.sid
  pub sessions : m'.sessions ≡ Map.insert w.sid s m.sessions
  pub taps : m'.taps ≡ Map.insert lease.tap true m.taps
  pub dirs : m'.dirs ≡ Map.insert w.sid true m.dirs

pub data Ends (m : Manager) (w : World) (r : Manager × Result Error Session) : Type 0 where
  failed : (e : Error) → r.1 ≡ err e → SameHoldings w.removal m r.0 → Ends m w r
  started : (s : Session) → r.1 ≡ ok s → Started m w r.0 s → Ends m w r

same :
    (r : Removal) (m m' : Manager)
    → m'.sessions ≡ m.sessions
    → m'.allocator.in_use ≡ m.allocator.in_use
    → m'.taps ≡ m.taps
    → m'.dirs ≡ m.dirs
    → SameHoldings r m m'
same r m m' es ea et ed = record {
  sessions = λ id. ap (Map.lookup id) es;
  addresses = λ ip. ap (λ u. marked (Map.lookup ip u)) ea;
  taps = λ j. inl (ap (Map.lookup j) et);
  dirs = λ j. inl (ap (Map.lookup j) ed);
}

alloc_loop-err :
    (n : ℕ) (a a' : Allocator) (e : Netalloc.Error)
    → alloc_loop n a ≡ (a', err e)
    → a'.in_use ≡ a.in_use
unfolding alloc_loop
alloc_loop-err zero a a' e h = ground (arith, h)
alloc_loop-err (suc n) a a' e h =
    ground (arith, h, alloc_loop-err n (record a { next = a.next + 1 }) a' e)

alloc-err : (a a' : Allocator) (e : Netalloc.Error) → alloc a ≡ (a', err e) → a'.in_use ≡ a.in_use
unfolding alloc
alloc-err a a' e h = alloc_loop-err rounds a a' e h

alloc-Taken : (a a' : Allocator) (l : Lease) → alloc a ≡ (a', ok l) → Taken a a' l
unfolding alloc
alloc-Taken a a' l h = alloc_loop-Taken rounds a a' l h

module _ (m : Manager) (w : World) (dir : Map.lookup w.sid m.dirs ≡ none) where
  -- The state with the lease and its TAP device, and the one with the directory too.
  abbrev with_net : Allocator → Lease → Manager
  with_net a l = record m { allocator = a; taps = Map.insert l.tap true m.taps }

  abbrev with_all : Allocator → Lease → Manager
  with_all a l = record (with_net a l) { dirs = Map.insert w.sid true m.dirs }

  cleaned-Ends :
      (a : Allocator) (l : Lease) (e : Error)
      → Taken m.allocator a l
      → Map.lookup l.tap m.taps ≡ none
      → Ends m w (cleanup (with_all a l) w l, err e)
  cleaned-Ends a l e t tap =
      failed e refl (cleanup-SameHoldings m (with_all a l) w l t tap dir refl refl refl)

  launched-Ends :
      (a : Allocator) (l : Lease) (token : Bytes)
      → Taken m.allocator a l
      → Map.lookup l.tap m.taps ≡ none
      → Ends m w (launched (with_all a l) w l token)
  unfolding launched session_of
  launched-Ends a l token t tap = elim (Bool-cases w.launches) [
    | inr bad ↦ simp bad (cleaned-Ends a l _ t tap)
    | inl up ↦ rw up (
        started (session_of w l token) refl (record {
          lease = l;
          taken = t;
          tap_new = tap;
          ip = refl;
          tap = refl;
          id = refl;
          sessions = refl;
          taps = refl;
          dirs = refl;
        }))
  ]

  with_dir-Ends :
      (a : Allocator) (l : Lease) (token : Bytes) (file : Option Bytes)
      → Taken m.allocator a l
      → Map.lookup l.tap m.taps ≡ none
      → Ends m w (with_dir (with_all a l) w l token file)
  unfolding with_dir
  with_dir-Ends a l token none t tap = cleaned-Ends a l _ t tap
  with_dir-Ends a l token (some file) t tap = elim (Bool-cases w.prepares) [
    | inr bad ↦ simp bad (cleaned-Ends a l _ t tap)
    | inl good ↦ simp good (launched-Ends a l token t tap)
  ]

  undone-Ends :
      (a : Allocator) (l : Lease) (e : Error)
      → Taken m.allocator a l
      → Map.lookup l.tap m.taps ≡ none
      → Ends m w (release_ip (delete_tap (with_net a l) l.tap w.removal.deletes_tap) l.ip, err e)
  undone-Ends a l e t tap =
      failed e refl (net-SameHoldings m (with_net a l) w.removal l t tap refl refl refl)

  with_random-Ends :
      (a : Allocator) (l : Lease) (random : Option Bytes)
      → Taken m.allocator a l
      → Map.lookup l.tap m.taps ≡ none
      → Ends m w (with_random (with_net a l) w l random)
  unfolding with_random
  with_random-Ends a l none t tap = undone-Ends a l _ t tap
  with_random-Ends a l (some token) t tap = elim (Bool-cases w.mkdir) [
    | inl good ↦ simp good (with_dir-Ends a l token w.token_file t tap)
    | inr bad ↦ simp bad (undone-Ends a l _ t tap)
  ]

  with_lease-Ends :
      (r : Allocator × Result Netalloc.Error Lease)
      → alloc m.allocator ≡ r
      → ((l : Lease) → r.1 ≡ ok l → Map.lookup l.tap m.taps ≡ none)
      → w.tap_attaches ≡ true
      → w.tap_goes_up ≡ true
      → Ends m w (with_lease m w r)
  unfolding with_lease with_tap create_tap release_ip
  with_lease-Ends (a, err e) eq new attaches up =
      failed (alloc_net e) refl (
        same w.removal m (record m { allocator = a }) refl (alloc-err m.allocator a e eq) refl refl)
  with_lease-Ends (a, ok l) eq new attaches up =
      let tap = new l refl in
      let t = alloc-Taken m.allocator a l eq in
      elim (Bool-cases w.tuntap_adds) [
        | inl adds ↦ simp (adds, attaches, up) (with_random-Ends a l w.random t tap)
        | inr bad ↦
            simp (bad, tap)
              (failed create_tap_failed refl (record {
                sessions = λ id. refl;
                addresses = λ ip. release-Taken m.allocator a l ip t;
                taps = λ j. inl refl;
                dirs = λ j. inl refl;
              }))
      ]

-- A Create that fails leaves the machines and the addresses in use as they were, and the TAP devices
-- and the directories too, but for a new one that could not be removed, where the removal of its kind
-- fails; one that succeeds has added one of each, those of its session. This holds when the names are
-- new and a TAP device that was added can also be attached and set up.
pub create-Ends :
    (m : Manager) (w : World)
    → Map.lookup w.sid m.dirs ≡ none
    → ((l : Lease) → (alloc m.allocator).1 ≡ ok l → Map.lookup l.tap m.taps ≡ none)
    → w.tap_attaches ≡ true
    → w.tap_goes_up ≡ true
    → Ends m w (create m w)
unfolding create
create-Ends m w dir new attaches up = elim (Bool-cases (leb m.max_concurrent (length m.sessions))) [
  | inl full ↦ rw full (failed at_capacity refl (same w.removal m m refl refl refl refl))
  | inr room ↦ rw room (with_lease-Ends m w dir (alloc m.allocator) refl new attaches up)
]
