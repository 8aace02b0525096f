-- ===== src/Control/Manager/Holdings.antt =====
-- What a machine holds on the host, and what becomes of it.
use microvm_terminal.Base.{
  ℕ, zero, suc, ◌+◌, ◌≡◌, ◌⊎◌, inl, inr, refl, ap, subst, Bool, true, false, Option, none, some,
  Bytes, bytes_eq, arith, Bool-cases,
}
use microvm_terminal.Base.Map
use microvm_terminal.Base.Map.{GoMap, lookup-insert, lookup-delete}
use microvm_terminal.Base.Result.{ok}
use microvm_terminal.Base.Tests.{ℕ-eq, nat_eq_iff}
use microvm_terminal.Base.Text.{bytes-eq, bytes_eq_iff}
use microvm_terminal.Control.Netalloc
use microvm_terminal.Control.Netalloc.{Allocator, Lease, marked, contains, issue, alloc_loop, alloc}
use microvm_terminal.Control.Manager.{
  Removal, Manager, World, without, delete_tap, release_ip, cleanup,
}

-- An address is in use.
abbrev pub in_use : Allocator → ℕ → Bool
in_use a ip = marked (Map.lookup ip a.in_use)

-- An entry of a map is what it was, or it is new and its removal failed.
abbrev pub Kept : Bool → Option Bool → Option Bool → Type 0
Kept removed before after =
    (after ≡ before) ⊎ (removed ≡ false) × (before ≡ none) × (after ≡ some true)

-- The same machines and addresses, and the same TAP devices and directories but for new ones whose
-- removal failed.
pub record SameHoldings (r : Removal) (m m' : Manager) : Type 0 where
  pub sessions : (id : Bytes) → Map.lookup id m'.sessions ≡ Map.lookup id m.sessions
  pub addresses : (ip : ℕ) → in_use m'.allocator ip ≡ in_use m.allocator ip
  pub taps : (tap : Bytes) → Kept r.deletes_tap (Map.lookup tap m.taps) (Map.lookup tap m'.taps)
  pub dirs : (d : Bytes) → Kept r.removes_dir (Map.lookup d m.dirs) (Map.lookup d m'.dirs)

-- A map with one key more, and without it again.
pub delete-insert_new :
    {V : Type 0} (k j : Bytes) (v : V) (m : GoMap Bytes V)
    → Map.lookup k m ≡ none
    → Map.lookup j (Map.delete k (Map.insert k v m)) ≡ Map.lookup j m
delete-insert_new k j v m new =
    ground (arith, lookup-delete k j (Map.insert k v m), lookup-insert k j v m, bytes_eq_iff k j)

pub without-Kept :
    (removed : Bool) (k j : Bytes) (m : GoMap Bytes Bool)
    → Map.lookup k m ≡ none
    → Kept removed (Map.lookup j m) (Map.lookup j (without removed k (Map.insert k true m)))
without-Kept true k j m new = inl (delete-insert_new k j true m new)
without-Kept false k j m new = elim (Bool-cases (bytes_eq k j)) [
  | inl here ↦
      let same = (bytes_eq_iff k j).0 here in
      inr (
        refl,
        subst (λ i. Map.lookup i m ≡ none) same new,
        ground (arith, here, lookup-insert k j true m),
      )
  | inr elsewhere ↦ inl (ground (arith, elsewhere, lookup-insert k j true m))
]

-- The lease was free, and is taken now.
abbrev pub Taken : Allocator → Allocator → Lease → Type 0
Taken a a' l = (in_use a l.ip ≡ false) × (a'.in_use ≡ Map.insert l.ip true a.in_use)

pub alloc_loop-Taken :
    (n : ℕ) (a a' : Allocator) (l : Lease) → alloc_loop n a ≡ (a', ok l) → Taken a a' l
unfolding alloc_loop issue
alloc_loop-Taken zero a a' l h = absurd (ground (arith, h))
alloc_loop-Taken (suc n) a a' l h =
    ground (arith, h, alloc_loop-Taken n (record a { next = a.next + 1 }) a' l)

pub release-Taken :
    (a a' : Allocator) (l : Lease) (ip : ℕ)
    → Taken a a' l
    → in_use (Netalloc.release a' l.ip) ip ≡ in_use a ip
unfolding Netalloc.release
release-Taken a a' l ip t = ground (
  arith,
  t.0,
  t.1,
  lookup-delete l.ip ip a'.in_use,
  lookup-insert l.ip ip true a.in_use,
  nat_eq_iff l.ip ip,
)

-- What a Create has taken before the machine is started.
pub cleanup-SameHoldings :
    (m m' : Manager) (w : World) (l : Lease)
    → Taken m.allocator m'.allocator l
    → Map.lookup l.tap m.taps ≡ none
    → Map.lookup w.sid m.dirs ≡ none
    → m'.sessions ≡ m.sessions
    → m'.taps ≡ Map.insert l.tap true m.taps
    → m'.dirs ≡ Map.insert w.sid true m.dirs
    → SameHoldings w.removal m (cleanup m' w l)
unfolding cleanup delete_tap release_ip
cleanup-SameHoldings m m' w l t tap dir es et ed = record {
  sessions = λ id. ap (Map.lookup id) es;
  addresses = λ ip. release-Taken m.allocator m'.allocator l ip t;
  taps = λ j. rw et (without-Kept w.removal.deletes_tap l.tap j m.taps tap);
  dirs = λ j. rw ed (without-Kept w.removal.removes_dir w.sid j m.dirs dir);
}

pub net-SameHoldings :
    (m m' : Manager) (r : Removal) (l : Lease)
    → Taken m.allocator m'.allocator l
    → Map.lookup l.tap m.taps ≡ none
    → m'.sessions ≡ m.sessions
    → m'.taps ≡ Map.insert l.tap true m.taps
    → m'.dirs ≡ m.dirs
    → SameHoldings r m (release_ip (delete_tap m' l.tap r.deletes_tap) l.ip)
unfolding delete_tap release_ip
net-SameHoldings m m' r l t tap es et ed = record {
  sessions = λ id. ap (Map.lookup id) es;
  addresses = λ ip. release-Taken m.allocator m'.allocator l ip t;
  taps = λ j. rw et (without-Kept r.deletes_tap l.tap j m.taps tap);
  dirs = λ j. inl (ap (Map.lookup j) ed);
}
