-- ===== src/Control/Netalloc/Leases.antt =====
-- Which leases an allocator gives, over any sequence of calls.
use native.Mathlib.Nat.{
  le-div_iff_mul-le, div-eq_of_lt, mul-add-div_right, one-le-pow, pow-le-pow_right, add-zero,
}
use microvm_terminal.Base.{
  ℕ, suc, ◌+◌, ◌-◌, ◌*◌, ◌/◌, ◌%◌, ◌^◌, ◌≤◌, ◌<◌, ◌≡◌, ◌≢◌, ◌∙◌, refl, sym, ap, subst, inl, inr,
  Bool-cases, true, false, none, List, [], ◌∷◌, nat_eq, ltb, if◌then◌else◌, arith,
}
use microvm_terminal.Base.Map
use microvm_terminal.Base.Map.{GoMap, lookup-insert, lookup-delete}
use microvm_terminal.Base.Result.{Result, ok, err}
use microvm_terminal.Base.Tests.{ℕ-eq}
use microvm_terminal.Control.Netalloc.{
  Prefix, Error, no_free_ips, Allocator, Lease, block, masked, contains, first_allocator, mac_of,
  tap_name, issue, alloc_loop, rounds, alloc, release,
}

in_block : (q b k : ℕ) → 0 < b → nat_eq ((q * b + k) / b) q ≡ ltb k b
in_block q b k h =
    let low : k < b → k / b ≡ 0 = div-eq_of_lt in
    let high : b ≤ k → 1 ≤ k / b = λ g. (le-div_iff_mul-le {x = 1} h).1 (omega arith) in
    rw (mul-add-div_right h q k) (ground (arith, low, high))

-- The prefix contains the addresses from its first on, as many as it has.
contains-masked : (p : Prefix) (k : ℕ) → contains p (masked p + k) ≡ ltb k (block p)
unfolding contains
contains-masked p k =
    in_block (p.addr / block p) (block p) k (one-le-pow (32 - p.bits) 2 (omega arith))

pub data Call : Type 0 where
  allocate : Call
  give_back : ℕ → Call

unfoldable pub after : Allocator → List Call → Allocator
after a [] = a
after a (allocate ∷ cs) = after (alloc a).0 cs
after a (give_back ip ∷ cs) = after (release a ip) cs

-- What the calls of Alloc return, in turn.
unfoldable pub outcomes : Allocator → List Call → List (Result Error Lease)
outcomes a [] = []
outcomes a (allocate ∷ cs) = let r = alloc a in r.1 ∷ outcomes r.0 cs
outcomes a (give_back ip ∷ cs) = outcomes (release a ip) cs

-- The specification: a counter of the calls of Alloc.
abbrev pub lease_number : Prefix → ℕ → Lease
lease_number p i = record {
  ip = masked p + (2 + i);
  mac = mac_of (masked p + (2 + i));
  tap = tap_name (i + 1);
  cid = (100 + i) % 2 ^ 32;
}

abbrev pub outcome_number : Prefix → ℕ → Result Error Lease
outcome_number p i = if ltb (2 + i) (block p) then ok (lease_number p i) else err no_free_ips

unfoldable pub specified : Prefix → ℕ → List Call → List (Result Error Lease)
specified p i [] = []
specified p i (allocate ∷ cs) = outcome_number p i ∷ specified p (i + 1) cs
specified p i (give_back ip ∷ cs) = specified p i cs

-- The state after `i` calls of Alloc.
record Inv (p : Prefix) (i : ℕ) (a : Allocator) : Type 0 where
  base : a.base ≡ p
  host : a.host ≡ masked p + 1
  next : a.next ≡ masked p + (2 + i)
  fresh : (ip : ℕ) → a.next ≤ ip → Map.lookup ip a.in_use ≡ none
  indices : 2 + i ≤ block p → (a.tap_idx ≡ i) × (a.cid_idx ≡ (99 + i) % 2 ^ 32)

Inv-first : (p : Prefix) → Inv p 0 (first_allocator p)
unfolding Map.lookup
Inv-first p = record {
  base = refl;
  host = refl;
  next = refl;
  fresh = λ ip h. refl;
  indices = λ h. (refl, refl);
}

Inv-release : (p : Prefix) (i : ℕ) (a : Allocator) (ip : ℕ) → Inv p i a → Inv p i (release a ip)
unfolding release
Inv-release p i a ip inv = record {
  base = inv.base;
  host = inv.host;
  next = inv.next;
  fresh = λ k h. ground (arith, lookup-delete ip k a.in_use, inv.fresh k h);
  indices = inv.indices;
}

alloc_in :
    (n : ℕ) (a : Allocator)
    → contains a.base a.next ≡ true
    → nat_eq a.next a.host ≡ false
    → Map.lookup a.next a.in_use ≡ none
    → alloc_loop (suc n) a
      ≡ (let r = issue (record a { next = a.next + 1 }) a.next in (r.0, ok r.1))
unfolding alloc_loop
alloc_in n a inside other unused = ground arith

alloc_out :
    (n : ℕ) (a : Allocator)
    → contains a.base a.next ≡ false
    → alloc_loop (suc n) a ≡ (record a { next = a.next + 1 }, err no_free_ips)
unfolding alloc_loop
alloc_out n a outside = ground arith

rounds-suc : rounds ≡ suc 65535
unfolding rounds
rounds-suc = refl

alloc_one : (a : Allocator) → alloc a ≡ alloc_loop (suc 65535) a
unfolding alloc
alloc_one a = rw rounds-suc refl

Inv-contains :
    (p : Prefix) (i : ℕ) (a : Allocator)
    → Inv p i a
    → contains a.base a.next ≡ ltb (2 + i) (block p)
Inv-contains p i a inv = rw (inv.base, inv.next, contains-masked p (2 + i)) refl

Inv-issue :
    (p : Prefix) (i : ℕ) (a : Allocator)
    → Inv p i a
    → ltb (2 + i) (block p) ≡ true
    → Inv p (i + 1) (issue (record a { next = a.next + 1 }) a.next).0
unfolding issue
Inv-issue p i a inv inside = record {
  base = inv.base;
  host = inv.host;
  next = omega (arith, inv.next);
  fresh = λ k h. ground (arith, lookup-insert a.next k true a.in_use, inv.fresh k);
  indices = λ h. ground (arith, inv.indices);
}

issue-number :
    (p : Prefix) (i : ℕ) (a : Allocator)
    → Inv p i a
    → ltb (2 + i) (block p) ≡ true
    → (issue (record a { next = a.next + 1 }) a.next).1 ≡ lease_number p i
unfolding issue
issue-number p i a inv inside =
    let idx = inv.indices (ground (arith, inside)) in
    let cid : (a.cid_idx + 1) % 2 ^ 32 ≡ (100 + i) % 2 ^ 32 = omega (arith, idx.1) in
    rw (inv.next, idx.0, cid) refl

Inv-pass :
    (p : Prefix) (i : ℕ) (a : Allocator)
    → Inv p i a
    → ltb (2 + i) (block p) ≡ false
    → Inv p (i + 1) (record a { next = a.next + 1 })
Inv-pass p i a inv outside = record {
  base = inv.base;
  host = inv.host;
  next = omega (arith, inv.next);
  fresh = λ k h. inv.fresh k (omega arith);
  indices = λ h. absurd (ground arith);
}

-- One call of Alloc is one round of the loop: the candidate is the next number of the counter, which
-- was never handed out.
alloc-number :
    (p : Prefix) (i : ℕ) (a : Allocator)
    → Inv p i a
    → ((alloc a).1 ≡ outcome_number p i) × Inv p (i + 1) (alloc a).0
alloc-number p i a inv = elim (Bool-cases (ltb (2 + i) (block p))) [
  | inl inside ↦
      let other : nat_eq a.next a.host ≡ false = ground (arith, inv.next, inv.host) in
      rw
        (
          alloc_one a,
          alloc_in 65535 a (Inv-contains p i a inv ∙ inside) other (inv.fresh a.next (omega arith)),
          inside,
        )
        (ap ok (issue-number p i a inv inside), Inv-issue p i a inv inside)
  | inr outside ↦
      rw (alloc_one a, alloc_out 65535 a (Inv-contains p i a inv ∙ outside), outside)
        (refl, Inv-pass p i a inv outside)
]

outcomes-number :
    (p : Prefix) (i : ℕ) (a : Allocator) (cs : List Call)
    → Inv p i a
    → outcomes a cs ≡ specified p i cs
unfolding outcomes specified
outcomes-number p i a [] inv = refl
outcomes-number p i a (allocate ∷ cs) inv =
    let one = alloc-number p i a inv in cc (one.0, outcomes-number p (i + 1) (alloc a).0 cs one.1)
outcomes-number p i a (give_back ip ∷ cs) inv =
    outcomes-number p i (release a ip) cs (Inv-release p i a ip inv)

-- Over any calls of Alloc and Release, the allocator of a prefix does what a counter does: the call
-- number `i` of Alloc, from 0, gives the address `2 + i` of the prefix with its MAC, the TAP device
-- `1 + i` and the vsock id `100 + i`, as long as the prefix has that address, and from then on fails
-- for want of addresses, whatever was released between.
pub outcomes-specified :
    (p : Prefix) (cs : List Call) → outcomes (first_allocator p) cs ≡ specified p 0 cs
outcomes-specified p cs = outcomes-number p 0 (first_allocator p) cs (Inv-first p)

abbrev pub allocations : List Call → ℕ
allocations [] = 0
allocations (allocate ∷ cs) = suc (allocations cs)
allocations (give_back ip ∷ cs) = allocations cs

after-Inv :
    (p : Prefix) (i : ℕ) (a : Allocator) (cs : List Call)
    → Inv p i a
    → Inv p (i + allocations cs) (after a cs)
unfolding after
after-Inv p i a [] inv = rw (add-zero i) inv
after-Inv p i a (allocate ∷ cs) inv =
    subst (λ n. Inv p n (after (alloc a).0 cs)) (omega arith)
      (after-Inv p (i + 1) (alloc a).0 cs (alloc-number p i a inv).1)
after-Inv p i a (give_back ip ∷ cs) inv = after-Inv p i (release a ip) cs (Inv-release p i a ip inv)

cids_differ :
    (b i k : ℕ)
    → b ≤ 2 ^ 32
    → 2 + (i + 1 + k) < b
    → (100 + i) % 2 ^ 32 ≢ (100 + (i + 1 + k)) % 2 ^ 32
cids_differ b i k small h e = omega arith

alloc-ok :
    (p : Prefix) (i : ℕ) (a : Allocator) (x : Lease)
    → Inv p i a
    → (alloc a).1 ≡ ok x
    → (2 + i < block p) × (x ≡ lease_number p i)
alloc-ok p i a x inv h = ground (arith, (alloc-number p i a inv).0)

-- After any calls, two calls of Alloc that succeed, with any calls between, give different addresses
-- and different vsock ids.
alloc_unique :
    (p : Prefix) (before between : List Call) (x y : Lease)
    → let a = after (first_allocator p) before in
      (alloc a).1 ≡ ok x
      → (alloc (after (alloc a).0 between)).1 ≡ ok y
      → (x.ip ≢ y.ip) × (x.cid ≢ y.cid)
alloc_unique p before between x y g h =
    let a = after (first_allocator p) before in
    let inv = after-Inv p 0 (first_allocator p) before (Inv-first p) in
    let i = 0 + allocations before in
    let j = i + 1 + allocations between in
    let one = alloc-number p i a inv in
    let inv' = after-Inv p (i + 1) (alloc a).0 between one.1 in
    let first = alloc-ok p i a x inv g in
    let second = alloc-ok p j (after (alloc a).0 between) y inv' h in
    let small : block p ≤ 2 ^ 32 = pow-le-pow_right (omega arith) {j = 32} (omega arith) in
    let cids =
      cids_differ (block p) (0 + allocations before) (allocations between) small second.0 in
    (
      λ e. absurd (omega (arith, ap (λ l. l.ip) first.1, ap (λ l. l.ip) second.1, e)),
      λ e. cids (sym (ap (λ l. l.cid) first.1) ∙ e ∙ ap (λ l. l.cid) second.1),
    )
