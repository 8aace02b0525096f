-- ===== src/Control/Netalloc.antt =====
-- control-plane/internal/netalloc/netalloc.go: the addresses, the MAC and TAP names and the vsock
-- ids of the virtual machines. An IPv4 address is a number below 2^32; the addresses that Next
-- yields behind the last one, which are invalid and which no prefix contains, are the numbers from
-- 2^32 on. What netip makes of the text of a prefix is an argument.
pub mod Leases
use microvm_terminal.Base.{
  ℕ, zero, suc, ◌+◌, ◌-◌, ◌*◌, ◌/◌, ◌%◌, ◌^◌, Bool, true, false, not, ◌&&◌, Option, none, some,
  List, [], ◌∷◌, ◌++◌, Bytes, bytes, length, nat_eq,
}
use microvm_terminal.Base.Decimal.{decimal}
use microvm_terminal.Base.Hex.{hex_digit}
use microvm_terminal.Base.Map
use microvm_terminal.Base.Map.{GoMap}
use microvm_terminal.Base.Result.{Result, ok, err}
use microvm_terminal.Base.Tests.{ℕ-eq}

pub record Prefix : Type 0 where
  pub addr : ℕ
  pub bits : ℕ
  pub is4 : Bool

pub data Error : Type 0 where
  parse_failed only_ipv4 no_free_ips loop_exhausted : Error

pub record Allocator : Type 0 where
  pub base : Prefix
  pub host : ℕ
  pub next : ℕ
  pub in_use : GoMap ℕ Bool
  pub tap_idx : ℕ
  pub cid_idx : ℕ

-- How many addresses the prefix has, and the first of them.
abbrev pub block : Prefix → ℕ
block p = 2 ^ (32 - p.bits)

abbrev pub masked : Prefix → ℕ
masked p = p.addr / block p * block p

unfoldable pub contains : Prefix → ℕ → Bool
contains p a = nat_eq (a / block p) (p.addr / block p)

abbrev pub first_allocator : Prefix → Allocator
first_allocator p = record {
  base = p;
  host = masked p + 1;
  next = masked p + 2;
  in_use = [];
  tap_idx = 0;
  cid_idx = 99;
}

unfoldable pub new : Option Prefix → Result Error Allocator
new none = err parse_failed
new (some p) = elim p.is4 [ true ↦ ok (first_allocator p) | false ↦ err only_ipv4 ]

pub record Lease : Type 0 where
  pub ip : ℕ
  pub mac : Bytes
  pub tap : Bytes
  pub cid : ℕ

-- `%02x` of a byte.
unfoldable pub hex_byte : ℕ → Bytes
unfolding hex_digit
hex_byte b = hex_digit (b / 16) ∷ hex_digit (b % 16) ∷ []

unfoldable pub mac_of : ℕ → Bytes
unfolding hex_byte
mac_of ip = bytes "AA:BB:CC:00:" ++ hex_byte (ip / 256 % 256) ++ bytes ":" ++ hex_byte (ip % 256)

unfoldable pub tap_name : ℕ → Bytes
unfolding decimal
tap_name i = bytes "tap-fc" ++ decimal i

-- The candidate is free: it is marked, and the indices go up.
unfoldable pub issue : Allocator → ℕ → Allocator × Lease
issue a ip =
    let tap = a.tap_idx + 1 in
    let cid = (a.cid_idx + 1) % 2 ^ 32 in
    (
      record a { in_use = Map.insert ip true a.in_use; tap_idx = tap; cid_idx = cid },
      record { ip = ip; mac = mac_of ip; tap = tap_name tap; cid = cid },
    )

abbrev pub marked : Option Bool → Bool
marked none = false
marked (some b) = b

-- The loop of Alloc, with as many rounds left as the first argument.
unfoldable pub alloc_loop : ℕ → Allocator → Allocator × Result Error Lease
alloc_loop zero a = (a, err loop_exhausted)
alloc_loop (suc n) a =
    let candidate = a.next in
    let a' : Allocator = record a { next = a.next + 1 } in
    elim (contains a.base candidate) [
      | false ↦ (a', err no_free_ips)
      | true ↦ elim (nat_eq candidate a.host) [
        | true ↦ alloc_loop n a'
        | false ↦ elim (marked (Map.lookup candidate a.in_use)) [
          | true ↦ alloc_loop n a'
          | false ↦ let r = issue a' candidate in (r.0, ok r.1)
        ]
      ]
    ]

unfoldable pub rounds : ℕ
rounds = 2 ^ 16

unfoldable pub alloc : Allocator → Allocator × Result Error Lease
alloc a = alloc_loop rounds a

unfoldable pub release : Allocator → ℕ → Allocator
release a ip = record a { in_use = Map.delete ip a.in_use }

unfoldable pub in_use_count : Allocator → ℕ
in_use_count a = length a.in_use
