-- ===== src/Control/Tests/Leases.antt =====
-- Runs of the allocator on the default prefix and on a small one.
use microvm_terminal.Base.{◌*◌, ◌+◌, ◌^◌, ◌≡◌, refl, true, false, some, [], ◌∷◌, bytes}
use microvm_terminal.Base.Map
use microvm_terminal.Base.Result.{ok, err}
use microvm_terminal.Control.Netalloc.{
  Prefix, Lease, only_ipv4, new, first_allocator, alloc, alloc_loop, rounds, contains, issue,
  mac_of, hex_byte, tap_name,
}
use microvm_terminal.Base.Hex.{hex_digit}
use microvm_terminal.Base.Decimal.{decimal}
use microvm_terminal.Control.Netalloc.Leases.{
  allocate, give_back, after, outcomes, outcomes-specified, specified,
}

-- 172.20.0.0/24 and 10.0.0.0/30.
abbrev pub lan : Prefix
lan = record { addr = 172 * 2 ^ 24 + 20 * 2 ^ 16; bits = 24; is4 = true }

abbrev tiny : Prefix
tiny = record { addr = 10 * 2 ^ 24; bits = 30; is4 = true }

abbrev second_lease : Lease
second_lease = record {
  ip = 172 * 2 ^ 24 + 20 * 2 ^ 16 + 3;
  mac = bytes "AA:BB:CC:00:00:03";
  tap = bytes "tap-fc2";
  cid = 101;
}

second_alloc : (alloc (after (first_allocator lan) (allocate ∷ []))).1 ≡ ok second_lease
unfolding alloc alloc_loop rounds contains issue mac_of hex_byte hex_digit tap_name decimal after
    Map.lookup Map.insert
second_alloc = refl

not_ipv4 : new (some (record { addr = 1; bits = 64; is4 = false })) ≡ err only_ipv4
unfolding new
not_ipv4 = refl

outcomes-specified_example :
    outcomes (first_allocator lan) (allocate ∷ give_back 2887057411 ∷ allocate ∷ [])
    ≡ specified lan 0 (allocate ∷ give_back 2887057411 ∷ allocate ∷ [])
outcomes-specified_example =
    outcomes-specified lan (allocate ∷ give_back 2887057411 ∷ allocate ∷ [])

abbrev pub first_lease : Lease
first_lease = record {
  ip = 172 * 2 ^ 24 + 20 * 2 ^ 16 + 2;
  mac = bytes "AA:BB:CC:00:00:02";
  tap = bytes "tap-fc1";
  cid = 100;
}

first_alloc : (alloc (first_allocator lan)).1 ≡ ok first_lease
unfolding alloc alloc_loop rounds contains issue mac_of hex_byte hex_digit tap_name decimal
    Map.lookup
first_alloc = refl
