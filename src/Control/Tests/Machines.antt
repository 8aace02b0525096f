-- ===== src/Control/Tests/Machines.antt =====
-- Runs of the manager with the allocator of the default prefix.
use microvm_terminal.Base.{◌≡◌, refl, true, false, some, none, [], ◌∷◌, bytes}
use microvm_terminal.Base.Map
use microvm_terminal.Base.Hex.{hex_encode, hex_digit}
use microvm_terminal.Base.Decimal.{decimal}
use microvm_terminal.Base.Text.{bytes-eq}
use microvm_terminal.Base.Result.{ok}
use microvm_terminal.Control.Netalloc.{
  first_allocator, alloc, alloc_loop, rounds, contains, issue, mac_of, hex_byte, tap_name,
}
use microvm_terminal.Control.Manager.{
  Session, Removal, Manager, World, create, destroy, with_lease, with_tap, with_random, with_dir,
  launched, session_of, short_id, create_tap,
}
use microvm_terminal.Control.Manager.Holdings.{SameHoldings}
use microvm_terminal.Control.Manager.Endings.{Ends, create-Ends}
use microvm_terminal.Control.Manager.Lifetimes.{create-destroy}
use microvm_terminal.Control.Tests.Leases.{lan, first_lease}

abbrev pub empty_host : Manager
empty_host = record {
  max_concurrent = 1;
  allocator = first_allocator lan;
  sessions = [];
  taps = [];
  dirs = [];
  stopped = [];
}

abbrev pub all_removed : Removal
all_removed = record { deletes_tap = true; removes_dir = true }

abbrev pub all_well : World
all_well = record {
  tuntap_adds = true;
  tap_attaches = true;
  tap_goes_up = true;
  random = some (b'A' ∷ []);
  sid = bytes "4b825dc6-42cb";
  mkdir = true;
  token_file = some [];
  prepares = true;
  launches = true;
  removal = all_removed;
}

abbrev no_bridge : World
no_bridge = record all_well { tap_attaches = false }

abbrev pub machine : Session
machine = record {
  id = bytes "4b825dc6-42cb";
  ip = first_lease.ip;
  mac = first_lease.mac;
  tap = first_lease.tap;
  hostname = bytes "vm-4b825dc6";
  session_token = bytes "41";
  cid = 100;
}

create_run : (create empty_host all_well).1 ≡ ok machine
unfolding create with_lease with_tap with_random with_dir launched session_of short_id create_tap
    hex_encode hex_digit alloc alloc_loop rounds contains issue mac_of hex_byte tap_name decimal
    Map.lookup Map.insert
create_run = refl

create-Ends_example : Ends empty_host all_well (create empty_host all_well)
unfolding Map.lookup
create-Ends_example = create-Ends empty_host all_well refl (λ l h. refl) refl refl

create-destroy_example :
    ((destroy (create empty_host all_well).0 (bytes "4b825dc6-42cb") all_removed).1 ≡ none)
    × SameHoldings all_removed empty_host
        (destroy (create empty_host all_well).0 (bytes "4b825dc6-42cb") all_removed).0
unfolding Map.lookup
create-destroy_example =
    create-destroy empty_host all_well all_removed machine refl refl (λ l h. refl) refl refl
      create_run
