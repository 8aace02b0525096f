-- ===== src/Control/Tests/Images.antt =====
-- The image of a machine, and the network of the host.
use microvm_terminal.Base.{◌≡◌, refl, true, none, [], ◌∷◌, ◌++◌, Bytes, bytes, bytes_eq}
use microvm_terminal.Control.Bridge
use microvm_terminal.Control.Bridge.{Network, Commands, ensure_bridge}
use microvm_terminal.Control.Bridge.Restarts.{Ruled, SameRules, AllWork, ensure_bridge-again}
use microvm_terminal.Control.Rootfs.{Inputs, Works, Files, text, actions}

abbrev inputs : Inputs
inputs = record {
  ip = bytes "172.31.0.2";
  prefix_len = 24;
  gateway = bytes "172.31.0.1";
  hostname = bytes "vm-4b825dc6";
  oauth_token = bytes "token";
  now_millis = 1000;
}

abbrev golden : Files
golden = (bytes "/etc/hostname", record { content = text (bytes "golden\n"); owner = 0 }) ∷ []

abbrev works : Works
works = record {
  copies = true;
  makes_temp = true;
  mounts = true;
  actions = 10;
  umounts = true;
  umounts_again = true;
}

abbrev quoted : Bytes → Bytes
quoted s = b'"' ∷ (s ++ b'"' ∷ [])

abbrev bridge : Bridge.Inputs
bridge = record {
  bridge_name = bytes "br-fc0";
  host_addr = bytes "172.31.0.1";
  prefix_len = 24;
  subnet = bytes "172.31.0.0/24";
  upstream_iface = bytes "eno1";
}

abbrev commands : Commands
commands = record {
  link_adds = true;
  addr_replaces = true;
  link_goes_up = true;
  nat_adds = true;
  forward_in_adds = true;
  forward_out_adds = true;
}

abbrev bare : Network
bare = record { links = []; postrouting = []; forward = (bytes "-j" ∷ bytes "DROP" ∷ []) ∷ [] }

all_work : AllWork commands
all_work = record {
  link_adds = refl;
  addr_replaces = refl;
  link_goes_up = refl;
  nat_adds = refl;
  forward_in_adds = refl;
  forward_out_adds = refl;
}

ensure_bridge-again_example :
    let once = ensure_bridge commands bridge bare in
    let twice = ensure_bridge commands bridge once.0 in
    (once.1 ≡ none) × (twice.1 ≡ none) × Ruled bridge once.0 × SameRules once.0 twice.0
unfolding bytes_eq
ensure_bridge-again_example = ensure_bridge-again commands bridge bare all_work refl
