-- ===== src/Control/Bridge.antt =====
-- control-plane/internal/firecracker/network.go (EnsureBridge) and NewManager with its
-- detectUpstreamIface in control-plane/internal/session/manager.go. Which command works is an
-- argument; a rule of iptables is the list of its arguments, and IP forwarding is not modelled.
pub mod Restarts
use microvm_terminal.Base.{
  ℕ, Bool, true, false, ◌&&◌, ◌||◌, not, Option, none, some, List, [], ◌∷◌, ◌++◌, Bytes, bytes,
  bytes_eq, if◌then◌else◌,
}
use microvm_terminal.Base.Decimal.{decimal}
use microvm_terminal.Base.Fields.{fields}
use microvm_terminal.Base.Map
use microvm_terminal.Base.Map.{GoMap}
use microvm_terminal.Base.Result.{Result, ok, err}
use microvm_terminal.Base.Text.{bytes-eq}

abbrev pub Rule : Type 0
Rule = List Bytes

-- A bridge with its addresses and whether it is up.
pub record Link : Type 0 where
  pub addrs : List Bytes
  pub up : Bool

pub record Network : Type 0 where
  pub links : GoMap Bytes Link
  pub postrouting : List Rule
  pub forward : List Rule

-- The texts of the address and the subnet are arguments.
pub record Inputs : Type 0 where
  pub bridge_name : Bytes
  pub host_addr : Bytes
  pub prefix_len : ℕ
  pub subnet : Bytes
  pub upstream_iface : Bytes

-- Which command that changes something works.
pub record Commands : Type 0 where
  pub link_adds : Bool
  pub addr_replaces : Bool
  pub link_goes_up : Bool
  pub nat_adds : Bool
  pub forward_in_adds : Bool
  pub forward_out_adds : Bool

pub data Error : Type 0 where
  bridge_failed bridge_addr_failed bridge_up_failed upstream_required nat_add_failed : Error

abbrev pub rule_eq : Rule → Rule → Bool
rule_eq [] [] = true
rule_eq [] (b ∷ bs) = false
rule_eq (a ∷ xs) [] = false
rule_eq (a ∷ xs) (b ∷ bs) = bytes_eq a b && rule_eq xs bs

-- iptables -C.
abbrev pub has_rule : Rule → List Rule → Bool
has_rule r [] = false
has_rule r (x ∷ xs) = rule_eq x r || has_rule r xs

-- `works` says that iptables -A does.
unfoldable pub add_if_missing : Bool → Rule → List Rule → List Rule
add_if_missing works r rules =
    if has_rule r rules then rules else if works then rules ++ r ∷ [] else rules

abbrev pub masquerade : Inputs → Rule
masquerade i =
    bytes "-s" ∷ i.subnet ∷ bytes "-o" ∷ i.upstream_iface ∷ bytes "-j" ∷ bytes "MASQUERADE" ∷ []

abbrev pub forward_in : Inputs → Rule
forward_in i = bytes "-i" ∷ i.bridge_name ∷ bytes "-j" ∷ bytes "ACCEPT" ∷ []

abbrev pub forward_out : Inputs → Rule
forward_out i =
    bytes "-o"
    ∷ i.bridge_name
    ∷ bytes "-m"
    ∷ bytes "state"
    ∷ bytes "--state"
    ∷ bytes "RELATED,ESTABLISHED"
    ∷ bytes "-j"
    ∷ bytes "ACCEPT"
    ∷ []

abbrev pub linked : GoMap Bytes Link → Bytes → Option Link → GoMap Bytes Link
linked links name none = Map.insert name (record { addrs = []; up = false }) links
linked links name (some l) = links

abbrev pub is_there : Option Link → Bool
is_there none = false
is_there (some l) = true

-- ensureLink, without its error.
unfoldable pub ensure_link : GoMap Bytes Link → Bytes → GoMap Bytes Link
ensure_link links name = linked links name (Map.lookup name links)

abbrev pub forwarded : Commands → Inputs → Network → Network
forwarded c i n = record n {
  forward =
      add_if_missing c.forward_out_adds (forward_out i)
        (add_if_missing c.forward_in_adds (forward_in i) n.forward);
}

-- The rules, once the bridge is there.
unfoldable pub with_rules : Commands → Inputs → Network → Network × Option Error
unfolding add_if_missing
with_rules c i n =
    let nat = record n { postrouting = add_if_missing c.nat_adds (masquerade i) n.postrouting } in
    if bytes_eq i.upstream_iface []
    then (n, some upstream_required)
    else if has_rule (masquerade i) n.postrouting || c.nat_adds
    then (forwarded c i nat, none)
    else (n, some nat_add_failed)

abbrev pub has_addr : Bytes → List Bytes → Bool
has_addr a [] = false
has_addr a (b ∷ bs) = bytes_eq b a || has_addr a bs

abbrev pub set_addr : Bytes → Link → Link
set_addr a l = record l { addrs = if has_addr a l.addrs then l.addrs else l.addrs ++ a ∷ [] }

abbrev pub set_up : Link → Link
set_up l = record l { up = true }

abbrev pub on_link : (Link → Link) → GoMap Bytes Link → Bytes → Option Link → GoMap Bytes Link
on_link change links name none = links
on_link change links name (some l) = Map.insert name (change l) links

unfoldable pub change_link : (Link → Link) → Bytes → Network → Network
change_link change name n = record n {
  links = on_link change n.links name (Map.lookup name n.links);
}

unfoldable pub addr_cidr : Inputs → Bytes
addr_cidr i = i.host_addr ++ b'/' ∷ decimal i.prefix_len

-- The bridge is there, has its address, and is up.
abbrev pub there : Inputs → Network → Network
there i n = record n { links = ensure_link n.links i.bridge_name }

abbrev pub named : Inputs → Network → Network
named i n = change_link (set_addr (addr_cidr i)) i.bridge_name (there i n)

abbrev pub ready : Inputs → Network → Network
ready i n = change_link set_up i.bridge_name (named i n)

unfoldable pub ensure_bridge : Commands → Inputs → Network → Network × Option Error
unfolding ensure_link with_rules addr_cidr change_link
ensure_bridge c i n =
    if not (is_there (Map.lookup i.bridge_name n.links) || c.link_adds)
    then (n, some bridge_failed)
    else if not c.addr_replaces
    then (there i n, some bridge_addr_failed)
    else if not c.link_goes_up
    then (named i n, some bridge_up_failed)
    else with_rules c i (ready i n)

-- The word behind the first "dev".
unfoldable pub dev_of : List Bytes → Option Bytes
dev_of [] = none
dev_of (f ∷ []) = none
dev_of (f ∷ g ∷ more) =
    let rest = dev_of (g ∷ more) in if bytes_eq f (bytes "dev") then some g else rest

abbrev pub upstream_in : Option Bytes → Option Bytes
upstream_in none = none
upstream_in (some out) = dev_of (fields out)

-- `out` is what "ip route" prints, if it works.
unfoldable pub detect_upstream_iface : Option Bytes → Option Bytes
detect_upstream_iface out = upstream_in out

pub data ManagerError : Type 0 where
  netalloc_failed detect_failed : ManagerError
  ensure_failed : Error → ManagerError

abbrev pub ensured : Network × Option Error → Network × Option ManagerError
ensured (n, none) = (n, none)
ensured (n, some e) = (n, some (ensure_failed e))

abbrev pub with_upstream :
    Commands → (Bytes → Inputs) → Network → Option Bytes → Network × Option ManagerError
with_upstream c inputs n none = (n, some detect_failed)
with_upstream c inputs n (some iface) = ensured (ensure_bridge c (inputs iface) n)

-- `cidr_works` says that the configured prefix makes an allocator, and `inputs` is what EnsureBridge is
-- called with for an upstream interface.
unfoldable pub new_manager :
    Bool → Option Bytes → Commands → (Bytes → Inputs) → Network → Network × Option ManagerError
new_manager cidr_works out c inputs n =
    if cidr_works
    then with_upstream c inputs n (detect_upstream_iface out)
    else (n, some netalloc_failed)
