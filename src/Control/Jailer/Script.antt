-- ===== src/Control/Jailer/Script.antt =====
-- infra/jailer/jailer.sh: how the script reads its arguments and what it makes of them. A text of the
-- shell is a list of bytes; a flag without a value stops the script, as an unset variable does. The
-- directories, the cgroup's files and the copies that it makes are not modelled.
pub mod Reads
pub mod Launches
use microvm_terminal.Base.{
  ℕ, Bool, true, false, ◌&&◌, ◌||◌, not, Option, none, some, List, [], ◌∷◌, ◌++◌, Bytes, bytes,
  bytes_eq, nat_eq, leb, take, if◌then◌else◌,
}
use microvm_terminal.Base.Result.{Result, ok, err}

pub record Settings : Type 0 where
  pub vm_id : Bytes
  pub uid : Bytes
  pub gid : Bytes
  pub chroot_base : Bytes
  pub cpu_quota_us : Bytes
  pub mem_bytes : Bytes
  pub kernel : Bytes
  pub rootfs : Bytes
  pub vm_dir : Bytes
  pub firecracker_bin : Bytes
  pub seccomp_profile : Bytes
  pub vsock_uds : Bytes
  pub vsock_cid : Bytes
  pub tap : Bytes
  pub guest_mac : Bytes
  pub boot_args : Bytes
  pub vcpu : Bytes
  pub mem_mib : Bytes

unfoldable pub initial : Settings
initial = record {
  vm_id = [];
  uid = [];
  gid = [];
  chroot_base = bytes "/srv/jailer";
  cpu_quota_us = bytes "100000";
  mem_bytes = bytes "1073741824";
  kernel = [];
  rootfs = [];
  vm_dir = [];
  firecracker_bin = bytes "/usr/local/bin/firecracker";
  seccomp_profile = [];
  vsock_uds = [];
  vsock_cid = [];
  tap = [];
  guest_mac = [];
  boot_args = [];
  vcpu = bytes "1";
  mem_mib = bytes "1024";
}

pub data ScriptError : Type 0 where
  unbound_variable unknown_arg missing_required : ScriptError

-- The arms of the `case`; none is a flag that no arm takes.
unfoldable pub assign : Bytes → Bytes → Settings → Option Settings
assign flag v s =
    if bytes_eq flag (bytes "--vm-id")
    then some (record s { vm_id = v })
    else if bytes_eq flag (bytes "--uid")
    then some (record s { uid = v })
    else if bytes_eq flag (bytes "--gid")
    then some (record s { gid = v })
    else if bytes_eq flag (bytes "--chroot-base")
    then some (record s { chroot_base = v })
    else if bytes_eq flag (bytes "--cpu-quota-us")
    then some (record s { cpu_quota_us = v })
    else if bytes_eq flag (bytes "--mem-bytes")
    then some (record s { mem_bytes = v })
    else if bytes_eq flag (bytes "--kernel")
    then some (record s { kernel = v })
    else if bytes_eq flag (bytes "--rootfs")
    then some (record s { rootfs = v })
    else if bytes_eq flag (bytes "--vm-dir")
    then some (record s { vm_dir = v })
    else if bytes_eq flag (bytes "--firecracker-bin")
    then some (record s { firecracker_bin = v })
    else if bytes_eq flag (bytes "--seccomp-profile")
    then some (record s { seccomp_profile = v })
    else if bytes_eq flag (bytes "--vsock-uds")
    then some (record s { vsock_uds = v })
    else if bytes_eq flag (bytes "--vsock-cid")
    then some (record s { vsock_cid = v })
    else if bytes_eq flag (bytes "--tap")
    then some (record s { tap = v })
    else if bytes_eq flag (bytes "--guest-mac")
    then some (record s { guest_mac = v })
    else if bytes_eq flag (bytes "--boot-args")
    then some (record s { boot_args = v })
    else if bytes_eq flag (bytes "--vcpu")
    then some (record s { vcpu = v })
    else if bytes_eq flag (bytes "--mem-mib")
    then some (record s { mem_mib = v })
    else none

abbrev pub without_value : Option Settings → ScriptError
without_value none = unknown_arg
without_value (some s) = unbound_variable

abbrev pub settled :
    Option Settings → (Settings → Result ScriptError Settings) → Result ScriptError Settings
settled none more = err unknown_arg
settled (some s) more = more s

unfoldable pub parse_args : List Bytes → Settings → Result ScriptError Settings
parse_args [] s = ok s
parse_args (flag ∷ []) s = err (without_value (assign flag [] s))
parse_args (flag ∷ value ∷ rest) s = settled (assign flag value s) (λ s'. parse_args rest s')

abbrev pub is_set : Bytes → Bool
is_set [] = false
is_set (c ∷ cs) = true

-- The variables that must not be empty.
unfoldable pub complete : Settings → Bool
complete s =
    is_set s.vm_id
    && (is_set s.uid
        && (is_set s.gid
            && (is_set s.kernel
                && (is_set s.rootfs && (is_set s.vm_dir && is_set s.firecracker_bin)))))

abbrev pub is_safe : ℕ → Bool
is_safe c =
    (leb b'A' c && leb c b'Z')
    || ((leb b'a' c && leb c b'z') || ((leb b'0' c && leb c b'9') || nat_eq c b'-'))

abbrev pub underscored : Bytes → Bytes
underscored [] = []
underscored (c ∷ cs) = (if is_safe c then c else b'_') ∷ underscored cs

-- tr and head.
unfoldable pub safe_vm_id : Bytes → Bytes
safe_vm_id id = take 64 (underscored id)

unfoldable pub chroot_root : Settings → Bytes
chroot_root s = s.chroot_base ++ (bytes "/firecracker/" ++ (safe_vm_id s.vm_id ++ bytes "/root"))

abbrev pub completed : Result ScriptError Settings → Result ScriptError Settings
completed (err e) = err e
completed (ok s) = if complete s then ok s else err missing_required

-- What the rest of the script works with.
unfoldable pub settings : List Bytes → Result ScriptError Settings
settings args = completed (parse_args args initial)
