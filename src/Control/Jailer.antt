-- ===== src/Control/Jailer.antt =====
-- control-plane/internal/vm/jailer.go: the launch through jailer.sh. What getent prints and which file
-- operation, pipe and start succeeds are arguments.
pub mod Split
pub mod Passwd
pub mod Script
use microvm_terminal.Base.{
  ℕ, ◌+◌, ◌-◌, ◌^◌, Bool, true, false, ◌&&◌, ◌||◌, not, Option, none, some, List, [], ◌∷◌, ◌++◌,
  Bytes, bytes, nat_eq, length, take, drop, ltb, get_elem?, if◌then◌else◌,
}
use microvm_terminal.Base.Decimal.{decimal}
use microvm_terminal.Base.Int64.{ℤ, pos, negsuc}
use microvm_terminal.Base.Numerals.{parse_int, itoa}
use microvm_terminal.Base.Result.{Result, ok, err}
use microvm_terminal.Control.Firecracker.{LaunchSpec, Steps, or_default, join_path}

pub record JailedSpec : Type 0 where
  pub launch_spec : LaunchSpec
  pub jailer_bin : Bytes
  pub jailer_user : Bytes
  pub jailer_uid : ℤ
  pub jailer_gid : ℤ
  pub vm_id : Bytes
  pub cpu_quota_micros : ℤ
  pub mem_bytes : ℤ
  pub seccomp_profile : Bytes
  pub chroot_base : Bytes

pub data Error : Type 0 where
  vm_id_required getent_failed unexpected_output bad_uid bad_gid : Error
  mkdir_failed pipe_failed start_failed : Error

pub record Process : Type 0 where
  pub argv : List Bytes
  pub vm_dir : Bytes
  pub vm_id : Bytes
  pub chroot : Bytes

-- From the byte at `i`, with the part that begins at `start`.
unfoldable pub split_loop : Bytes → ℕ → ℕ → Bytes → List Bytes
split_loop s start i [] = drop start s ∷ []
split_loop s start i (c ∷ cs) =
    let rest = split_loop s (if nat_eq c b':' then i + 1 else start) (i + 1) cs in
    if nat_eq c b':' then take (i - start) (drop start s) ∷ rest else rest

unfoldable pub split_colon : Bytes → List Bytes
split_colon s = split_loop s 0 0 s

abbrev pub ids_of : Option ℤ → Option ℤ → Result Error (ℤ × ℤ)
ids_of none gid = err bad_uid
ids_of (some uid) none = err bad_gid
ids_of (some uid) (some gid) = ok (uid, gid)

abbrev pub atoi_of : Option Bytes → Option ℤ
atoi_of none = none
atoi_of (some text) = parse_int text

abbrev pub ids_in : List Bytes → Result Error (ℤ × ℤ)
ids_in parts =
    if ltb (length parts) 4
    then err unexpected_output
    else ids_of (atoi_of (get_elem? parts 2)) (atoi_of (get_elem? parts 3))

unfoldable pub lookup_user : Option Bytes → Result Error (ℤ × ℤ)
lookup_user none = err getent_failed
lookup_user (some out) = ids_in (split_colon out)

abbrev pub is_zero : ℤ → Bool
is_zero (pos n) = nat_eq n 0
is_zero (negsuc n) = false

abbrev pub or_number : ℤ → ℤ → ℤ
or_number value n = if is_zero n then value else n

unfoldable pub with_defaults : JailedSpec → JailedSpec
with_defaults spec = record spec {
  jailer_bin = or_default (bytes "/usr/local/libexec/microvm-terminal/jailer.sh") spec.jailer_bin;
  chroot_base = or_default (bytes "/srv/jailer") spec.chroot_base;
  cpu_quota_micros = or_number (pos 100_000) spec.cpu_quota_micros;
  mem_bytes = or_number (pos (2 ^ 30)) spec.mem_bytes;
  jailer_user = or_default (bytes "microvm") spec.jailer_user;
}

abbrev pub with_ids : JailedSpec → Result Error (ℤ × ℤ) → Result Error JailedSpec
with_ids spec (err e) = err e
with_ids spec (ok (uid, gid)) = ok (record spec {
  jailer_uid = or_number uid spec.jailer_uid;
  jailer_gid = or_number gid spec.jailer_gid;
})

-- `getent` is what getent prints for a user; it is asked only for an id of 0.
unfoldable pub with_user : JailedSpec → (Bytes → Option Bytes) → Result Error JailedSpec
with_user spec getent =
    if is_zero spec.jailer_uid || is_zero spec.jailer_gid
    then with_ids spec (lookup_user (getent spec.jailer_user))
    else ok spec

abbrev pub when_set : Bytes → List Bytes → List Bytes
when_set [] args = []
when_set (c ∷ cs) args = args

unfoldable pub base_args : JailedSpec → List Bytes
base_args spec =
    bytes "--vm-id"
    ∷ spec.vm_id
    ∷ bytes "--uid"
    ∷ itoa spec.jailer_uid
    ∷ bytes "--gid"
    ∷ itoa spec.jailer_gid
    ∷ bytes "--chroot-base"
    ∷ spec.chroot_base
    ∷ bytes "--cpu-quota-us"
    ∷ itoa spec.cpu_quota_micros
    ∷ bytes "--mem-bytes"
    ∷ itoa spec.mem_bytes
    ∷ bytes "--kernel"
    ∷ spec.launch_spec.kernel_path
    ∷ bytes "--rootfs"
    ∷ spec.launch_spec.rootfs_path
    ∷ bytes "--vm-dir"
    ∷ spec.launch_spec.vm_dir
    ∷ bytes "--firecracker-bin"
    ∷ spec.launch_spec.binary_path
    ∷ []

unfoldable pub vsock_args : LaunchSpec → List Bytes
vsock_args l = bytes "--vsock-uds" ∷ l.vsock_uds ∷ bytes "--vsock-cid" ∷ decimal l.vsock_cid ∷ []

unfoldable pub tap_args : LaunchSpec → List Bytes
tap_args l = bytes "--tap" ∷ l.tap_name ∷ bytes "--guest-mac" ∷ l.guest_mac ∷ []

-- Behind the name of the script.
unfoldable pub script_args : JailedSpec → List Bytes
script_args spec =
    let l = spec.launch_spec in
    base_args spec
    ++ (when_set spec.seccomp_profile (bytes "--seccomp-profile" ∷ spec.seccomp_profile ∷ [])
        ++ (when_set l.vsock_uds (vsock_args l)
            ++ (when_set l.tap_name (tap_args l)
                ++ (when_set l.boot_args (bytes "--boot-args" ∷ l.boot_args ∷ [])
                    ++ bytes "--vcpu"
                      ∷ itoa l.vcpu_count
                      ∷ bytes "--mem-mib"
                      ∷ itoa l.mem_mib
                      ∷ []))))

-- The handle of a process that has been started with the arguments.
unfoldable pub process_of : JailedSpec → Process
process_of spec = record {
  argv = bytes "/usr/bin/env" ∷ bytes "bash" ∷ spec.jailer_bin ∷ script_args spec;
  vm_dir = spec.launch_spec.vm_dir;
  vm_id = spec.vm_id;
  chroot =
      join_path (join_path (join_path spec.chroot_base (bytes "firecracker")) spec.vm_id)
        (bytes "root");
}

abbrev pub started : Steps → Result Error JailedSpec → Result Error Process
started w (err e) = err e
started w (ok spec) =
    if not w.mkdir
    then err mkdir_failed
    else if not w.pipes
    then err pipe_failed
    else if not w.starts
    then err start_failed
    else ok (process_of spec)

abbrev pub launched_as : JailedSpec → (Bytes → Option Bytes) → Steps → Bytes → Result Error Process
launched_as spec getent w [] = err vm_id_required
launched_as spec getent w (c ∷ id) = started w (with_user (with_defaults spec) getent)

unfoldable pub launch_jailed : JailedSpec → (Bytes → Option Bytes) → Steps → Result Error Process
launch_jailed spec getent w = launched_as spec getent w spec.vm_id
