-- ===== src/Control/Jailer/Script/Reads.antt =====
-- The arguments that launchJailed builds, read again by the script.
use microvm_terminal.Base.{◌≡◌, refl, ◌∙◌, List, [], ◌∷◌, ◌++◌, Bytes, bytes, bytes_eq}
use microvm_terminal.Base.Decimal.{decimal}
use microvm_terminal.Base.Numerals.{itoa}
use microvm_terminal.Base.Result.{ok}
use microvm_terminal.Control.Firecracker.{LaunchSpec}
use microvm_terminal.Control.Jailer.{
  JailedSpec, when_set, base_args, vsock_args, tap_args, script_args,
}
use microvm_terminal.Control.Jailer.Script.{Settings, initial, assign, parse_args}

abbrev based : JailedSpec → Settings → Settings
based spec s = record s {
  vm_id = spec.vm_id;
  uid = itoa spec.jailer_uid;
  gid = itoa spec.jailer_gid;
  chroot_base = spec.chroot_base;
  cpu_quota_us = itoa spec.cpu_quota_micros;
  mem_bytes = itoa spec.mem_bytes;
  kernel = spec.launch_spec.kernel_path;
  rootfs = spec.launch_spec.rootfs_path;
  vm_dir = spec.launch_spec.vm_dir;
  firecracker_bin = spec.launch_spec.binary_path;
}

parse_args-base :
    (spec : JailedSpec) (rest : List Bytes) (s : Settings)
    → parse_args (base_args spec ++ rest) s ≡ parse_args rest (based spec s)
unfolding parse_args base_args assign bytes_eq
parse_args-base spec rest s = refl

abbrev or_old : Bytes → Bytes → Bytes
or_old [] old = old
or_old (c ∷ cs) old = c ∷ cs

parse_args-seccomp :
    (v : Bytes) (rest : List Bytes) (s : Settings)
    → parse_args (when_set v (bytes "--seccomp-profile" ∷ v ∷ []) ++ rest) s
      ≡ parse_args rest (record s { seccomp_profile = or_old v s.seccomp_profile })
unfolding parse_args assign bytes_eq
parse_args-seccomp [] rest s = refl
parse_args-seccomp (c ∷ cs) rest s = refl

-- `v` if the option is given for a text that is not empty.
abbrev pub given : Bytes → Bytes → Bytes → Bytes
given [] v old = old
given (c ∷ cs) v old = v

parse_args-vsock :
    (spec : LaunchSpec) (uds : Bytes) (rest : List Bytes) (s : Settings)
    → parse_args (when_set uds (vsock_args spec) ++ rest) s
      ≡ parse_args rest (record s {
        vsock_uds = given uds spec.vsock_uds s.vsock_uds;
        vsock_cid = given uds (decimal spec.vsock_cid) s.vsock_cid;
      })
unfolding parse_args assign bytes_eq vsock_args
parse_args-vsock spec [] rest s = refl
parse_args-vsock spec (c ∷ cs) rest s = refl

parse_args-tap :
    (spec : LaunchSpec) (tap : Bytes) (rest : List Bytes) (s : Settings)
    → parse_args (when_set tap (tap_args spec) ++ rest) s
      ≡ parse_args rest (record s {
        tap = given tap spec.tap_name s.tap;
        guest_mac = given tap spec.guest_mac s.guest_mac;
      })
unfolding parse_args assign bytes_eq tap_args
parse_args-tap spec [] rest s = refl
parse_args-tap spec (c ∷ cs) rest s = refl

parse_args-boot :
    (v : Bytes) (rest : List Bytes) (s : Settings)
    → parse_args (when_set v (bytes "--boot-args" ∷ v ∷ []) ++ rest) s
      ≡ parse_args rest (record s { boot_args = or_old v s.boot_args })
unfolding parse_args assign bytes_eq
parse_args-boot [] rest s = refl
parse_args-boot (c ∷ cs) rest s = refl

-- What the script has to know of a launch.
abbrev pub settings_of : JailedSpec → Settings
settings_of spec =
    let l = spec.launch_spec in
    record {
      vm_id = spec.vm_id;
      uid = itoa spec.jailer_uid;
      gid = itoa spec.jailer_gid;
      chroot_base = spec.chroot_base;
      cpu_quota_us = itoa spec.cpu_quota_micros;
      mem_bytes = itoa spec.mem_bytes;
      kernel = l.kernel_path;
      rootfs = l.rootfs_path;
      vm_dir = l.vm_dir;
      firecracker_bin = l.binary_path;
      seccomp_profile = spec.seccomp_profile;
      vsock_uds = l.vsock_uds;
      vsock_cid = given l.vsock_uds (decimal l.vsock_cid) [];
      tap = l.tap_name;
      guest_mac = given l.tap_name l.guest_mac [];
      boot_args = l.boot_args;
      vcpu = itoa l.vcpu_count;
      mem_mib = itoa l.mem_mib;
    }

or_nothing : (v : Bytes) → or_old v [] ≡ v
or_nothing [] = refl
or_nothing (c ∷ cs) = refl

given_self : (v : Bytes) → given v v [] ≡ v
given_self [] = refl
given_self (c ∷ cs) = refl

parse_args-sizes :
    (vcpu mem : Bytes) (s : Settings)
    → parse_args (bytes "--vcpu" ∷ vcpu ∷ bytes "--mem-mib" ∷ mem ∷ []) s
      ≡ ok (record s { vcpu = vcpu; mem_mib = mem })
unfolding parse_args assign bytes_eq
parse_args-sizes vcpu mem s = refl

-- The script reads every argument of a launch back: the same settings, whatever the paths, the boot
-- arguments and the other texts hold, and the options that are left out stay empty.
pub parse_args-script_args :
    (spec : JailedSpec) → parse_args (script_args spec) initial ≡ ok (settings_of spec)
unfolding script_args initial
parse_args-script_args spec =
    let l = spec.launch_spec in
    let s0 = based spec initial in
    let s1 : Settings = record s0 { seccomp_profile = or_old spec.seccomp_profile [] } in
    let s2 : Settings = record s1 {
      vsock_uds = given l.vsock_uds l.vsock_uds [];
      vsock_cid = given l.vsock_uds (decimal l.vsock_cid) [];
    } in
    let s3 : Settings = record s2 {
      tap = given l.tap_name l.tap_name [];
      guest_mac = given l.tap_name l.guest_mac [];
    } in
    parse_args-base spec _ initial
    ∙ parse_args-seccomp spec.seccomp_profile _ s0
    ∙ parse_args-vsock l l.vsock_uds _ s1
    ∙ parse_args-tap l l.tap_name _ s2
    ∙ parse_args-boot l.boot_args _ s3
    ∙ parse_args-sizes (itoa l.vcpu_count) (itoa l.mem_mib)
        (record s3 { boot_args = or_old l.boot_args [] })
    ∙ rw
        (
          or_nothing spec.seccomp_profile,
          or_nothing l.boot_args,
          given_self l.vsock_uds,
          given_self l.tap_name,
        )
        refl
