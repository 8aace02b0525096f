-- ===== src/Control/Tests/Jails.antt =====
-- A launch through the jailer.
use microvm_terminal.Base.{◌≡◌, refl, true, Option, none, some, [], ◌∷◌, ◌++◌, Bytes, bytes, arith}
use microvm_terminal.Base.Decimal.{decimal}
use microvm_terminal.Base.Int64.{pos}
use microvm_terminal.Base.Result.{ok}
use microvm_terminal.Base.Split.{split}
use microvm_terminal.Control.Firecracker.{LaunchSpec, Steps}
use microvm_terminal.Control.Jailer.{
  JailedSpec, split_colon, script_args, process_of, with_defaults, with_user, launch_jailed,
  lookup_user,
}
use microvm_terminal.Control.Jailer.Script.{initial, safe_vm_id, parse_args}
use microvm_terminal.Control.Jailer.Script.Launches.{Understood, launch_jailed-Understood}
use microvm_terminal.Control.Jailer.Script.Reads.{settings_of, parse_args-script_args}
use microvm_terminal.Control.Jailer.Passwd.{lookup_user-passwd}
use microvm_terminal.Control.Jailer.Split.{split_colon-split}

abbrev plain : LaunchSpec
plain = record {
  binary_path = bytes "/usr/local/bin/firecracker";
  vm_dir = bytes "/var/vm/a-1";
  kernel_path = bytes "/var/vmlinux";
  rootfs_path = bytes "/var/vm/a-1/rootfs.ext4";
  vcpu_count = pos 2;
  mem_mib = pos 1024;
  tap_name = bytes "tap-fc1";
  guest_mac = bytes "02:00:00:00:00:01";
  boot_args = bytes "console=ttyS0 --vcpu 9";
  vsock_cid = 100;
  vsock_uds = bytes "/var/vm/a-1/fc.vsock";
}

abbrev jail : JailedSpec
jail = record {
  launch_spec = plain;
  jailer_bin = [];
  jailer_user = [];
  jailer_uid = pos 999;
  jailer_gid = pos 998;
  vm_id = bytes "a-1";
  cpu_quota_micros = pos 0;
  mem_bytes = pos 0;
  seccomp_profile = [];
  chroot_base = [];
}

abbrev all_start : Steps
all_start = record { mkdir = true; writes = true; pipes = true; starts = true }

abbrev no_user : Bytes → Option Bytes
no_user name = none

abbrev line : Bytes
line = bytes "microvm:x:999:998::/:/bin/false\n"

split_colon-split_example : split_colon line ≡ split b':' line
split_colon-split_example = split_colon-split line

parse_args-script_args_example : parse_args (script_args jail) initial ≡ ok (settings_of jail)
parse_args-script_args_example = parse_args-script_args jail

starts : launch_jailed jail no_user all_start ≡ ok (process_of (with_defaults jail))
unfolding launch_jailed with_user with_defaults
starts = refl

launch_jailed-Understood_example : Understood jail (process_of (with_defaults jail))
unfolding safe_vm_id
launch_jailed-Understood_example =
    launch_jailed-Understood jail no_user all_start (process_of (with_defaults jail)) refl
      (refl, refl, refl, refl) starts

lookup_user-passwd_example :
    lookup_user (
      some (
        bytes "fc"
        ++ b':'
          ∷ (bytes "x"
              ++ b':'
                ∷ (decimal 123 ++ b':' ∷ (decimal 100 ++ b':' ∷ bytes "vm:/home/fc:/bin/sh")))))
    ≡ ok (pos 123, pos 100)
lookup_user-passwd_example =
    lookup_user-passwd (bytes "fc") (bytes "x") 123 100 (bytes "vm:/home/fc:/bin/sh") refl refl
      (omega arith) (omega arith)
