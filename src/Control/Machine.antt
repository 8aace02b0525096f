-- ===== src/Control/Machine.antt =====
-- control-plane/internal/session/manager.go: what Create has Firecracker start, and launchVM, with the
-- choice between the jailer and a plain launch.
use microvm_terminal.Base.{ℕ, Bool, true, false, Option, ◌++◌, Bytes, bytes}
use microvm_terminal.Base.Decimal.{decimal}
use microvm_terminal.Base.Result.{Result, ok, err}
use microvm_terminal.Control.Config.{Config, jailer_cpu_quota_micros, jailer_mem_bytes}
use microvm_terminal.Control.Firecracker
use microvm_terminal.Control.Firecracker.{LaunchSpec, Steps, join_path}
use microvm_terminal.Control.Jailer
use microvm_terminal.Control.Jailer.{JailedSpec, launch_jailed}
use microvm_terminal.Control.Manager.{Session}

abbrev pub guest_vsock_port : ℕ
guest_vsock_port = 5555

-- "... mvt.session_token=<token> mvt.vsock_port=<port>".
unfoldable pub boot_args : Bytes → Bytes
boot_args token =
    bytes "console=ttyS0 reboot=k panic=1 pci=off rw "
    ++ (bytes "mvt.session_token="
        ++ (token ++ (bytes " mvt.vsock_port=" ++ decimal guest_vsock_port)))

unfoldable pub spec_of : Config → Session → LaunchSpec
spec_of cfg s =
    let vm_dir = join_path cfg.vm_data_dir s.id in
    record {
      binary_path = cfg.firecracker_bin;
      vm_dir = vm_dir;
      kernel_path = cfg.kernel_path;
      rootfs_path = join_path vm_dir (bytes "rootfs.ext4");
      vcpu_count = cfg.vm.vcpu;
      mem_mib = cfg.vm.mem_mib;
      tap_name = s.tap;
      guest_mac = s.mac;
      boot_args = boot_args s.session_token;
      vsock_cid = s.cid;
      vsock_uds = join_path vm_dir (bytes "fc.vsock");
    }

unfoldable pub jailed_spec : Config → Bytes → LaunchSpec → JailedSpec
jailed_spec cfg sid spec = record {
  launch_spec = spec;
  jailer_bin = cfg.jailer.script;
  jailer_user = cfg.jailer.user;
  jailer_uid = cfg.jailer.uid;
  jailer_gid = cfg.jailer.gid;
  vm_id = sid;
  cpu_quota_micros = jailer_cpu_quota_micros cfg;
  mem_bytes = jailer_mem_bytes cfg;
  seccomp_profile = cfg.jailer.seccomp_profile;
  chroot_base = cfg.jailer.chroot_base;
}

pub data VmProcess : Type 0 where
  jailed : Jailer.Process → VmProcess
  direct : Firecracker.Process → VmProcess

pub data Error : Type 0 where
  jailer_error : Jailer.Error → Error
  firecracker_error : Firecracker.Error → Error

abbrev pub in_jail : Result Jailer.Error Jailer.Process → Result Error VmProcess
in_jail (err e) = err (jailer_error e)
in_jail (ok p) = ok (jailed p)

abbrev pub in_plain : Result Firecracker.Error Firecracker.Process → Result Error VmProcess
in_plain (err e) = err (firecracker_error e)
in_plain (ok p) = ok (direct p)

abbrev pub launched_in :
    Bool → Config → Bytes → LaunchSpec → (Bytes → Option Bytes) → Steps → Result Error VmProcess
launched_in true cfg sid spec getent w = in_jail (launch_jailed (jailed_spec cfg sid spec) getent w)
launched_in false cfg sid spec getent w = in_plain (Firecracker.launch spec w)

unfoldable pub launch_vm :
    Config → Bytes → LaunchSpec → (Bytes → Option Bytes) → Steps → Result Error VmProcess
launch_vm cfg sid spec getent w = launched_in cfg.jailer.enabled cfg sid spec getent w
