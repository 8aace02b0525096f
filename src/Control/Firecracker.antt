-- ===== src/Control/Firecracker.antt =====
-- control-plane/internal/firecracker/launcher.go: Launch and Stop. Which file operation, pipe and
-- start succeeds is an argument. A path is joined to a clean directory.
use microvm_terminal.Base.{
  ℕ, Bool, true, false, ◌&&◌, not, Option, none, some, List, [], ◌∷◌, ◌++◌, Bytes, bytes, bytes_eq,
  ltb, if◌then◌else◌,
}
use microvm_terminal.Base.Int64.{ℤ}
use microvm_terminal.Base.Result.{Result, ok, err}

pub record LaunchSpec : Type 0 where
  pub binary_path : Bytes
  pub vm_dir : Bytes
  pub kernel_path : Bytes
  pub rootfs_path : Bytes
  pub vcpu_count : ℤ
  pub mem_mib : ℤ
  pub tap_name : Bytes
  pub guest_mac : Bytes
  pub boot_args : Bytes
  pub vsock_cid : ℕ
  pub vsock_uds : Bytes

pub record FcVsock : Type 0 where
  pub guest_cid : ℕ
  pub uds_path : Bytes

pub record FcConfig : Type 0 where
  pub kernel_image_path : Bytes
  pub boot_args : Bytes
  pub drive_id : Bytes
  pub path_on_host : Bytes
  pub is_root_device : Bool
  pub is_read_only : Bool
  pub iface_id : Bytes
  pub guest_mac : Bytes
  pub host_dev_name : Bytes
  pub vcpu_count : ℤ
  pub mem_size_mib : ℤ
  pub smt : Bool
  pub vsock : Option FcVsock

pub data Error : Type 0 where
  mkdir_failed write_failed pipe_failed start_failed : Error

-- A command that was started, with the configuration in its directory.
pub record Process : Type 0 where
  pub argv : List Bytes
  pub config : FcConfig
  pub sock_dir : Bytes

pub record Steps : Type 0 where
  pub mkdir : Bool
  pub writes : Bool
  pub pipes : Bool
  pub starts : Bool

unfoldable pub join_path : Bytes → Bytes → Bytes
join_path [] name = name
join_path (c ∷ dir) name = (c ∷ dir) ++ b'/' ∷ name

abbrev pub or_default : Bytes → Bytes → Bytes
or_default value [] = value
or_default value (c ∷ cs) = c ∷ cs

unfoldable pub fc_config : LaunchSpec → FcConfig
fc_config spec = record {
  kernel_image_path = spec.kernel_path;
  boot_args = or_default (bytes "console=ttyS0 reboot=k panic=1 pci=off rw") spec.boot_args;
  drive_id = bytes "rootfs";
  path_on_host = spec.rootfs_path;
  is_root_device = true;
  is_read_only = false;
  iface_id = bytes "eth0";
  guest_mac = spec.guest_mac;
  host_dev_name = spec.tap_name;
  vcpu_count = spec.vcpu_count;
  mem_size_mib = spec.mem_mib;
  smt = false;
  vsock =
      if ltb 0 spec.vsock_cid && not (bytes_eq spec.vsock_uds [])
      then some (record { guest_cid = spec.vsock_cid; uds_path = spec.vsock_uds })
      else none;
}

unfoldable pub launch : LaunchSpec → Steps → Result Error Process
launch spec w =
    if not w.mkdir
    then err mkdir_failed
    else if not w.writes
    then err write_failed
    else if not w.pipes
    then err pipe_failed
    else if not w.starts
    then err start_failed
    else ok (record {
      argv =
          spec.binary_path
          ∷ bytes "--api-sock"
          ∷ join_path spec.vm_dir (bytes "fc.sock")
          ∷ bytes "--config-file"
          ∷ join_path spec.vm_dir (bytes "vm.json")
          ∷ [];
      config = fc_config spec;
      sock_dir = spec.vm_dir;
    })

-- What Stop does to a process, in turn; vm/jailer.go has the same Stop.
pub data Action : Type 0 where
  sigterm kill reap close_stdin close_stdout : Action

-- `exists` says that the process was started, `in_time` that it ends within five seconds.
unfoldable pub stop : Bool → Bool → List Action
stop false in_time = []
stop true true = sigterm ∷ reap ∷ close_stdin ∷ close_stdout ∷ []
stop true false = sigterm ∷ kill ∷ reap ∷ close_stdin ∷ close_stdout ∷ []
