-- ===== src/Control/Manager.antt =====
-- control-plane/internal/session/manager.go with CreateTAP and DeleteTAP of
-- control-plane/internal/firecracker/network.go: the machines and what each of them holds on the
-- host. The outcome of each command, file operation and launch of a Create is in the record World, and
-- that of what a Destroy removes in Removal. The end of a process that was told to stop, and the log,
-- are not modelled. A directory is known by the id of its session.
pub mod Holdings
pub mod Endings
pub mod Lifetimes
use microvm_terminal.Base.{
  ℕ, ◌+◌, Bool, true, false, ◌&&◌, ◌||◌, Option, none, some, List, [], ◌∷◌, ◌++◌, Bytes, bytes,
  length, take, ltb, leb, if◌then◌else◌,
}
use microvm_terminal.Base.Hex.{hex_encode}
use microvm_terminal.Base.Map
use microvm_terminal.Base.Map.{GoMap}
use microvm_terminal.Base.Result.{Result, ok, err}
use microvm_terminal.Base.Text.{bytes-eq}
use microvm_terminal.Base.Trim.{trim_space}
use microvm_terminal.Control.Netalloc
use microvm_terminal.Control.Netalloc.{Allocator, Lease, marked}

pub record Session : Type 0 where
  pub id : Bytes
  pub ip : ℕ
  pub mac : Bytes
  pub tap : Bytes
  pub hostname : Bytes
  pub session_token : Bytes
  pub cid : ℕ

-- The manager with the part of the host that it changes: TAP devices and directories. `stopped` are
-- the ids of the sessions whose done channel was closed and whose process was told to stop.
pub record Manager : Type 0 where
  pub max_concurrent : ℕ
  pub allocator : Allocator
  pub sessions : GoMap Bytes Session
  pub taps : GoMap Bytes Bool
  pub dirs : GoMap Bytes Bool
  pub stopped : List Bytes

pub data Error : Type 0 where
  at_capacity not_found : Error
  alloc_net : Netalloc.Error → Error
  create_tap_failed rand_failed mkdir_failed token_file_failed rootfs_failed launch_failed : Error

-- Whether `ip link del` and os.RemoveAll succeed: the code ignores their errors, and a device or a
-- directory that could not be removed stays.
pub record Removal : Type 0 where
  pub deletes_tap : Bool
  pub removes_dir : Bool

-- What happens around one Create: `removal` is for what a Create that fails takes back.
pub record World : Type 0 where
  pub tuntap_adds : Bool
  pub tap_attaches : Bool
  pub tap_goes_up : Bool
  pub random : Option Bytes
  pub sid : Bytes
  pub mkdir : Bool
  pub token_file : Option Bytes
  pub prepares : Bool
  pub launches : Bool
  pub removal : Removal

-- The TAP devices afterwards, and whether there was no error.
unfoldable pub create_tap : GoMap Bytes Bool → Bytes → World → GoMap Bytes Bool × Bool
create_tap taps tap w =
    if w.tuntap_adds
    then (Map.insert tap true taps, w.tap_attaches && w.tap_goes_up)
    else (taps, marked (Map.lookup tap taps) && (w.tap_attaches && w.tap_goes_up))

abbrev pub without : Bool → Bytes → GoMap Bytes Bool → GoMap Bytes Bool
without removed k m = if removed then Map.delete k m else m

unfoldable pub delete_tap : Manager → Bytes → Bool → Manager
delete_tap m tap deletes = record m { taps = without deletes tap m.taps }

unfoldable pub release_ip : Manager → ℕ → Manager
unfolding Netalloc.release
release_ip m ip = record m { allocator = Netalloc.release m.allocator ip }

unfoldable pub cleanup : Manager → World → Lease → Manager
unfolding delete_tap release_ip
cleanup m w l =
    let m' : Manager = record m { dirs = without w.removal.removes_dir w.sid m.dirs } in
    release_ip (delete_tap m' l.tap w.removal.deletes_tap) l.ip

unfoldable pub short_id : Bytes → Bytes
short_id id = if ltb (length id) 8 then id else take 8 id

unfoldable pub session_of : World → Lease → Bytes → Session
unfolding short_id hex_encode
session_of w l token = record {
  id = w.sid;
  ip = l.ip;
  mac = l.mac;
  tap = l.tap;
  hostname = bytes "vm-" ++ short_id w.sid;
  session_token = hex_encode token;
  cid = l.cid;
}

-- launchVM and what follows.
unfoldable pub launched : Manager → World → Lease → Bytes → Manager × Result Error Session
launched m w l token =
    if w.launches
    then (
      record m { sessions = Map.insert w.sid (session_of w l token) m.sessions },
      ok (session_of w l token),
    )
    else (cleanup m w l, err launch_failed)

-- From the directory on every failure cleans up.
unfoldable pub with_dir :
    Manager → World → Lease → Bytes → Option Bytes → Manager × Result Error Session
with_dir m w l token none = (cleanup m w l, err token_file_failed)
with_dir m w l token (some file) =
    if w.prepares then launched m w l token else (cleanup m w l, err rootfs_failed)

unfoldable pub with_random : Manager → World → Lease → Option Bytes → Manager × Result Error Session
with_random m w l none =
    (release_ip (delete_tap m l.tap w.removal.deletes_tap) l.ip, err rand_failed)
with_random m w l (some token) =
    if w.mkdir
    then with_dir (record m { dirs = Map.insert w.sid true m.dirs }) w l token w.token_file
    else (release_ip (delete_tap m l.tap w.removal.deletes_tap) l.ip, err mkdir_failed)

unfoldable pub with_tap :
    Manager → World → Lease → GoMap Bytes Bool × Bool → Manager × Result Error Session
with_tap m w l (taps, created) =
    let m' : Manager = record m { taps = taps } in
    if created then with_random m' w l w.random else (release_ip m' l.ip, err create_tap_failed)

unfoldable pub with_lease :
    Manager → World → Allocator × Result Netalloc.Error Lease → Manager × Result Error Session
with_lease m w (a, err e) = (record m { allocator = a }, err (alloc_net e))
with_lease m w (a, ok l) = with_tap (record m { allocator = a }) w l (create_tap m.taps l.tap w)

unfoldable pub create : Manager → World → Manager × Result Error Session
create m w =
    if leb m.max_concurrent (length m.sessions)
    then (m, err at_capacity)
    else with_lease m w (Netalloc.alloc m.allocator)

abbrev pub destroyed : Manager → Bytes → Removal → Option Session → Manager × Option Error
destroyed m id r none = (m, some not_found)
destroyed m id r (some s) = (
  record m {
    allocator = Netalloc.release m.allocator s.ip;
    sessions = Map.delete id m.sessions;
    taps = without r.deletes_tap s.tap m.taps;
    dirs = without r.removes_dir s.id m.dirs;
    stopped = id ∷ m.stopped;
  },
  none,
)

unfoldable pub destroy : Manager → Bytes → Removal → Manager × Option Error
destroy m id r = destroyed m id r (Map.lookup id m.sessions)

-- With the ids of the sessions, and what becomes of the removals of each.
unfoldable pub shutdown : Manager → List Bytes → (Bytes → Removal) → Manager
unfolding destroy
shutdown m [] removal = m
shutdown m (id ∷ ids) removal = shutdown (destroy m id (removal id)).0 ids removal

unfoldable pub get : Manager → Bytes → Option Session
get m id = Map.lookup id m.sessions

abbrev pub count : Manager → ℕ
count m = length m.sessions

-- The goroutine of Create, once the process has ended.
unfoldable pub process_ended : Manager → Bytes → Removal → Manager
unfolding destroy
process_ended m id r = (destroy m id r).0
