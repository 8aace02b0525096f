-- ===== src/Control/Daemon.antt =====
-- control-plane/cmd/microvm-terminal/main.go: the launcher that waits for the guest, and the end of the
-- daemon; with WaitReady of control-plane/internal/session/session.go. What ends the wait is an
-- argument. The wiring of the parts, the signals and the HTTP server are not modelled.
pub mod Launch
pub mod Exit
use microvm_terminal.Base.{
  Bool, true, false, Option, none, some, List, [], ◌∷◌, Bytes, if◌then◌else◌,
}
use microvm_terminal.Base.Map
use microvm_terminal.Base.Result.{Result, ok, err}
use microvm_terminal.Base.Text.{bytes-eq}
use microvm_terminal.Control.Config.{Config}
use microvm_terminal.Control.Host
use microvm_terminal.Control.Host.{Host, live_list}
use microvm_terminal.Control.Manager
use microvm_terminal.Control.Manager.{Manager, World, Removal, not_found}

-- What WaitReady returns with: the guest has shaken hands, the time is up, or the session has been
-- closed. Where the first two are ready, `ended` says that the process has ended too by then: the
-- select takes any case that is ready.
pub data Event : Type 0 where
  handshake deadline : (ended : Bool) → Event
  closed : Event

pub data WaitError : Type 0 where
  context_error session_closed : WaitError

-- `waits` says that the session has a channel to wait on.
unfoldable pub wait_ready : Bool → Event → Option WaitError
wait_ready false ev = none
wait_ready true (handshake ended) = none
wait_ready true (deadline ended) = some context_error
wait_ready true closed = some session_closed

pub data LaunchError : Type 0 where
  create_failed : Manager.Error → LaunchError
  boot_timeout : LaunchError

-- A session is closed by the Destroy that follows the end of its process.
abbrev pub meanwhile : Event → Manager → Bytes → Removal → Manager
meanwhile (handshake ended) m id r = if ended then Manager.process_ended m id r else m
meanwhile (deadline ended) m id r = if ended then Manager.process_ended m id r else m
meanwhile closed m id r = Manager.process_ended m id r

abbrev pub unless_dead :
    Manager
    → Manager.Session
    → Removal
    → Option WaitError
    → Manager × Result LaunchError Manager.Session
unless_dead m s r none = (m, ok s)
unless_dead m s r (some e) = ((Manager.destroy m s.id r).0, err boot_timeout)

abbrev pub awaited :
    Removal
    → Manager × Result Manager.Error Manager.Session
    → Event
    → Manager × Result LaunchError Manager.Session
awaited r (m, err e) ev = (m, err (create_failed e))
awaited r (m, ok s) ev = unless_dead (meanwhile ev m s.id r) s r (wait_ready true ev)

-- A launch with a new session's channels. Only one of the two Destroys finds the machine, and its
-- removals end as those of a Create that fails would.
unfoldable pub launch : Manager → World → Event → Manager × Result LaunchError Manager.Session
launch m w ev = awaited w.removal (Manager.create m w) ev

pub data Launcher : Type 0 where
  mock managed : Launcher

pub data PickError : Type 0 where
  init_manager : PickError

-- `starts` says that the manager can be made.
unfoldable pub pick_launcher : Config → Bool → Result PickError Launcher
pick_launcher cfg starts =
    if cfg.use_mock_launcher then ok mock else if starts then ok managed else err init_manager

-- The host and the manager that its sessions belong to.
pub record Daemon : Type 0 where
  pub host : Host
  pub manager : Manager

abbrev pub no_failure : Option Manager.Error → Bool
no_failure none = true
no_failure (some not_found) = true
no_failure (some e) = false

abbrev pub destroyed : Daemon → Bytes → Removal → Option Host.Session → Daemon
destroyed d id r none = d
destroyed d id r (some s) =
    let (m, e) = Manager.destroy d.manager s.id r in
    record { host = (Host.destroy d.host id (no_failure e)).0; manager = m }

-- Host.Destroy with the manager's.
unfoldable pub destroy : Daemon → Bytes → Removal → Daemon
destroy d id r = destroyed d id r (Map.lookup id d.host.sessions)

unfoldable pub tear_down : List Host.Session → (Bytes → Removal) → Daemon → Daemon
tear_down [] removal d = d
tear_down (s ∷ ss) removal d = tear_down ss removal (destroy d s.id (removal s.id))

-- What happens to the machines when the daemon ends, with what becomes of the removals of each.
unfoldable pub exit : (Bytes → Removal) → Daemon → Daemon
exit removal d = tear_down (live_list d.host.sessions) removal d
