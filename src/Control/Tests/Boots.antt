-- ===== src/Control/Tests/Boots.antt =====
-- A machine from its launch to the first size of its console, and to the end of the daemon.
use microvm_terminal.Base.{
  ◌≡◌, refl, sym, ◌∙◌, inl, inr, true, false, some, none, [], ◌∷◌, ◌++◌, bytes, bytes_eq, arith,
}
use microvm_terminal.Base.Fields.{fields, fields_from}
use microvm_terminal.Base.Map
use microvm_terminal.Base.Tests.{Bool-cases}
use microvm_terminal.Base.Trim.{has_prefix, is_space}
use microvm_terminal.Base.Text.{bytes-eq, bytes_eq_iff}
use microvm_terminal.Agent.{read_cmdline_params, hello_frame}
use microvm_terminal.Agent.Handshake.{handle_guest_conn-boot_args}
use microvm_terminal.Control.Api.Pty.{Message, text, Console}
use microvm_terminal.Control.Config.{defaults}
use microvm_terminal.Control.Daemon.{Daemon, deadline, launch, exit}
use microvm_terminal.Control.Daemon.Exit.{some_id, Filed, holds, exit-stopped}
use microvm_terminal.Control.Daemon.Launch.{Launched, launch-Launched}
use microvm_terminal.Control.Guest.{Channel, join, replay, handle_guest_conn}
use microvm_terminal.Control.Machine.{spec_of}
use microvm_terminal.Control.Manager.{session_of}
use microvm_terminal.Control.Tests.Hosts.{one, small_host}
use microvm_terminal.Control.Tests.Leases.{first_lease}
use microvm_terminal.Control.Tests.Machines.{empty_host, all_removed, all_well, machine}

abbrev booting : Channel
booting = record {
  session_token = (session_of all_well first_lease (b'A' ∷ [])).session_token;
  window = record { cols = 80; rows = 24 };
  guest_conn = none;
  ready = false;
  frames = [];
}

-- Firecracker adds the device of the root file system.
handle_guest_conn-boot_args_example :
    handle_guest_conn booting 1 (
      some (
        hello_frame
          (read_cmdline_params (
            some (
              (spec_of defaults (session_of all_well first_lease (b'A' ∷ []))).boot_args
              ++ b' ' ∷ bytes "root=/dev/vda rw"))).0))
    ≡ replay (join booting 1)
unfolding fields fields_from has_prefix is_space
handle_guest_conn-boot_args_example =
    handle_guest_conn-boot_args defaults all_well first_lease (b'A' ∷ []) (bytes "root=/dev/vda rw")
      booting 1 (omega arith, tt) refl refl

abbrev attached : Console
attached = record {
  stdin = [];
  channel = record booting {
    window = record { cols = 0; rows = 0 };
    guest_conn = some 1;
    ready = true;
  };
}

abbrev resized : Message
resized = text (some (record { kind = bytes "resize"; size = record { cols = 120; rows = 40 } }))

launch-Launched_example :
    Launched empty_host all_well (deadline false) (launch empty_host all_well (deadline false))
unfolding Map.lookup
launch-Launched_example =
    launch-Launched empty_host all_well (deadline false) refl refl (λ l h. refl) refl refl

-- A machine that waits in the warm pool, and one that a client has.
abbrev running : Daemon
running = record {
  host = record small_host { sessions = (bytes "a", one) ∷ [] };
  manager = record empty_host {
    sessions =
        (bytes "a", record machine { id = bytes "a" })
        ∷ (bytes "w", record machine { id = bytes "w" })
        ∷ [];
  };
}

running-Filed : Filed running.host.sessions
unfolding Map.lookup
running-Filed k s h = elim (Bool-cases (bytes_eq (bytes "a") k)) [
  | inl here ↦ sym (some_id one s (simp here at h)) ∙ (bytes_eq_iff (bytes "a") k).0 here
  | inr elsewhere ↦ absurd (ground (arith, elsewhere, h))
]

exit-stopped_example :
    (Map.lookup (bytes "w") (exit (λ id. all_removed) running).manager.sessions
      ≡ some (record machine { id = bytes "w" }))
    × (holds (bytes "w") (exit (λ id. all_removed) running).manager.stopped ≡ false)
unfolding Map.lookup bytes_eq
exit-stopped_example = exit-stopped (λ id. all_removed) running (bytes "w") running-Filed
