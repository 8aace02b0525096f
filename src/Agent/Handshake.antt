-- ===== src/Agent/Handshake.antt =====
-- From the start of a machine to the handshake of its agent: the manager's boot arguments, the agent's
-- reading of them and the handler of the connection.
use microvm_terminal.Base.{ℕ, ◌≡◌, refl, sym, ap, true, some, ◌∷◌, ◌++◌, Bytes, bytes_eq}
use microvm_terminal.Base.Fields.{fields}
use microvm_terminal.Base.Hex.{hex_encode, AreBytes}
use microvm_terminal.Base.Text.{bytes_eq_iff}
use microvm_terminal.Agent.{read_cmdline_params, hello_frame}
use microvm_terminal.Agent.Boot.{foreign, read_cmdline_params-boot_args}
use microvm_terminal.Control.Config.{Config}
use microvm_terminal.Control.Guest.{Channel, join, replay, handle_guest_conn}
use microvm_terminal.Control.Machine.{spec_of}
use microvm_terminal.Control.Netalloc.{Lease}
use microvm_terminal.Control.Manager.{World, session_of}

-- The agent of a machine that Create has started reads its token on the command line, and the session
-- with that token takes its connection for the guest's: for a token whose values are bytes, and whatever words
-- Firecracker adds behind the boot arguments that are no parameters of the agent.
pub handle_guest_conn-boot_args :
    (cfg : Config) (w : World) (l : Lease) (token more : Bytes) (c : Channel) (conn : ℕ)
    → AreBytes token
    → foreign (fields more) ≡ true
    → c.session_token ≡ (session_of w l token).session_token
    → handle_guest_conn c conn (
        some (
          hello_frame
            (read_cmdline_params
              (some ((spec_of cfg (session_of w l token)).boot_args ++ b' ' ∷ more))).0))
      ≡ replay (join c conn)
unfolding handle_guest_conn hello_frame session_of spec_of bytes_eq
handle_guest_conn-boot_args cfg w l token more c conn are_bytes none_there same =
    let read = ap (λ r. r.0) (read_cmdline_params-boot_args token more are_bytes none_there) in
    let agreed = (bytes_eq_iff (hex_encode token) c.session_token).1 (sym same) in
    rw read (rw agreed refl)
