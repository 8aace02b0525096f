-- ===== src/Lib.antt =====
-- microvm-terminal: a daemon that boots a virtual machine for each terminal session
-- (control-plane/), the agent in each machine (guest-agent/), and the API gateway between the
-- machines and the API of Anthropic (proxy/).
--
-- The parts and their files:
--   * Base: Go's byte strings, maps, slices and 64-bit integers, encoding/hex and decimal text.
--   * Proxy.Quota (proxy/internal/quota/quota.go): a bucket per session with what it used and the
--     count of the current minute. `reserve`, `commit`, `refund`, `usage` and `reset` are the
--     methods of Manager; each reading of the clock is an argument.
--   * Proxy.Keys (proxy/internal/keys/keys.go): the pool of keys, and the tokens pinned to them in
--     turn. `mint_session_token`, `register_session_token`, `revoke_session_token`, `replace` and
--     `secret_for_session` are the methods of Pool.
--   * Proxy.Stream (proxy/internal/server/stream.go): `stream_sse` and `stream_json` copy the body
--     of a response to a client and read the token usage out of it.
--   * Proxy.Server (proxy/internal/server/server.go, proxy/internal/audit/audit.go): the handlers.
--     `handle_forward` resolves the token in Keys, reserves in Quota, sends the request, copies the
--     response with Stream, and commits the usage or gives the slot back.
--   * Proxy.Start (proxy/cmd/claude-proxy/main.go, and the sinks of audit.go): `start` is the start of the
--     gateway, `write_record` a record that is handed to a sink.
--   * Control.Config (control-plane/internal/config/config.go): `load`, `validate`, `apply_env` and the
--     limits of the jail.
--   * Control.Netalloc (control-plane/internal/netalloc/netalloc.go): addresses, TAP names and vsock
--     ids. `alloc` and `release` are the methods of Allocator.
--   * Control.Serial (control-plane/internal/session/serial.go): the ring buffer of a console and the
--     channel to its client. A turn of `drain` is `buffer`, under the lock, and `send`, after it.
--   * Control.Manager (control-plane/internal/session/manager.go, and the TAP devices of
--     control-plane/internal/firecracker/network.go): `create`, `destroy` and `shutdown`, with the
--     addresses that they take from Control.Netalloc, and the TAP devices and directories.
--   * Control.Machine (manager.go: `boot_args`, `spec_of`, `launch_vm`), Control.Firecracker
--     (control-plane/internal/firecracker/launcher.go: `launch`), Control.Jailer
--     (control-plane/internal/vm/jailer.go: `launch_jailed`, `lookup_user`) and Control.Jailer.Script (the arguments of
--     infra/jailer/jailer.sh: `settings`): how a machine is started.
--   * Control.Rootfs (control-plane/internal/firecracker/rootfs.go): `prepare_rootfs`.
--   * Control.Bridge (EnsureBridge of network.go, and NewManager): `ensure_bridge`, `new_manager`.
--   * Agent (guest-agent/cmd/microvm-guest-agent/main.go): `read_cmdline_params` reads what `boot_args`
--     wrote, `hello_frame` is what Control.Guest checks, `serve_frames` applies the sizes that it sends.
--   * Control.Host (control-plane/internal/session/host.go, warmpool.go): the live map and the pool of
--     machines that were booted ahead. `create`, `create_warm`, `destroy` and `watch_fires` are whole
--     calls, and `reap_idle` is a pass of the reaper; `full` and `land` are the two moments of a
--     Create between which others may run. Control.Host.Pool has the loop of the pool and its builds.
--   * Control.Daemon (control-plane/cmd/microvm-terminal/main.go): `launch` is a Create of the manager and
--     the wait for the guest, which the end of the process may overtake, `exit` is what the end of the daemon does to the machines.
--   * Control.Session (control-plane/internal/session/session.go): `mark_ready`, `attach`, `detach` (the
--     function that Attach returns) and `idle_since`.
--   * Control.Auth (control-plane/internal/auth/auth.go): the gate. `new_gate`, `check_password`, `allow`,
--     `cookie`, `verify`, `owner_from_request`, `slugify` and `client_ip` are its functions.
--   * Control.Guest (the window size in session.go, and vsock_listener.go): `resize`, `send_to_guest`
--     and `handle_guest_conn` are whole calls; their moments overlap in Control.Guest.Delivery.
--     Control.Guest.Listener is the loop that accepts connections, with their handlers.
--   * Control.Migrations (control-plane/internal/db/db.go): `migrate` and `extract_goose_up`.
--   * Control.Store (control-plane/internal/db/db.go): the rows of the sessions table.
--   * Control.Wire (control-plane/internal/api/types.go): requests and replies.
--   * Control.Api (control-plane/internal/api/sessions.go): `create_session`, `current`, `describe`,
--     `delete_session` and the start of a terminal, `open_pty`, for a caller whom Control.Auth has
--     named. They call the Host and the Store; `on_gone` is the callback of main.go, which stamps the
--     row of a session that has left the live map. Control.Api.Pty has the two loops of a terminal.
--   * Control.Router (router.go, middleware.go, and Middleware of auth.go): `serve` is a request for
--     /sessions, from the cookie to the answer.
--   * Control.Pages (control-plane/internal/api/pages.go): `submit_login`, `login`, `logout`, `terminal`.
-- Each component has its theorems in child modules; the tests stand in Proxy.Tests and Control.Tests.
--
-- What is a parameter: the JSON and YAML decoders, the random source, the clock, HMAC-SHA256,
-- uuid.Parse and net.ParseIP, %q of fmt, the effect of a block of SQL, the upstream, the output of
-- ip and getent, and the outcome of each command, statement and file operation. Not modelled:
-- logging, a write to the connection of a guest that fails, filepath.Clean, the wait of a rotation
-- for the forwards under way, the reading of a process's output, chi's choice of a route, the
-- metrics, and what jailer.sh does once it knows its settings. `digits_on` is recursion on fuel,
-- one more than the number that is printed, which has fewer digits than that; the rounds of
-- `alloc_loop` are those of the source.
pub mod Agent
pub mod Base
pub mod Control
pub mod Proxy
