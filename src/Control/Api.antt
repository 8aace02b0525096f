-- ===== src/Control/Api.antt =====
-- control-plane/internal/api/sessions.go: the handlers of /sessions, behind the gate's
-- Middleware, which has put the caller's name into the request. uuid.Parse is the argument
-- `parse_uuid` (the canonical text of the UUID that a text spells), net.ParseIP is `parse_ip`; what
-- the launcher, the database and the teardown of a machine do in a call is in the record Calls. The
-- log is not modelled.
pub mod Consistency
pub mod Booting
pub mod Created
pub mod Reachable
pub mod Views
pub mod Owners
pub mod Current
pub mod Pty
use mathlib.Core.List.{reverse}
use microvm_terminal.Base.{
  ℕ, ◌+◌, ◌-◌, Bool, true, false, ◌||◌, not, Option, none, some, List, [], ◌∷◌, ◌++◌, Bytes, bytes,
  bytes_eq, length, drop, ltb, if◌then◌else◌,
}
use microvm_terminal.Base.Map
use microvm_terminal.Base.Result.{Result, ok, err}
use microvm_terminal.Base.Text.{bytes-eq}
use microvm_terminal.Base.Trim.{has_prefix, trim_left}
use microvm_terminal.Control.Host
use microvm_terminal.Control.Host.{
  Session, Host, at_capacity, not_found, launch_failed, teardown_failed, create, create_warm,
  destroy, watch_fires, reap_idle,
}
use microvm_terminal.Control.Wire.{
  Server, Body, Calls, SessionInfo, CreateSessionResponse, Reply, session_not_found, internal,
  when_positive, live_info, row_info, replace_first, is_slash, ws_origin, write_session_err,
  no_body, bad_body, asked, api_error, created, info, done,
}
use microvm_terminal.Control.Session.{attach}
use microvm_terminal.Control.Store
use microvm_terminal.Control.Store.{
  Rows, Row, insert_session, get_session, mark_session_reaped, touch_session_attached,
}

abbrev pub newer : Session → Option Session → Session
newer s none = s
newer s (some best) = if ltb best.terminal.created_at s.terminal.created_at then s else best

unfoldable pub newest : Bytes → List Session → Option Session → Option Session
newest owner [] best = best
newest owner (s ∷ ss) best =
    newest owner ss (if bytes_eq s.owner owner then some (newer s best) else best)

abbrev pub current_reply : Option Session → Reply
current_reply none = api_error 404 (bytes "vm_not_found") (bytes "no live session") none
current_reply (some s) = info (live_info s)

unfoldable pub current : Server → Bytes → Reply
current sv owner = current_reply (newest owner (Host.list sv.host) none)

-- The live session with this id, if the caller owns it.
abbrev pub if_owned : Bytes → Option Session → Option Session
if_owned owner none = none
if_owned owner (some s) = if bytes_eq s.owner owner then some s else none

unfoldable pub owned : Server → Bytes → Bytes → Option Session
owned sv owner id = if_owned owner (Host.get sv.host id)

abbrev pub vm_launch_failed : Reply
vm_launch_failed = api_error 500 (bytes "vm_launch_failed") (bytes "vm launch failed") none

abbrev pub own_row : Bytes → Result Store.Error Row → Result Store.Error Row
own_row owner (err e) = err e
own_row owner (ok row) = if bytes_eq row.owner owner then ok row else err Store.not_found

abbrev pub row_reply : Bytes × Result Store.Error Row → Reply
row_reply (sid, err e) = write_session_err e
row_reply (sid, ok row) = info (row_info sid row)

abbrev pub stale_reply : Bytes × Result Store.Error Row → Reply
stale_reply (sid, err e) = write_session_err e
stale_reply (sid, ok row) = done

abbrev pub no_console : Reply
no_console = api_error 410 (bytes "session_reaped") (bytes "session has no console") none

abbrev pub if_console : Server → Server → Bool → Server × Option Reply
if_console sv sv' true = (sv', none)
if_console sv sv' false = (sv, some no_console)

abbrev pub uuid_or_nil : Option Bytes → Bytes
uuid_or_nil none = bytes "00000000-0000-0000-0000-000000000000"
uuid_or_nil (some sid) = sid

abbrev pub with_session_id : Calls → Session → Option Bytes → Session × Bytes
with_session_id c s none = (record s { id = c.new_uuid }, c.new_uuid)
with_session_id c s (some sid) = (s, sid)

-- What the host does for a request with or without `warm`.
unfoldable pub boot : Host → Bool → Calls → Host × Result Host.Error Session
boot h warm c = if warm then create_warm h c.fresh c.launch else create h c.fresh c.launch

module _ (parse_uuid : Bytes → Option Bytes) (parse_ip : Bytes → Bool) where
  abbrev pub marked_gone : Calls → Rows → Option Bytes → Rows
  marked_gone c rows none = rows
  marked_gone c rows (some sid) = mark_session_reaped rows sid c.now c.marks

  -- The callback of OnGone, for each session that has left the live map.
  unfoldable pub on_gone : Calls → Rows → List Session → Rows
  on_gone c rows [] = rows
  on_gone c rows (s ∷ ss) = on_gone c (marked_gone c rows (parse_uuid s.id)) ss

  -- The server once the host is `h`, with the callback for the sessions that are gone since.
  unfoldable pub left : Server → Host → Calls → Server
  left sv h c = record sv {
    host = h;
    store = on_gone c sv.store (drop (length sv.host.gone) h.gone);
  }

  unfoldable pub destroyed : Server → Bytes → Calls → Server
  destroyed sv id c = left sv (destroy sv.host id c.torn_down).0 c

  -- A machine that exits on its own, and a pass of the idle reaper.
  unfoldable pub exited : Server → Session → Calls → Server
  exited sv s c = left sv (watch_fires sv.host s) c

  unfoldable pub reaped : Server → ℕ → Calls → Server
  reaped sv timeout c = left sv (reap_idle sv.host c.now timeout (λ id. c.torn_down)).0 c

  abbrev pub answered : Server → Session → Calls → Rows × Bool → Server × Reply
  answered sv s c (rows, false) = (destroyed (record sv { store = rows }) s.id c, internal)
  answered sv s c (rows, true) = (
    record sv { store = rows },
    created (record {
      session_id = s.id;
      vm_ip = s.ip;
      pty_ws_url = ws_origin sv.public_origin ++ bytes "/sessions/" ++ s.id ++ bytes "/pty";
      warm = s.warm;
    }),
  )

  -- The session that the host has filed under `key` gets its owner and its row.
  unfoldable pub adopted : Server → Bytes → Calls → Bytes → Session → Server × Reply
  adopted sv owner c key s =
      let (s', sid) = with_session_id c (record s { owner = owner }) (parse_uuid s.id) in
      let h : Host = record sv.host { sessions = Map.insert key s' sv.host.sessions } in
      answered (record sv { host = h }) s' c
        (insert_session parse_ip sv.store sid owner s'.ip s'.warm c.now c.inserts)

  abbrev pub booted : Server → Bytes → Calls → Host × Result Host.Error Session → Server × Reply
  booted sv owner c (h, ok s) = adopted (record sv { host = h }) owner c s.id s
  booted sv owner c (h, err at_capacity) = (
    record sv { host = h },
    api_error 503 (bytes "capacity_full") (bytes "all VM slots are busy") (some 30),
  )
  booted sv owner c (h, err Host.not_found) = (record sv { host = h }, vm_launch_failed)
  booted sv owner c (h, err launch_failed) = (record sv { host = h }, vm_launch_failed)
  booted sv owner c (h, err teardown_failed) = (record sv { host = h }, vm_launch_failed)

  unfoldable pub create_session : Server → Bytes → Body → Calls → Server × Reply
  create_session sv owner no_body c = booted sv owner c (boot sv.host false c)
  create_session sv owner bad_body c =
      (sv, api_error 400 (bytes "bad_request") (bytes "invalid json") none)
  create_session sv owner (asked warm) c = booted sv owner c (boot sv.host warm c)

  -- With the canonical id.
  abbrev pub parsed_row : Server → Bytes → Calls → Option Bytes → Bytes × Result Store.Error Row
  parsed_row sv owner c none = ([], err Store.not_found)
  parsed_row sv owner c (some sid) = (sid, own_row owner (get_session sv.store sid c.reads))

  unfoldable pub row_for_owner : Server → Bytes → Bytes → Calls → Bytes × Result Store.Error Row
  row_for_owner sv id owner c = parsed_row sv owner c (parse_uuid id)

  abbrev pub described : Server → Bytes → Bytes → Calls → Option Session → Reply
  described sv owner id c none = row_reply (row_for_owner sv id owner c)
  described sv owner id c (some s) = info (live_info s)

  unfoldable pub describe : Server → Bytes → Bytes → Calls → Reply
  describe sv owner id c = described sv owner id c (owned sv owner id)

  abbrev pub deleted : Server → Bytes → Bytes → Calls → Option Session → Server × Reply
  deleted sv owner id c none = (sv, stale_reply (row_for_owner sv id owner c))
  deleted sv owner id c (some s) = (destroyed sv id c, done)

  unfoldable pub delete_session : Server → Bytes → Bytes → Calls → Server × Reply
  delete_session sv owner id c = deleted sv owner id c (owned sv owner id)

  -- The server with one terminal more on a session, once the upgrade to a WebSocket has succeeded.
  abbrev pub attached_to : Server → Bytes → Calls → Session → Server
  attached_to sv id c s = record sv {
    host = record sv.host {
      sessions = Map.insert id (record s { terminal = attach s.terminal }) sv.host.sessions;
    };
    store = touch_session_attached sv.store (uuid_or_nil (parse_uuid id)) c.now c.touches;
  }

  -- The start of a terminal, or its refusal.
  abbrev pub terminal_of : Server → Bytes → Calls → Option Session → Server × Option Reply
  terminal_of sv id c none = (sv, some session_not_found)
  terminal_of sv id c (some s) = if_console sv (attached_to sv id c s) s.has_console

  unfoldable pub open_pty : Server → Bytes → Bytes → Calls → Server × Option Reply
  open_pty sv owner id c = terminal_of sv id c (owned sv owner id)
