-- ===== src/Control/Wire.antt =====
-- control-plane/internal/api/types.go and respond.go, with the helpers of sessions.go that build a
-- reply: what the handlers of /sessions take and give. An optional text that the JSON leaves out when
-- it is empty is an Option; times are not formatted, and the identifier of a request is left out.
use mathlib.Core.List.{reverse}
use microvm_terminal.Base.{
  ℕ, Bool, true, false, Option, none, some, [], ◌∷◌, ◌++◌, Bytes, bytes, bytes_eq, length, drop,
  ltb, if◌then◌else◌,
}
use microvm_terminal.Base.Result.{Result}
use microvm_terminal.Base.Text.{bytes-eq}
use microvm_terminal.Base.Trim.{has_prefix, trim_left}
use microvm_terminal.Control.Host
use microvm_terminal.Control.Host.{
  Session, Host, at_capacity, not_found, launch_failed, teardown_failed, create, create_warm,
  destroy, watch_fires, reap_idle,
}
use microvm_terminal.Control.Store
use microvm_terminal.Control.Store.{
  Rows, Row, insert_session, get_session, mark_session_reaped, touch_session_attached,
}

pub record Server : Type 0 where
  pub host : Host
  pub store : Rows
  pub public_origin : Bytes

-- The body of POST /sessions: none, one that does not decode, or the flag `warm`.
pub data Body : Type 0 where
  no_body bad_body : Body
  asked : Bool → Body

pub record Calls : Type 0 where
  pub now : ℕ
  pub launch : Result Host.Error Session
  pub fresh : Bytes
  pub new_uuid : Bytes
  pub torn_down : Bool
  pub inserts : Bool
  pub reads : Bool
  pub marks : Bool
  pub touches : Bool

pub record SessionInfo : Type 0 where
  pub session_id : Bytes
  pub owner : Bytes
  pub vm_ip : Option Bytes
  pub alive : Bool
  pub attached : ℕ
  pub created_at : ℕ
  pub ready_at : Option ℕ
  pub reaped_at : Option ℕ

pub record CreateSessionResponse : Type 0 where
  pub session_id : Bytes
  pub vm_ip : Option Bytes
  pub pty_ws_url : Bytes
  pub warm : Bool

pub data Reply : Type 0 where
  api_error : (status : ℕ) (code message : Bytes) (retry : Option ℕ) → Reply
  created : CreateSessionResponse → Reply
  info : SessionInfo → Reply
  done : Reply

abbrev pub session_not_found : Reply
session_not_found = api_error 404 (bytes "vm_not_found") (bytes "session not found") none

abbrev pub internal : Reply
internal = api_error 500 (bytes "internal") (bytes "internal") none

abbrev pub when_positive : ℕ → Option ℕ
when_positive t = if ltb 0 t then some t else none

unfoldable pub live_info : Session → SessionInfo
live_info s = record {
  session_id = s.id;
  owner = s.owner;
  vm_ip = s.ip;
  alive = true;
  attached = s.terminal.attached;
  created_at = s.terminal.created_at;
  ready_at = when_positive s.terminal.ready_at;
  reaped_at = none;
}

abbrev pub row_info : Bytes → Row → SessionInfo
row_info id row = record {
  session_id = id;
  owner = row.owner;
  vm_ip = row.vm_ip;
  alive = false;
  attached = 0;
  created_at = row.created_at;
  ready_at = row.ready_at;
  reaped_at = row.reaped_at;
}

-- strings.Replace(s, old, new, 1).
unfoldable pub replace_first : Bytes → Bytes → Bytes → Bytes
replace_first old new [] = []
replace_first old new (c ∷ cs) =
    let rest = replace_first old new cs in
    if has_prefix (c ∷ cs) old then new ++ drop (length old) (c ∷ cs) else c ∷ rest

abbrev pub is_slash : ℕ → Bool
is_slash c = bytes_eq (c ∷ []) (bytes "/")

unfoldable pub ws_origin : Bytes → Bytes
ws_origin origin =
    let bare = reverse (trim_left is_slash (reverse origin)) in
    replace_first (bytes "https://") (bytes "wss://")
      (replace_first (bytes "http://") (bytes "ws://") bare)

unfoldable pub write_session_err : Store.Error → Reply
write_session_err Store.not_found = session_not_found
write_session_err Store.unavailable = internal
