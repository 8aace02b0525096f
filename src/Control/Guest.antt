-- ===== src/Control/Guest.antt =====
-- The window size of a terminal on its way to the guest agent: control-plane/internal/session/
-- session.go (SetGuestConn, SendToGuest, Resize) and vsock_listener.go (handleGuestConn). A
-- connection is a number, and `frames` are the frames that were written, each with its connection. A
-- write reaches the connection; deadlines, the log and the frames that the agent sends after its
-- hello are not modelled.
pub mod Delivery
pub mod Listener
use microvm_terminal.Base.{
  ℕ, Bool, true, false, ◌&&◌, ◌||◌, Option, none, some, List, [], ◌∷◌, ◌++◌, Bytes, bytes, bytes_eq,
  nat_eq, ltb, if◌then◌else◌,
}

pub record Geometry : Type 0 where
  pub cols : ℕ
  pub rows : ℕ

pub record Channel : Type 0 where
  pub session_token : Bytes
  pub window : Geometry
  pub guest_conn : Option ℕ
  pub ready : Bool
  pub frames : List (ℕ × Geometry)

pub record Hello : Type 0 where
  pub kind : Bytes
  pub session_token : Bytes

abbrev pub is_empty : Geometry → Bool
is_empty g = nat_eq g.cols 0 || nat_eq g.rows 0

unfoldable pub set_guest_conn : Channel → Option ℕ → Channel
set_guest_conn c conn = record c { guest_conn = conn }

unfoldable pub set_window : Channel → Geometry → Channel
set_window c g = record c { window = g }

unfoldable pub write_frame : Channel → ℕ → Geometry → Channel
write_frame c conn g = record c { frames = c.frames ++ (conn, g) ∷ [] }

-- With what the connection was when it was read; false is ErrNoGuest.
abbrev pub sent_on : Channel → Geometry → Option ℕ → Channel × Bool
sent_on c g none = (c, false)
sent_on c g (some conn) = (write_frame c conn g, true)

unfoldable pub send_to_guest : Channel → Geometry → Channel × Bool
send_to_guest c g = sent_on c g c.guest_conn

-- A call that nothing overlaps; false is the error for a size of zero.
unfoldable pub resize : Channel → Geometry → Channel × Bool
resize c g = if is_empty g then (c, false) else ((send_to_guest (set_window c g) g).0, true)

abbrev pub accepts : Channel → Hello → Bool
accepts c h = bytes_eq h.kind (bytes "hello") && bytes_eq h.session_token c.session_token

-- SetGuestConn and MarkReady.
unfoldable pub join : Channel → ℕ → Channel
join c conn = record (set_guest_conn c (some conn)) { ready = true }

unfoldable pub replay : Channel → Channel
replay c = if is_empty c.window then c else (send_to_guest c c.window).0

-- The handler of a connection up to its loop, with the hello if one was decoded; and its end.
unfoldable pub handle_guest_conn : Channel → ℕ → Option Hello → Channel
handle_guest_conn c conn none = c
handle_guest_conn c conn (some h) = if accepts c h then replay (join c conn) else c

unfoldable pub leave : Channel → Channel
leave c = set_guest_conn c none
