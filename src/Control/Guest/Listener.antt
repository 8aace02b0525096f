-- ===== src/Control/Guest/Listener.antt =====
-- A machine's vsock listener (startVsockListener of control-plane/internal/session/vsock_listener.go)
-- with the handlers of its connections. The loop and the handlers overlap: a
-- handler joins the session, and sends the stored size, in one turn of its own.
pub mod Guests
use microvm_terminal.Base.{
  ℕ, ◌≡◌, ◌⊎◌, inl, inr, refl, sym, ap, subst, ◌∙◌, ◌&&◌, Bool, true, false, Option, none, some,
  List, [], ◌∷◌, ◌++◌, Bytes, nat_eq, arith, if◌then◌else◌,
}
use microvm_terminal.Base.Decimal.{decimal}
use microvm_terminal.Base.Lists.{IsIn}
use microvm_terminal.Base.Tests.{Bool-cases, nat_eq_iff}
use microvm_terminal.Base.Text.{bytes_eq_iff}
use microvm_terminal.Control.Guest.{
  Geometry, Channel, Hello, is_empty, accepts, join, replay, send_to_guest, sent_on, write_frame,
  set_guest_conn, handle_guest_conn, leave,
}

-- What Accept yields.
pub data Accepted : Type 0 where
  connected : ℕ → Accepted
  timed_out net_closed failed : Accepted

-- The channel; whether the loop runs, which is as long as the socket is there; the connections whose
-- handler waits for the first frame; and those whose handler is in its loop.
pub record Listener : Type 0 where
  pub channel : Channel
  pub socket : Bool
  pub waiting : List ℕ
  pub served : List ℕ

-- A round of the loop, with whether the session is done and what Accept yields; the first frame of a
-- connection, if it could be decoded; and the end of a handler's loop.
pub data Turn : Type 0 where
  looks : (done : Bool) → Accepted → Turn
  greets : ℕ → Option Hello → Turn
  ends : ℕ → Turn

unfoldable pub socket_path : Bytes → ℕ → Bytes
socket_path uds_path port = uds_path ++ b'_' ∷ decimal port

abbrev pub has : ℕ → List ℕ → Bool
has k [] = false
has k (x ∷ xs) = if nat_eq x k then true else has k xs

-- The first one is taken out.
abbrev pub drop_conn : ℕ → List ℕ → List ℕ
drop_conn k [] = []
drop_conn k (x ∷ xs) = let rest = drop_conn k xs in if nat_eq x k then xs else x ∷ rest

abbrev pub round : Bool → Accepted → Listener → Listener
round true a l = record l { socket = false }
round false net_closed l = record l { socket = false }
round false timed_out l = l
round false failed l = l
round false (connected conn) l = record l { waiting = conn ∷ l.waiting }

abbrev pub welcome : Channel → Option Hello → Bool
welcome c none = false
welcome c (some h) = accepts c h

abbrev pub greeted : ℕ → Option Hello → Listener → Listener
greeted conn hello l = record l {
  channel = handle_guest_conn l.channel conn hello;
  waiting = drop_conn conn l.waiting;
  served = if welcome l.channel hello then conn ∷ l.served else l.served;
}

-- A turn of what is not under way is none.
unfoldable pub take_turn : Turn → Listener → Listener
unfolding leave
take_turn (looks done a) l = if l.socket then round done a l else l
take_turn (greets conn hello) l = if has conn l.waiting then greeted conn hello l else l
take_turn (ends conn) l =
    if has conn l.served
    then record l { channel = leave l.channel; served = drop_conn conn l.served }
    else l

unfoldable pub accept_loop : List Turn → Listener → Listener
unfolding take_turn
accept_loop [] l = l
accept_loop (t ∷ more) l = accept_loop more (take_turn t l)

-- `listens` says that the socket can be bound.
unfoldable pub start_vsock_listener : Bool → List Turn → Channel → Listener
start_vsock_listener listens turns c =
    accept_loop turns (record { channel = c; socket = listens; waiting = []; served = [] })
