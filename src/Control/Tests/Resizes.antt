-- ===== src/Control/Tests/Resizes.antt =====
-- Runs of the window size and the guest's handshake.
use microvm_terminal.Base.{◌≡◌, refl, false, true, List, some, none, [], ◌∷◌, bytes, bytes_eq}
use microvm_terminal.Base.Lists.{IsIn}
use microvm_terminal.Control.Guest.{
  Geometry, Channel, Hello, set_guest_conn, set_window, write_frame, send_to_guest, resize, join,
  replay, handle_guest_conn,
}
use microvm_terminal.Control.Guest.Listener.{
  connected, timed_out, Turn, looks, greets, ends, start_vsock_listener,
}
use microvm_terminal.Control.Guest.Listener.Guests.{Vouched, start_vsock_listener-Vouched}
use microvm_terminal.Control.Guest.Delivery.{
  Now, Reach, start, and_next, stores, asks, writes, joins, reads, resize_not_lost,
}

abbrev small : Geometry
small = record { cols = 80; rows = 24 }

abbrev large : Geometry
large = record { cols = 120; rows = 40 }

abbrev booting : Channel
booting = record {
  session_token = bytes "t";
  window = record { cols = 0; rows = 0 };
  guest_conn = none;
  ready = false;
  frames = [];
}

abbrev hello : Hello
hello = record { kind = bytes "hello"; session_token = bytes "t" }

-- The size is kept until the guest is there; a wrong token changes nothing.
size_replayed : (handle_guest_conn (resize booting small).0 1 (some hello)).frames ≡ (1, small) ∷ []
unfolding handle_guest_conn resize join replay send_to_guest set_guest_conn set_window write_frame
    bytes_eq
size_replayed = refl

wrong_token :
    handle_guest_conn booting 1 (some (record hello { session_token = bytes "x" })) ≡ booting
unfolding handle_guest_conn bytes_eq
wrong_token = refl

-- A guest joins between the two halves of a Resize.
abbrev settled : Now
settled = record {
  channel = write_frame (write_frame (join (set_window booting small) 1) 1 small) 1 small;
  asking = [];
  writing = [];
  joined = [];
}

settled-Reach : Reach booting settled
unfolding set_window write_frame join set_guest_conn
settled-Reach =
    let r0 : Reach booting (record { channel = booting; asking = []; writing = []; joined = [] }) =
      start in
    let r1 = and_next r0 (stores small refl) in
    let r2 = and_next r1 (joins 1) in
    let r3 = and_next r2 (asks [] [] small refl) in
    let r4 = and_next r3 (reads [] [] 1 refl) in
    let r5 = and_next r4 (writes [] [] 1 small refl) in
    let r6 = and_next r5 (asks [] [] small refl) in and_next r6 (writes [] [] 1 small refl)

resize_not_lost_example : IsIn (1, settled.channel.window) settled.channel.frames
unfolding set_window write_frame join set_guest_conn
resize_not_lost_example =
    resize_not_lost booting {s = settled} 1 refl settled-Reach refl refl refl refl refl

abbrev stranger : Hello
stranger = record { kind = bytes "hello"; session_token = bytes "x" }

abbrev visits : List Turn
visits =
    looks false (connected 1)
    ∷ looks false (connected 2)
    ∷ greets 1 (some stranger)
    ∷ looks false timed_out
    ∷ greets 2 (some hello)
    ∷ looks true timed_out
    ∷ ends 2
    ∷ []

start_vsock_listener-Vouched_example :
    Vouched booting visits (start_vsock_listener true visits booting).channel
start_vsock_listener-Vouched_example = start_vsock_listener-Vouched true visits booting
