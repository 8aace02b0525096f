-- ===== src/Control/Api/Pty.antt =====
-- control-plane/internal/api/sessions.go: the two loops of PTY once the WebSocket is accepted. A write
-- to the machine's standard input that fails may have written a part before; which event a `select`
-- takes next is an argument.
pub mod Typed
pub mod Sizes
use microvm_terminal.Base.{
  ℕ, Bool, true, false, Option, none, some, List, [], ◌∷◌, ◌++◌, Bytes, bytes, bytes_eq, length,
  ltb, if◌then◌else◌,
}
use microvm_terminal.Control.Guest.{Geometry, Channel, resize}

pub record ControlMessage : Type 0 where
  pub kind : Bytes
  pub size : Geometry

-- A text frame is none if json.Unmarshal refuses it.
pub data Message : Type 0 where
  binary : Bytes → Message
  text : Option ControlMessage → Message

pub data Write : Type 0 where
  whole : Write
  broken_after : Bytes → Write

-- What goes into the machine: its standard input and the channel to its agent.
pub record Console : Type 0 where
  pub stdin : Bytes
  pub channel : Channel

unfoldable pub type_in : Console → Bytes → Console
type_in c data_read = record c { stdin = c.stdin ++ data_read }

unfoldable pub control : Console → ControlMessage → Console
control c m =
    if bytes_eq m.kind (bytes "resize")
    then record c { channel = (resize c.channel m.size).0 }
    else c

-- From the client to the console, over the frames until a read fails; with how the write of each ends.
unfoldable pub from_client : List (Message × Write) → Console → Console
from_client [] c = c
from_client ((binary data_read, whole) ∷ more) c = from_client more (type_in c data_read)
from_client ((binary data_read, broken_after part) ∷ more) c = type_in c part
from_client ((text none, w) ∷ more) c = from_client more c
from_client ((text (some m), w) ∷ more) c = from_client more (control c m)

-- A case of the `select`: the context is cancelled, the machine is gone, the channel of updates yields
-- a chunk (none once it is closed) whose write succeeds or not, or it is time for a ping, which is
-- answered or not.
pub data Event : Type 0 where
  cancelled vm_exited : Event
  update : Option Bytes → Bool → Event
  ping : Bool → Event

-- Why the loop ends.
pub data End : Type 0 where
  context_done going_away updates_closed write_failed no_pong : End

-- From the console to the client: the binary frames that were written, and the end if there is one.
unfoldable pub to_client : List Event → List Bytes → List Bytes × Option End
to_client [] sent = (sent, none)
to_client (cancelled ∷ more) sent = (sent, some context_done)
to_client (vm_exited ∷ more) sent = (sent, some going_away)
to_client (update none works ∷ more) sent = (sent, some updates_closed)
to_client (update (some chunk) false ∷ more) sent = (sent, some write_failed)
to_client (update (some chunk) true ∷ more) sent = to_client more (sent ++ chunk ∷ [])
to_client (ping false ∷ more) sent = (sent, some no_pong)
to_client (ping true ∷ more) sent = to_client more sent

-- With the replay first; `works` says that its write succeeds.
unfoldable pub streamed : Bytes → Bool → List Event → List Bytes × Option End
streamed replay works events =
    if ltb 0 (length replay)
    then if works then to_client events (replay ∷ []) else ([], some write_failed)
    else to_client events []
