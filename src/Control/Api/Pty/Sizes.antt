-- ===== src/Control/Api/Pty/Sizes.antt =====
-- The size of the client's window, on its way to the console of the machine.
use microvm_terminal.Base.{
  ℕ, ◌≡◌, ◌<◌, ◌^◌, ◌⊎◌, true, ◌&&◌, not, none, some, List, [], ◌∷◌, bytes, bytes_eq, if◌then◌else◌,
}
use microvm_terminal.Agent.{Tty, serve_frames}
use microvm_terminal.Agent.Sizes.{frames_on}
use microvm_terminal.Control.Guest.{Geometry, Channel, is_empty}
use microvm_terminal.Control.Api.Pty.{ControlMessage, Message, binary, text}

abbrev pub next_size : Geometry → ControlMessage → Geometry
next_size old m = if bytes_eq m.kind (bytes "resize") && not (is_empty m.size) then m.size else old

-- The last size that is not zero.
abbrev pub last_size : Geometry → List Message → Geometry
last_size old [] = old
last_size old (binary data_read ∷ more) = last_size old more
last_size old (text none ∷ more) = last_size old more
last_size old (text (some m) ∷ more) = last_size (next_size old m) more

-- The sizes fit 16 bits, as the fields of a ControlMessage do.
abbrev pub Sized : List Message → Type 0
Sized [] = Unit {0}
Sized (binary data_read ∷ more) = Sized more
Sized (text none ∷ more) = Sized more
Sized (text (some m) ∷ more) = (m.size.cols < 2 ^ 16) × (m.size.rows < 2 ^ 16) × Sized more

-- A guest is attached, and its console has the size of the window, if there is one.
abbrev pub InSync : Tty → ℕ → Channel → Type 0
InSync tty conn ch =
    (ch.guest_conn ≡ some conn)
    × ((is_empty ch.window ≡ true) ⊎ (serve_frames tty (frames_on conn ch.frames) ≡ some ch.window))
