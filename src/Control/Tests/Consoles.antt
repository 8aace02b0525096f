-- ===== src/Control/Tests/Consoles.antt =====
-- Runs of the serial console.
use microvm_terminal.Base.{◌≡◌, ◌≤◌, refl, false, some, none, [], ◌∷◌, ◌++◌, bytes, length, arith}
use microvm_terminal.Base.Map
use microvm_terminal.Base.Tests.{ℕ-eq}
use microvm_terminal.Base.Result.{ok, err}
use microvm_terminal.Control.Serial.{
  SerialTee, new_serial_tee, keep_last, buffer, send, attach, channel_room, reads, sends, attaches,
  cleans, act, run, offer, send_on_closed,
}
use microvm_terminal.Control.Serial.Ring.{run-ring}
use microvm_terminal.Control.Serial.Clients.{drain_all, attach-delivers, cleanup_in_turn}

-- A ring of four bytes, after six were written and a client came.
abbrev followed : SerialTee
followed = record {
  ring = bytes "cdef";
  ring_limit = 4;
  subscriber = some 0;
  channels = (0, record { waiting = bytes "ef" ∷ []; closed = false }) ∷ [];
  made = 1;
}

run-ring_example : (followed.ring ≡ keep_last 4 (bytes "abcdef")) × (length followed.ring ≤ 4)
unfolding run act new_serial_tee keep_last buffer send offer channel_room attach Map.lookup
    Map.insert
run-ring_example =
    run-ring 4 followed
      (reads (bytes "abcd") ∷ attaches ∷ reads (bytes "ef") ∷ sends (some 0) (bytes "ef") ∷ []) refl

abbrev quiet : SerialTee
quiet = record { ring = bytes "boot"; ring_limit = 8; subscriber = none; channels = []; made = 0 }

attach-delivers_example :
    (t' : SerialTee) × (drain_all (attach quiet).0 (bytes "ed" ∷ bytes "ok" ∷ []) ≡ ok t')
    × (Map.lookup (attach quiet).2 t'.channels
        ≡ some (record { waiting = bytes "ed" ∷ bytes "ok" ∷ []; closed = false }))
    × (keep_last 8 t'.ring ≡ keep_last 8 ((attach quiet).1 ++ bytes "edok"))
unfolding channel_room
attach-delivers_example =
    attach-delivers quiet (bytes "ed" ∷ bytes "ok" ∷ [])
      ((λ e. absurd (ground (arith, e))), ((λ e. absurd (ground (arith, e))), tt)) (omega arith)

cleanup_in_turn_example :
    run followed (reads (bytes "x") ∷ cleans 0 ∷ sends (some 0) (bytes "x") ∷ [])
    ≡ err send_on_closed
unfolding buffer Map.lookup
cleanup_in_turn_example = cleanup_in_turn followed 0 b'x' [] (bytes "ef" ∷ []) (refl, refl)
