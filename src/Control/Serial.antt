-- ===== src/Control/Serial.antt =====
-- control-plane/internal/session/serial.go: the ring buffer of a machine's serial console, and the
-- channel to the one client that is attached. The reader is a sequence of chunks; a turn of the
-- drain is two steps, `buffer` under the lock and `send` after it, between which other goroutines
-- may run. A channel is known by the number of the Attach that made it.
pub mod Ring
pub mod Clients
use microvm_terminal.Base.{
  ℕ, ◌+◌, ◌-◌, ◌*◌, Bool, true, false, Option, none, some, List, [], ◌∷◌, ◌++◌, Bytes, length, drop,
  nat_eq, ltb, if◌then◌else◌,
}
use microvm_terminal.Base.Map
use microvm_terminal.Base.Map.{GoMap}
use microvm_terminal.Base.Result.{Result, ok, err}
use microvm_terminal.Base.Tests.{ℕ-eq}

-- The messages that wait in the channel, oldest first.
pub record Channel : Type 0 where
  pub waiting : List Bytes
  pub closed : Bool

pub record SerialTee : Type 0 where
  pub ring : Bytes
  pub ring_limit : ℕ
  pub subscriber : Option ℕ
  pub channels : GoMap ℕ Channel
  pub made : ℕ

-- Go's panics on channels.
pub data Panic : Type 0 where
  send_on_closed close_of_closed close_of_nil : Panic

unfoldable pub new_serial_tee : ℕ → SerialTee
new_serial_tee limit = record {
  ring = [];
  ring_limit = limit;
  subscriber = none;
  channels = [];
  made = 0;
}

-- At most so many bytes are kept, the last ones.
unfoldable pub keep_last : ℕ → Bytes → Bytes
keep_last limit b = if ltb limit (length b) then drop (length b - limit) b else b

-- Under the lock: the chunk goes to the ring, and the subscriber is read.
unfoldable pub buffer : SerialTee → Bytes → SerialTee × Option ℕ
unfolding keep_last
buffer t [] = (t, none)
buffer t (b ∷ bs) = (record t { ring = keep_last t.ring_limit (t.ring ++ b ∷ bs) }, t.subscriber)

unfoldable pub channel_room : ℕ
channel_room = 64

-- `select { case sub <- cp: default: }` on a channel: a full one drops the message.
unfoldable pub offer : Channel → Bytes → Result Panic Channel
offer c chunk =
    if c.closed
    then err send_on_closed
    else if ltb (length c.waiting) channel_room
    then ok (record c { waiting = c.waiting ++ chunk ∷ [] })
    else ok c

abbrev pub put_channel : SerialTee → ℕ → Result Panic Channel → Result Panic SerialTee
put_channel t ch (err p) = err p
put_channel t ch (ok c) = ok (record t { channels = Map.insert ch c t.channels })

abbrev pub send_in : SerialTee → ℕ → Option Channel → Bytes → Result Panic SerialTee
send_in t ch none chunk = ok t
send_in t ch (some c) chunk = put_channel t ch (offer c chunk)

-- After the lock.
unfoldable pub send : SerialTee → Option ℕ → Bytes → Result Panic SerialTee
unfolding offer
send t none chunk = ok t
send t (some ch) chunk = send_in t ch (Map.lookup ch t.channels) chunk

-- A whole turn of the drain, when nothing runs between its two steps.
unfoldable pub drain_turn : SerialTee → Bytes → Result Panic SerialTee
unfolding buffer send
drain_turn t chunk = let r = buffer t chunk in send r.0 r.1 chunk

-- The replay and the number of the channel.
unfoldable pub attach : SerialTee → SerialTee × Bytes × ℕ
attach t = (
  record t {
    subscriber = some t.made;
    channels = Map.insert t.made (record { waiting = []; closed = false }) t.channels;
    made = t.made + 1;
  },
  t.ring,
  t.made,
)

abbrev pub is_subscriber : Option ℕ → ℕ → Bool
is_subscriber none ch = false
is_subscriber (some c) ch = nat_eq c ch

abbrev pub close_channel : Option Channel → Result Panic Channel
close_channel none = err close_of_nil
close_channel (some c) = if c.closed then err close_of_closed else ok (record c { closed = true })

-- The function that Attach returns.
unfoldable pub cleanup : SerialTee → ℕ → Result Panic SerialTee
cleanup t ch =
    let t' : SerialTee = record t {
      subscriber = if is_subscriber t.subscriber ch then none else t.subscriber;
    } in
    put_channel t' ch (close_channel (Map.lookup ch t.channels))

-- The client takes what waits in its channel.
abbrev pub emptied : SerialTee → ℕ → Option Channel → SerialTee
emptied t ch none = t
emptied t ch (some c) = record t { channels = Map.insert ch (record c { waiting = [] }) t.channels }

unfoldable pub receive : SerialTee → ℕ → SerialTee
receive t ch = emptied t ch (Map.lookup ch t.channels)

-- What the goroutines do, in the order in which it happens.
pub data Act : Type 0 where
  reads : Bytes → Act
  sends : Option ℕ → Bytes → Act
  attaches : Act
  cleans receives : ℕ → Act

unfoldable pub act : SerialTee → Act → Result Panic SerialTee
act t (reads chunk) = ok (buffer t chunk).0
act t (sends sub chunk) = send t sub chunk
act t attaches = ok (attach t).0
act t (cleans ch) = cleanup t ch
act t (receives ch) = ok (receive t ch)

abbrev pub and_then :
    Result Panic SerialTee → (SerialTee → Result Panic SerialTee) → Result Panic SerialTee
and_then (err p) f = err p
and_then (ok t) f = f t

unfoldable pub run : SerialTee → List Act → Result Panic SerialTee
run t [] = ok t
run t (a ∷ rest) = and_then (act t a) (λ t'. run t' rest)
