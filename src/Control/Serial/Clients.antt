-- ===== src/Control/Serial/Clients.antt =====
-- What the client of a serial console receives, and how the drain and a detach can meet.
use microvm_terminal.Base.{
  ℕ, ◌+◌, ◌≤◌, ◌<◌, ◌≡◌, refl, sym, ap, subst, ◌∙◌, ◌≢◌, All, true, false, none, some, List, [],
  ◌∷◌, ◌++◌, Bytes, length, concat, length-append, append-nil, append_assoc, arith,
}
use microvm_terminal.Base.Map
use microvm_terminal.Base.Map.{lookup-insert}
use microvm_terminal.Base.Result.{Result, ok, err}
use microvm_terminal.Base.Tests.{ℕ-eq, nat_eq_iff}
use microvm_terminal.Control.Serial.{
  SerialTee, Panic, send_on_closed, keep_last, buffer, send, offer, channel_room, drain_turn,
  attach, cleanup, reads, sends, cleans, act, and_then, run,
}
use microvm_terminal.Control.Serial.Ring.{keep_last-append}

-- Turns of the drain with nothing between.
unfoldable pub drain_all : SerialTee → List Bytes → Result Panic SerialTee
drain_all t [] = ok t
drain_all t (chunk ∷ cs) = and_then (drain_turn t chunk) (λ t'. drain_all t' cs)

-- A client is attached by the channel `ch`, with so much waiting in it.
abbrev Follows : SerialTee → ℕ → List Bytes → Type 0
Follows t ch waiting =
    (t.subscriber ≡ some ch)
    × (Map.lookup ch t.channels ≡ some (record { waiting = waiting; closed = false }))

attach-Follows : (t : SerialTee) → Follows (attach t).0 t.made []
unfolding attach
attach-Follows t = (
  refl,
  ground (arith, lookup-insert t.made t.made (record { waiting = []; closed = false }) t.channels),
)

offer_open :
    (ws : List Bytes) (chunk : Bytes)
    → length ws < channel_room
    → offer (record { waiting = ws; closed = false }) chunk
      ≡ ok (record { waiting = ws ++ chunk ∷ []; closed = false })
unfolding offer
offer_open ws chunk room = ground arith

-- The state after a turn that is delivered.
abbrev delivered : SerialTee → ℕ → List Bytes → Bytes → SerialTee
delivered t ch ws chunk = record t {
  ring = keep_last t.ring_limit (t.ring ++ chunk);
  channels = Map.insert ch (record { waiting = ws ++ chunk ∷ []; closed = false }) t.channels;
}

drain_turn-delivered :
    (t : SerialTee) (ch : ℕ) (ws : List Bytes) (b : ℕ) (bs : Bytes)
    → Follows t ch ws
    → length ws < channel_room
    → drain_turn t (b ∷ bs) ≡ ok (delivered t ch ws (b ∷ bs))
unfolding drain_turn
drain_turn-delivered t ch ws b bs f room = rw (f.0, f.1, offer_open ws (b ∷ bs) room) refl

delivered-Follows :
    (t : SerialTee) (ch : ℕ) (ws : List Bytes) (chunk : Bytes)
    → Follows t ch ws
    → Follows (delivered t ch ws chunk) ch (ws ++ chunk ∷ [])
delivered-Follows t ch ws chunk f = (
  f.0,
  ground (
    arith,
    lookup-insert ch ch (record { waiting = ws ++ chunk ∷ []; closed = false }) t.channels,
  ),
)

drain_all-delivers :
    (t : SerialTee) (ch : ℕ) (ws cs : List Bytes)
    → Follows t ch ws
    → All (λ c. c ≢ []) cs
    → length ws + length cs ≤ channel_room
    → (t' : SerialTee) × (drain_all t cs ≡ ok t')
      × Follows t' ch (ws ++ cs)
      × (keep_last t.ring_limit t'.ring ≡ keep_last t.ring_limit (t.ring ++ concat cs))
unfolding drain_all
drain_all-delivers t ch ws [] f all room = (
  t,
  refl,
  subst (Follows t ch) (sym (append-nil ws)) f,
  ap (keep_last t.ring_limit) (sym (append-nil t.ring)),
)
drain_all-delivers t ch ws ([] ∷ cs) f all room = absurd (all.0 refl)
drain_all-delivers t ch ws ((b ∷ bs) ∷ cs) f all room =
    let small : length ws < channel_room = omega (arith, room) in
    let t1 = delivered t ch ws (b ∷ bs) in
    let (t', e, f', r) =
      drain_all-delivers t1 ch (ws ++ (b ∷ bs) ∷ []) cs (delivered-Follows t ch ws (b ∷ bs) f) all.1
        (omega (arith, room, length-append ws ((b ∷ bs) ∷ []))) in
    (
      t',
      rw (drain_turn-delivered t ch ws b bs f small) e,
      subst (Follows t' ch) (append_assoc ws ((b ∷ bs) ∷ []) cs) f',
      r
          ∙ keep_last-append t.ring_limit (t.ring ++ b ∷ bs) (concat cs)
          ∙ ap (keep_last t.ring_limit) (append_assoc t.ring (b ∷ bs) (concat cs)),
    )

-- A client that attaches gets the ring, and then every chunk that the machine writes, in order, up to
-- the room of its channel: what it has then is, to the length of the ring, what the ring itself has.
pub attach-delivers :
    (t : SerialTee) (cs : List Bytes)
    → All (λ c. c ≢ []) cs
    → length cs ≤ channel_room
    → (t' : SerialTee) × (drain_all (attach t).0 cs ≡ ok t')
      × (Map.lookup (attach t).2 t'.channels ≡ some (record { waiting = cs; closed = false }))
      × (keep_last t.ring_limit t'.ring ≡ keep_last t.ring_limit ((attach t).1 ++ concat cs))
unfolding attach
attach-delivers t cs all room =
    let (t', e, f, r) =
      drain_all-delivers (attach t).0 t.made [] cs (attach-Follows t) all (omega (arith, room)) in
    (t', e, f.1, r)

abbrev detached : SerialTee → ℕ → List Bytes → SerialTee
detached t ch ws = record t {
  subscriber = none;
  channels = Map.insert ch (record { waiting = ws; closed = true }) t.channels;
}

cleanup-detached :
    (t : SerialTee) (ch : ℕ) (ws : List Bytes)
    → Follows t ch ws
    → cleanup t ch ≡ ok (detached t ch ws)
unfolding cleanup
cleanup-detached t ch ws f = ground (arith, f.0, f.1, nat_eq_iff ch ch)

send-detached :
    (t : SerialTee) (ch : ℕ) (ws : List Bytes) (chunk : Bytes)
    → send (detached t ch ws) (some ch) chunk ≡ err send_on_closed
unfolding send
send-detached t ch ws chunk =
    ground (arith, lookup-insert ch ch (record { waiting = ws; closed = true }) t.channels)

-- A client that detaches between the two steps of a turn of the drain closes the channel that the
-- second step sends on, and the send panics: for any state in which the client is attached.
pub cleanup_in_turn :
    (t : SerialTee) (ch b : ℕ) (bs : Bytes) (ws : List Bytes)
    → Follows t ch ws
    → run t (reads (b ∷ bs) ∷ cleans ch ∷ sends (buffer t (b ∷ bs)).1 (b ∷ bs) ∷ [])
      ≡ err send_on_closed
unfolding run act buffer
cleanup_in_turn t ch b bs ws f =
    let t1 : SerialTee = record t { ring = keep_last t.ring_limit (t.ring ++ b ∷ bs) } in
    ground (arith, f.0, cleanup-detached t1 ch ws f, send-detached t1 ch ws (b ∷ bs))
