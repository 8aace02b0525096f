-- ===== src/Control/Serial/Ring.antt =====
-- The ring holds the end of what the machine has written.
use microvm_terminal.Base.{
  ℕ, ◌-◌, ◌≤◌, ◌≡◌, refl, sym, ap, ◌∙◌, List, [], ◌∷◌, ◌++◌, Bytes, length, drop, ltb,
  length-append, length-drop, drop-append_of_le, drop-drop, append-nil, append_assoc, arith, inl,
  inr, Bool-cases, Option, none, some,
}
use microvm_terminal.Base.Map
use microvm_terminal.Base.Tests.{ℕ-eq}
use microvm_terminal.Base.Result.{Result, ok, err}
use microvm_terminal.Control.Serial.{
  SerialTee, Act, reads, sends, attaches, cleans, receives, act, and_then, run, keep_last, Channel,
  Panic, put_channel, send_in, emptied, close_channel, offer, receive, buffer, new_serial_tee, send,
  attach, cleanup,
}

keep_last-drop : (n : ℕ) (b : Bytes) → keep_last n b ≡ drop (length b - n) b
unfolding keep_last
keep_last-drop n b =
    let whole : length b ≤ n → length b - n ≡ 0 = λ h. omega arith in
    elim (Bool-cases (ltb n (length b))) [
      | inl h ↦ rw h refl
      | inr h ↦ rw (h, whole (ground (arith, h))) refl
    ]

-- Cutting early changes nothing.
pub keep_last-append :
    (n : ℕ) (a b : Bytes) → keep_last n (keep_last n a ++ b) ≡ keep_last n (a ++ b)
keep_last-append n a b =
    rw
      (
        keep_last-drop n (keep_last n a ++ b),
        keep_last-drop n a,
        keep_last-drop n (a ++ b),
        sym (drop-append_of_le (length a - n) a b (omega arith)),
        drop-drop (length (drop (length a - n) (a ++ b)) - n) (length a - n) (a ++ b),
      )
      (ap (λ k. drop k (a ++ b))
        (omega (arith, length-drop (length a - n) (a ++ b), length-append a b)))

pub length-keep_last : (n : ℕ) (b : Bytes) → length (keep_last n b) ≤ n
length-keep_last n b = rw (keep_last-drop n b) (omega (arith, length-drop (length b - n) b))

-- What the machine has written.
abbrev pub written_in : Act → Bytes
written_in (reads chunk) = chunk
written_in (sends sub chunk) = []
written_in attaches = []
written_in (cleans ch) = []
written_in (receives ch) = []

abbrev pub written : List Act → Bytes
written [] = []
written (a ∷ rest) = written_in a ++ written rest

abbrev SameRing : SerialTee → SerialTee → Type 0
SameRing t t' = (t'.ring ≡ t.ring) × (t'.ring_limit ≡ t.ring_limit)

put_channel-SameRing :
    (t t' : SerialTee) (ch : ℕ) (c : Result Panic Channel)
    → put_channel t ch c ≡ ok t'
    → SameRing t t'
put_channel-SameRing t t' ch (err p) h = absurd (ground arith)
put_channel-SameRing t t' ch (ok c) h = ground arith

send_in-SameRing :
    (t t' : SerialTee) (ch : ℕ) (c : Option Channel) (chunk : Bytes)
    → send_in t ch c chunk ≡ ok t'
    → SameRing t t'
send_in-SameRing t t' ch none chunk h = ground arith
send_in-SameRing t t' ch (some c) chunk h = put_channel-SameRing t t' ch (offer c chunk) h

emptied-SameRing : (t : SerialTee) (ch : ℕ) (c : Option Channel) → SameRing t (emptied t ch c)
emptied-SameRing t ch none = (refl, refl)
emptied-SameRing t ch (some c) = (refl, refl)

-- The ring and its limit, when so much was written.
abbrev Holds : ℕ → Bytes → SerialTee → Type 0
Holds limit w t = (t.ring ≡ keep_last limit w) × (t.ring_limit ≡ limit)

Holds-same :
    (limit : ℕ) (w : Bytes) (t t' : SerialTee)
    → Holds limit w t
    → SameRing t t'
    → Holds limit (w ++ []) t'
Holds-same limit w t t' holds same = rw (append-nil w) (same.0 ∙ holds.0, same.1 ∙ holds.1)

act-Holds :
    (limit : ℕ) (w : Bytes) (t t' : SerialTee) (a : Act)
    → Holds limit w t
    → act t a ≡ ok t'
    → Holds limit (w ++ written_in a) t'
unfolding act buffer send attach cleanup receive
act-Holds limit w t t' (reads []) holds h = Holds-same limit w t t' holds (ground arith)
act-Holds limit w t t' (reads (b ∷ bs)) holds h = ground (arith, keep_last-append limit w (b ∷ bs))
act-Holds limit w t t' (sends none chunk) holds h = Holds-same limit w t t' holds (ground arith)
act-Holds limit w t t' (sends (some ch) chunk) holds h =
    Holds-same limit w t t' holds (send_in-SameRing t t' ch (Map.lookup ch t.channels) chunk h)
act-Holds limit w t t' attaches holds h = Holds-same limit w t t' holds (ground arith)
act-Holds limit w t t' (cleans ch) holds h =
    Holds-same limit w t t' holds
      (put_channel-SameRing _ t' ch (close_channel (Map.lookup ch t.channels)) h)
act-Holds limit w t t' (receives ch) holds h =
    let e = emptied-SameRing t ch (Map.lookup ch t.channels) in
    Holds-same limit w t t' holds (ground (arith, h, e.0, e.1))

and_then_ok :
    (r : Result Panic SerialTee) (f : SerialTee → Result Panic SerialTee) (t : SerialTee)
    → and_then r f ≡ ok t
    → (m : SerialTee) × (r ≡ ok m) × (f m ≡ ok t)
and_then_ok (err p) f t h = absurd (ground arith)
and_then_ok (ok m) f t h = (m, refl, h)

run-Holds :
    (limit : ℕ) (w : Bytes) (t t' : SerialTee) (rest : List Act)
    → Holds limit w t
    → run t rest ≡ ok t'
    → Holds limit (w ++ written rest) t'
unfolding run
run-Holds limit w t t' [] holds h = Holds-same limit w t t' holds (ground arith)
run-Holds limit w t t' (a ∷ rest) holds h =
    let (m, one, more) = and_then_ok (act t a) (λ t1. run t1 rest) t' h in
    rw (sym (append_assoc w (written_in a) (written rest)))
      (run-Holds limit (w ++ written_in a) m t' rest (act-Holds limit w t m a holds one) more)

-- Whatever the goroutines do, and in whatever order, as long as none of them panics: the ring holds
-- the last `limit` bytes of what the machine has written, or all of it when that is less.
pub run-ring :
    (limit : ℕ) (t : SerialTee) (acts : List Act)
    → run (new_serial_tee limit) acts ≡ ok t
    → (t.ring ≡ keep_last limit (written acts)) × (length t.ring ≤ limit)
unfolding new_serial_tee keep_last
run-ring limit t acts h =
    let holds = run-Holds limit [] (new_serial_tee limit) t acts (ground arith, refl) h in
    (holds.0, rw holds.0 (length-keep_last limit (written acts)))
