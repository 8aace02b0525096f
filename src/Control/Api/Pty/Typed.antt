-- ===== src/Control/Api/Pty/Typed.antt =====
-- What the client types, and what it sees.
use microvm_terminal.Base.{
  ◌≡◌, refl, sym, ap, ◌∙◌, Bool, true, false, none, some, List, [], ◌∷◌, ◌++◌, Bytes, concat,
  append-nil, append_assoc, length, ltb, arith,
}
use microvm_terminal.Control.Guest.{}
use microvm_terminal.Control.Api.Pty.{
  ControlMessage, Message, binary, text, Write, whole, broken_after, Console, type_in, control,
  from_client, Event, cancelled, vm_exited, update, ping, to_client, streamed,
}

-- The input of a frame whose write succeeds.
abbrev pub typed : List Message → Bytes
typed [] = []
typed (binary data_read ∷ more) = data_read ++ typed more
typed (text m ∷ more) = typed more

abbrev pub all_whole : List Message → List (Message × Write)
all_whole [] = []
all_whole (m ∷ more) = (m, whole) ∷ all_whole more

pub from_client-append :
    (before : List Message) (after : List (Message × Write)) (c : Console)
    → from_client (all_whole before ++ after) c
      ≡ from_client after (from_client (all_whole before) c)
unfolding from_client
from_client-append [] after c = refl
from_client-append (binary data_read ∷ more) after c =
    from_client-append more after (type_in c data_read)
from_client-append (text none ∷ more) after c = from_client-append more after c
from_client-append (text (some m) ∷ more) after c = from_client-append more after (control c m)

control-stdin : (c : Console) (m : ControlMessage) → (control c m).stdin ≡ c.stdin
unfolding control
control-stdin c m = ground arith

pub from_client-stdin :
    (msgs : List Message) (c : Console)
    → (from_client (all_whole msgs) c).stdin ≡ c.stdin ++ typed msgs
unfolding from_client type_in
from_client-stdin [] c = sym (append-nil c.stdin)
from_client-stdin (binary data_read ∷ more) c =
    from_client-stdin more (type_in c data_read) ∙ append_assoc c.stdin data_read (typed more)
from_client-stdin (text none ∷ more) c = from_client-stdin more c
from_client-stdin (text (some m) ∷ more) c =
    from_client-stdin more (control c m) ∙ ap (λ s. s ++ typed more) (control-stdin c m)

-- What the client types arrives in order on the machine's standard input; when a write fails, what
-- was typed before it and the part of it that was written, and nothing that comes after.
from_client-typed :
    (before : List Message) (data_read part : Bytes) (after : List (Message × Write)) (c : Console)
    → ((from_client (all_whole before) c).stdin ≡ c.stdin ++ typed before)
      × ((from_client (all_whole before ++ (binary data_read, broken_after part) ∷ after) c).stdin
          ≡ c.stdin ++ (typed before ++ part))
unfolding from_client type_in
from_client-typed before data_read part after c = (
  from_client-stdin before c,
  rw
      (
        from_client-append before ((binary data_read, broken_after part) ∷ after) c,
        from_client-stdin before c,
      )
      (append_assoc c.stdin (typed before) part),
)

-- What the channel of updates yields.
abbrev pub chunks : List Event → List Bytes
chunks [] = []
chunks (update (some chunk) works ∷ more) = chunk ∷ chunks more
chunks (update none works ∷ more) = chunks more
chunks (cancelled ∷ more) = chunks more
chunks (vm_exited ∷ more) = chunks more
chunks (ping answered ∷ more) = chunks more

snoc_concat :
    (sent : List Bytes) (chunk rest : Bytes)
    → concat (sent ++ chunk ∷ []) ++ rest ≡ concat sent ++ (chunk ++ rest)
snoc_concat [] chunk rest = ap (λ c. c ++ rest) (append-nil chunk)
snoc_concat (s ∷ sent) chunk rest =
    append_assoc s (concat (sent ++ chunk ∷ [])) rest
    ∙ ap (◌++◌ s) (snoc_concat sent chunk rest)
    ∙ sym (append_assoc s (concat sent) (chunk ++ rest))

to_client-prefix :
    (events : List Event) (sent : List Bytes)
    → (rest : Bytes) × (concat sent ++ concat (chunks events)
        ≡ concat (to_client events sent).0 ++ rest)
unfolding to_client
to_client-prefix [] sent = ([], refl)
to_client-prefix (cancelled ∷ more) sent = (concat (chunks more), refl)
to_client-prefix (vm_exited ∷ more) sent = (concat (chunks more), refl)
to_client-prefix (update none works ∷ more) sent = (concat (chunks more), refl)
to_client-prefix (update (some chunk) false ∷ more) sent = (chunk ++ concat (chunks more), refl)
to_client-prefix (update (some chunk) true ∷ more) sent =
    let (rest, e) = to_client-prefix more (sent ++ chunk ∷ []) in
    (rest, sym (snoc_concat sent chunk (concat (chunks more))) ∙ e)
to_client-prefix (ping false ∷ more) sent = (concat (chunks more), refl)
to_client-prefix (ping true ∷ more) sent = to_client-prefix more sent

-- What the client sees is an unbroken beginning of the replay and the chunks that the console's channel
-- yields, in their order, whatever happens in between and however the stream ends.
streamed-prefix :
    (replay : Bytes) (works : Bool) (events : List Event)
    → (rest : Bytes) × (replay ++ concat (chunks events)
        ≡ concat (streamed replay works events).0 ++ rest)
unfolding streamed
streamed-prefix [] works events = to_client-prefix events []
streamed-prefix (b ∷ bs) true events =
    let some_bytes : ltb 0 (length (b ∷ bs)) ≡ true = ground arith in
    let (rest, e) = to_client-prefix events ((b ∷ bs) ∷ []) in
    rw some_bytes (rest, ap (λ r. r ++ concat (chunks events)) (sym (append-nil (b ∷ bs))) ∙ e)
streamed-prefix (b ∷ bs) false events =
    let some_bytes : ltb 0 (length (b ∷ bs)) ≡ true = ground arith in
    rw some_bytes ((b ∷ bs) ++ concat (chunks events), refl)
