-- ===== src/Proxy/Stream.antt =====
-- proxy/internal/server/stream.go: the copy of the upstream body to the client, with the token usage
-- sniffed from it. What encoding/json decodes is the argument `unmarshal`.
pub mod Copy
pub mod Whole
pub mod Metering
use microvm_terminal.Base.{
  ℕ, zero, suc, ◌+◌, ◌-◌, ◌*◌, ◌^◌, Bool, true, false, ◌&&◌, Option, none, some, List, [], ◌∷◌,
  ◌++◌, Bytes, bytes, bytes_eq, length, take, drop, concat, nat_eq, ltb, if◌then◌else◌,
}
use microvm_terminal.Base.Int64.{ℤ, pos, negsuc, lt64, add64, mul64}
use microvm_terminal.Base.Trim.{trim_space, has_prefix}

pub record Usage : Type 0 where
  pub request_tokens : ℤ
  pub response_tokens : ℤ

abbrev pub no_usage : Usage
no_usage = record { request_tokens = pos 0; response_tokens = pos 0 }

-- The token counts that json.Unmarshal finds at the three places, 0 where one is missing.
pub record Outer : Type 0 where
  pub usage : Usage
  pub message : Usage
  pub delta : Usage

-- The running maximum of max64, from `m` on.
unfoldable pub max_from : ℤ → List ℤ → ℤ
max_from m [] = m
max_from m (x ∷ xs) = max_from (if lt64 m x then x else m) xs

unfoldable pub max64 : List ℤ → ℤ
unfolding max_from
max64 xs = max_from (pos 0) xs

abbrev pub usage_of : Option Outer → Usage
unfolding max64
usage_of none = no_usage
usage_of (some o) = record {
  request_tokens =
      max64 (o.usage.request_tokens ∷ o.message.request_tokens ∷ o.delta.request_tokens ∷ []);
  response_tokens =
      max64 (o.usage.response_tokens ∷ o.message.response_tokens ∷ o.delta.response_tokens ∷ []);
}

abbrev pub if_object : Bytes → Usage → Usage
if_object [] u = no_usage
if_object (c ∷ cs) u = if nat_eq c b'{' then u else no_usage

unfoldable pub parse_usage : (Bytes → Option Outer) → Bytes → Usage
unfolding trim_space max64
parse_usage unmarshal b = let t = trim_space b in if_object t (usage_of (unmarshal t))

unfoldable pub merge_usage : Usage → Usage → Usage
merge_usage a b = record {
  request_tokens =
      if lt64 a.request_tokens b.request_tokens then b.request_tokens else a.request_tokens;
  response_tokens =
      if lt64 a.response_tokens b.response_tokens then b.response_tokens else a.response_tokens;
}

-- The client's side of the copy: the bytes that it took, the flushes, and how many more writes
-- succeed before one fails.
pub record Client : Type 0 where
  pub sent : Bytes
  pub flushes : ℕ
  pub room : ℕ

unfoldable pub write : Client → Bytes → Client × Bool
write c p = elim c.room [
  | zero ↦ (c, false)
  | suc r ↦ (record c { sent = c.sent ++ p; room = r }, true)
]

-- `flusher` says that the writer can flush.
unfoldable pub flush : Bool → Client → Client
flush flusher c = if flusher then record c { flushes = c.flushes + 1 } else c

-- A blank line ends an event.
unfoldable pub flush_blank : Bool → Bytes → Client → Client
unfolding flush bytes_eq
flush_blank flusher line c = if bytes_eq line (bytes "\n") then flush flusher c else c

pub data StreamError : Type 0 where
  write_failed read_failed : StreamError

-- What a copy returns, with the client that it leaves.
pub record Copied : Type 0 where
  pub client : Client
  pub usage : Usage
  pub captured : Bytes
  pub error : Option StreamError

abbrev pub read_error : Bool → Option StreamError
read_error true = some read_failed
read_error false = none

unfoldable pub capture_cap : ℕ
capture_cap = 32 * 1024

unfoldable pub capture : Bytes → Bytes → Bytes
capture captured line =
    if ltb (length captured) capture_cap
    then (let remain = capture_cap - length captured in
        if ltb (length line) remain then captured ++ line else captured ++ take remain line)
    else captured

-- The usage of a line, if it is a data line.
unfoldable pub sniff : (Bytes → Option Outer) → Usage → Bytes → Usage
unfolding parse_usage merge_usage has_prefix trim_space
sniff unmarshal usage line =
    if has_prefix line (bytes "data:")
    then merge_usage usage (parse_usage unmarshal (trim_space (drop 5 line)))
    else usage

-- The texts that ReadBytes('\n') returns with no error, and the rest that comes with the error at
-- the end of the body.
abbrev pub cons_byte : ℕ → List Bytes × Bytes → List Bytes × Bytes
cons_byte c ([], rest) = ([], c ∷ rest)
cons_byte c (l ∷ ls, rest) = ((c ∷ l) ∷ ls, rest)

unfoldable pub read_lines : Bytes → List Bytes × Bytes
read_lines [] = ([], [])
read_lines (c ∷ cs) =
    let r = read_lines cs in if nat_eq c b'\n' then ((c ∷ []) ∷ r.0, r.1) else cons_byte c r

module _ (unmarshal : Bytes → Option Outer) (flusher : Bool) (fails : Bool) where
  -- The end of the body: `fails` says that it was an error other than io.EOF.
  unfoldable pub sse_end : Client → Usage → Bytes → Copied
  unfolding flush
  sse_end c usage captured = record {
    client = if fails then c else flush flusher c;
    usage = usage;
    captured = captured;
    error = read_error fails;
  }

  -- The rest after the last line end, if there is one.
  unfoldable pub sse_rest : Client → Usage → Bytes → Bytes → Copied
  unfolding write capture sniff sse_end
  sse_rest c usage captured [] = sse_end c usage captured
  sse_rest c usage captured (b ∷ bs) =
      let line = b ∷ bs in
      let (c', written) = write c line in
      let captured' = capture captured line in
      if written
      then sse_end c' (sniff unmarshal usage line) captured'
      else record { client = c'; usage = usage; captured = captured'; error = some write_failed }

  unfoldable pub sse_lines : Client → Usage → Bytes → List Bytes → Bytes → Copied
  unfolding write flush_blank capture sniff sse_rest
  sse_lines c usage captured [] rest = sse_rest c usage captured rest
  sse_lines c usage captured (line ∷ lines) rest =
      let (c', written) = write c line in
      let captured' = capture captured line in
      let c'' = flush_blank flusher line c' in
      let go = sse_lines c'' (sniff unmarshal usage line) captured' lines rest in
      if written
      then go
      else record { client = c'; usage = usage; captured = captured'; error = some write_failed }

  unfoldable pub stream_sse : Client → Bytes → Copied
  unfolding read_lines sse_lines
  stream_sse c body = let r = read_lines body in sse_lines c no_usage [] r.0 r.1

-- limitedWriter over a buffer.
pub record LimitedWriter : Type 0 where
  pub w : Bytes
  pub n : ℕ

unfoldable pub limited_write : LimitedWriter → Bytes → LimitedWriter
limited_write lw p =
    if nat_eq lw.n 0
    then lw
    else if ltb lw.n (length p)
    then record { w = lw.w ++ take lw.n p; n = 0 }
    else record { w = lw.w ++ p; n = lw.n - length p }

unfoldable pub json_cap : ℕ
json_cap = 2 ^ 20

module _ (unmarshal : Bytes → Option Outer) (flusher : Bool) (fails : Bool) where
  -- io.Copy over the tee: each chunk that is read goes to the buffer, then to the client.
  unfoldable pub json_chunks : Client → LimitedWriter → List Bytes → Copied
  unfolding write flush limited_write parse_usage
  json_chunks c lw [] = record {
    client = flush flusher c;
    usage = if fails then no_usage else parse_usage unmarshal lw.w;
    captured = lw.w;
    error = read_error fails;
  }
  json_chunks c lw (p ∷ ps) =
      let lw' = limited_write lw p in
      let (c', written) = write c p in
      let go = json_chunks c' lw' ps in
      if written then go else record {
        client = flush flusher c';
        usage = no_usage;
        captured = lw'.w;
        error = some write_failed;
      }

  unfoldable pub stream_json : Client → List Bytes → Copied
  unfolding json_chunks
  stream_json c chunks = json_chunks c (record { w = []; n = json_cap }) chunks

-- The body as the chunks in which it arrives; an event stream is read by lines whatever these are.
unfoldable pub stream_body :
    (Bytes → Option Outer) → Bool → Bool → Bool → Client → List Bytes → Copied
unfolding stream_sse stream_json
stream_body unmarshal flusher fails is_sse c chunks =
    if is_sse
    then stream_sse unmarshal flusher fails c (concat chunks)
    else stream_json unmarshal flusher fails c chunks

unfoldable pub estimate_cost_micros : Usage → ℤ
estimate_cost_micros u = add64 (mul64 u.request_tokens 3) (mul64 u.response_tokens 15)
