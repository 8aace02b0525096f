-- ===== src/Proxy/Tests/Streams.antt =====
-- proxy/internal/server/stream.go at concrete inputs.
use microvm_terminal.Base.{
  ℕ, ◌≡◌, refl, true, false, Option, none, some, [], ◌∷◌, Bytes, bytes, length, take, arith,
}
use microvm_terminal.Base.Int64.{pos, negsuc}
use microvm_terminal.Proxy.Stream.{
  Outer, Client, no_usage, capture_cap, read_lines, stream_sse, max64,
}
use microvm_terminal.Proxy.Stream.Copy.{stream_sse-delivers}

-- Reads the length of an object for its output tokens.
abbrev pub by_length : Bytes → Option Outer
by_length b = some (record {
  usage = record { request_tokens = pos 5; response_tokens = pos (length b) };
  message = no_usage;
  delta = no_usage;
})

abbrev body : Bytes
body = bytes "data: {12}\n\ndata: {1}\nx"

abbrev pub taker : ℕ → Client
taker room = record { sent = []; flushes = 0; room = room }

two_lines : read_lines (bytes "a\n\nb") ≡ (bytes "a\n" ∷ bytes "\n" ∷ [], bytes "b")
unfolding read_lines
two_lines = refl

greatest : max64 (negsuc 3 ∷ pos 4 ∷ pos 2 ∷ []) ≡ pos 4
unfolding max64
greatest = refl

stream_sse-delivers_example :
    ((stream_sse by_length true false (taker 4) body).client.sent ≡ body)
    × ((stream_sse by_length true false (taker 4) body).captured ≡ take capture_cap body)
    × ((stream_sse by_length true false (taker 4) body).error ≡ none)
stream_sse-delivers_example =
    stream_sse-delivers by_length true false (taker 4) body (unfold read_lines in omega arith)
