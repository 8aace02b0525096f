-- ===== src/Proxy/Stream/Copy.antt =====
-- What reaches the client, and what is kept, of a streamed body.
use microvm_terminal.Base.{
  ℕ, ◌+◌, ◌-◌, ◌<◌, ◌≡◌, refl, sym, ap, ◌∙◌, Bool, true, false, Option, List, [], ◌∷◌, ◌++◌,
  append-nil, append_assoc, Bytes, length, take, length-take, take-append, take-eq_of_le, concat,
  arith, nat_eq_iff, inl, inr, Bool-cases, ltb,
}
use microvm_terminal.Proxy.Stream.{
  Outer, Usage, no_usage, Client, write, flush, flush_blank, sniff, capture, capture_cap,
  read_lines, read_error, cons_byte, sse_end, sse_rest, sse_lines, stream_sse,
}

-- Cutting the body into lines loses no byte.
concat-cons_byte :
    (c : ℕ) (r : List Bytes × Bytes)
    → concat (cons_byte c r).0 ++ (cons_byte c r).1 ≡ c ∷ (concat r.0 ++ r.1)
concat-cons_byte c ([], rest) = refl
concat-cons_byte c (l ∷ ls, rest) = refl

pub concat-read_lines : (body : Bytes) → concat (read_lines body).0 ++ (read_lines body).1 ≡ body
unfolding read_lines
concat-read_lines [] = refl
concat-read_lines (c ∷ cs) =
    ground (arith, nat_eq_iff c b'\n', concat-read_lines cs, concat-cons_byte c (read_lines cs))

capture_lem : (x line : Bytes) → capture x line ≡ x ++ take (capture_cap - length x) line
unfolding capture
capture_lem x line = elim (Bool-cases (ltb (length x) capture_cap)) [
  | inl below ↦ elim (Bool-cases (ltb (length line) (capture_cap - length x))) [
    | inl short ↦
        rw (below, short)
          (ap (◌++◌ x) (sym (take-eq_of_le (capture_cap - length x) line (ground arith))))
    | inr long ↦ rw (below, long)
  ]
  | inr full ↦
      let none_left : capture_cap - length x ≡ 0 = ground arith in
      rw (full, none_left) (sym (append-nil x))
]

-- The capture is the beginning of what was copied.
capture-take : (t line : Bytes) → capture (take capture_cap t) line ≡ take capture_cap (t ++ line)
capture-take t line =
    let left : capture_cap - length (take capture_cap t) ≡ capture_cap - length t =
      omega (arith, length-take capture_cap t) in
    capture_lem (take capture_cap t) line
    ∙ ap (λ (n : ℕ). take capture_cap t ++ take n line) left
    ∙ sym (take-append capture_cap t line)

pub write_ok :
    (c : Client) (p : Bytes)
    → 0 < c.room
    → ((write c p).1 ≡ true)
      × ((write c p).0.sent ≡ c.sent ++ p)
      × ((write c p).0.room + 1 ≡ c.room)
unfolding write
write_ok c p h = ground arith

write_fail :
    (c : Client) (p : Bytes) → c.room ≡ 0 → ((write c p).1 ≡ false) × ((write c p).0.sent ≡ c.sent)
unfolding write
write_fail c p h = ground arith

pub flush_blank_frame :
    (flusher : Bool) (line : Bytes) (c : Client)
    → ((flush_blank flusher line c).sent ≡ c.sent) × ((flush_blank flusher line c).room ≡ c.room)
unfolding flush_blank
flush_blank_frame flusher line c = ground arith

module _ (unmarshal : Bytes → Option Outer) (flusher fails : Bool) where
  -- A copy with room for every line delivers the lines and the rest, where `t` was copied before.
  sse_rest-delivers :
      (c : Client) (u : Usage) (t rest : Bytes)
      → 0 < c.room
      → let r = sse_rest unmarshal flusher fails c u (take capture_cap t) rest in
        (r.client.sent ≡ c.sent ++ rest)
        × (r.captured ≡ take capture_cap (t ++ rest))
        × (r.error ≡ read_error fails)
  unfolding sse_rest sse_end flush
  sse_rest-delivers c u t [] h =
      (ground (arith, append-nil c.sent), ap (take capture_cap) (sym (append-nil t)), refl)
  sse_rest-delivers c u t (b ∷ bs) h = ground (arith, write_ok c (b ∷ bs), capture-take t (b ∷ bs))

  sse_lines-delivers :
      (c : Client) (u : Usage) (t : Bytes) (lines : List Bytes) (rest : Bytes)
      → length lines < c.room
      → let r = sse_lines unmarshal flusher fails c u (take capture_cap t) lines rest in
        (r.client.sent ≡ c.sent ++ (concat lines ++ rest))
        × (r.captured ≡ take capture_cap (t ++ (concat lines ++ rest)))
        × (r.error ≡ read_error fails)
  unfolding sse_lines
  sse_lines-delivers c u t [] rest h = sse_rest-delivers c u t rest (omega arith)
  sse_lines-delivers c u t (l ∷ ls) rest h =
      let (written, sent, room) = write_ok c l (omega arith) in
      let c'' = flush_blank flusher l (write c l).0 in
      let (same, left) = flush_blank_frame flusher l (write c l).0 in
      let ih = sse_lines-delivers c'' (sniff unmarshal u l) (t ++ l) ls rest (omega arith) in
      rw (written, capture-take t l)
        (
          ih.0
              ∙ ap (λ (x : Bytes). x ++ (concat ls ++ rest)) (same ∙ sent)
              ∙ append_assoc c.sent l (concat ls ++ rest)
              ∙ ap (◌++◌ c.sent) (sym (append_assoc l (concat ls) rest)),
          ih.1
              ∙ ap (take capture_cap) (
                  append_assoc t l (concat ls ++ rest)
                  ∙ ap (◌++◌ t) (sym (append_assoc l (concat ls) rest))),
          ih.2,
        )

  -- With room for one write more than the body has complete lines, the client gets the body to the
  -- last byte behind what it had, the capture is the first 32 KiB of the body, and the only error
  -- is that of the upstream.
  pub stream_sse-delivers :
      (c : Client) (body : Bytes)
      → length (read_lines body).0 < c.room
      → ((stream_sse unmarshal flusher fails c body).client.sent ≡ c.sent ++ body)
        × ((stream_sse unmarshal flusher fails c body).captured ≡ take capture_cap body)
        × ((stream_sse unmarshal flusher fails c body).error ≡ read_error fails)
  unfolding stream_sse
  stream_sse-delivers c body h =
      let r = read_lines body in
      let none_yet : take {A = ℕ} capture_cap [] ≡ [] =
        take-eq_of_le {A = ℕ} capture_cap [] (omega arith) in
      let whole = concat-read_lines body in
      let d = rw none_yet at (sse_lines-delivers c no_usage [] r.0 r.1 h) in
      (d.0 ∙ ap (◌++◌ c.sent) whole, d.1 ∙ ap (take capture_cap) whole, d.2)

  sse_rest_prefix :
      (c : Client) (u : Usage) (captured rest : Bytes)
      → (lost : Bytes) × ((sse_rest unmarshal flusher fails c u captured rest).client.sent ++ lost
          ≡ c.sent ++ rest)
  unfolding sse_rest sse_end flush
  sse_rest_prefix c u captured [] = ([], ground arith)
  sse_rest_prefix c u captured (b ∷ bs) = elim (Bool-cases (ltb 0 c.room)) [
    | inl open_room ↦ ([], ground (arith, write_ok c (b ∷ bs), append-nil (c.sent ++ b ∷ bs)))
    | inr full ↦ (b ∷ bs, ground (arith, write_fail c (b ∷ bs)))
  ]

  -- Whatever the client takes of the lines, it is a beginning of them.
  sse_lines_prefix :
      (c : Client) (u : Usage) (captured : Bytes) (lines : List Bytes) (rest : Bytes)
      → (lost : Bytes) × ((sse_lines unmarshal flusher fails c u captured lines rest).client.sent
            ++ lost
          ≡ c.sent ++ (concat lines ++ rest))
  unfolding sse_lines
  sse_lines_prefix c u captured [] rest = sse_rest_prefix c u captured rest
  sse_lines_prefix c u captured (l ∷ ls) rest = elim (Bool-cases (ltb 0 c.room)) [
    | inl open_room ↦
        let (written, sent, room) = write_ok c l (ground arith) in
        let c'' = flush_blank flusher l (write c l).0 in
        let (same, left) = flush_blank_frame flusher l (write c l).0 in
        let (lost, e) = sse_lines_prefix c'' (sniff unmarshal u l) (capture captured l) ls rest in
        (
          lost,
          rw written (
              e
              ∙ ap (λ (x : Bytes). x ++ (concat ls ++ rest)) (same ∙ sent)
              ∙ append_assoc c.sent l (concat ls ++ rest)
              ∙ ap (◌++◌ c.sent) (sym (append_assoc l (concat ls) rest))),
        )
    | inr full ↦
        let (refused, same) = write_fail c l (ground arith) in
        (
          (l ++ concat ls) ++ rest,
          rw refused (ap (λ (x : Bytes). x ++ ((l ++ concat ls) ++ rest)) same),
        )
  ]

  -- Whatever writes fail, the client has received a beginning of the body and nothing else.
  pub stream_sse_prefix :
      (c : Client) (body : Bytes)
      → (lost : Bytes) × ((stream_sse unmarshal flusher fails c body).client.sent ++ lost
          ≡ c.sent ++ body)
  unfolding stream_sse
  stream_sse_prefix c body =
      let r = read_lines body in
      let (lost, e) = sse_lines_prefix c no_usage [] r.0 r.1 in
      (lost, e ∙ ap (◌++◌ c.sent) (concat-read_lines body))
