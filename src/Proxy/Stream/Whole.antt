-- ===== src/Proxy/Stream/Whole.antt =====
-- The copy of a body that is no event stream, and the buffer that is parsed for its usage.
use microvm_terminal.Base.{
  ℕ, zero, suc, ◌-◌, ◌≤◌, ◌≡◌, refl, sym, ap, ◌∙◌, Bool, Option, List, [], ◌∷◌, ◌++◌, append-nil,
  append_assoc, Bytes, length, length-append, take, take-append, take-eq_of_le, concat, arith,
  if◌then◌else◌,
}
use microvm_terminal.Proxy.Stream.{
  Outer, Client, LimitedWriter, no_usage, parse_usage, write, flush, read_error, limited_write,
  json_cap, json_chunks, stream_json,
}
use microvm_terminal.Proxy.Stream.Copy.{write_ok}

take_none : (n : ℕ) (p : Bytes) → n ≡ 0 → take n p ≡ []
take_none zero p h = refl
take_none (suc n) p h = absurd (omega arith)

limited_write_lem :
    (lw : LimitedWriter) (p : Bytes)
    → limited_write lw p ≡ record { w = lw.w ++ take lw.n p; n = lw.n - length p }
unfolding limited_write
limited_write_lem lw p = ground (arith, take_none lw.n p, append-nil lw.w, take-eq_of_le lw.n p)

-- After some bytes `t`, a limited writer of `cap` bytes holds the first `cap` of them.
abbrev Holds : ℕ → Bytes → LimitedWriter → Type 0
Holds cap t lw = (lw.w ≡ take cap t) × (lw.n ≡ cap - length t)

limited_write-Holds :
    (cap : ℕ) (t p : Bytes) (lw : LimitedWriter)
    → Holds cap t lw
    → Holds cap (t ++ p) (limited_write lw p)
limited_write-Holds cap t p lw (w, n) =
    rw (limited_write_lem lw p)
      (rw (w, n) (sym (take-append cap t p)), omega (arith, length-append t p))

module _ (unmarshal : Bytes → Option Outer) (flusher fails : Bool) where
  json_chunks-delivers :
      (c : Client) (cap : ℕ) (t : Bytes) (lw : LimitedWriter) (chunks : List Bytes)
      → length chunks ≤ c.room
      → Holds cap t lw
      → let r = json_chunks unmarshal flusher fails c lw chunks in
        (r.client.sent ≡ c.sent ++ concat chunks)
        × (r.captured ≡ take cap (t ++ concat chunks))
        × (r.usage
            ≡ (if fails then no_usage else parse_usage unmarshal (take cap (t ++ concat chunks))))
        × (r.error ≡ read_error fails)
  unfolding json_chunks flush
  json_chunks-delivers c cap t lw [] h holds = ground (arith, append-nil c.sent, append-nil t)
  json_chunks-delivers c cap t lw (p ∷ ps) h holds =
      let (written, sent, room) = write_ok c p (omega arith) in
      let ih =
        json_chunks-delivers (write c p).0 cap (t ++ p) (limited_write lw p) ps (omega arith)
          (limited_write-Holds cap t p lw holds) in
      let regroup = append_assoc t p (concat ps) in
      rw (written, ← regroup)
        (
          ih.0 ∙ ap (λ (x : Bytes). x ++ concat ps) sent ∙ append_assoc c.sent p (concat ps),
          ih.1,
          ih.2,
          ih.3,
        )

  -- With room for every chunk, the client gets the whole body behind what it had, whatever the
  -- chunks in which it came, and the usage is read from the first MiB of the body.
  pub stream_json-delivers :
      (c : Client) (chunks : List Bytes)
      → length chunks ≤ c.room
      → let r = stream_json unmarshal flusher fails c chunks in
        (r.client.sent ≡ c.sent ++ concat chunks)
        × (r.captured ≡ take json_cap (concat chunks))
        × (r.usage
            ≡ (if fails then no_usage else parse_usage unmarshal (take json_cap (concat chunks))))
        × (r.error ≡ read_error fails)
  unfolding stream_json
  stream_json-delivers c chunks h =
      json_chunks-delivers c json_cap [] (record { w = []; n = json_cap }) chunks h
        (sym (take-eq_of_le {A = ℕ} json_cap [] (omega arith)), omega arith)
