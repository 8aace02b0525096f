-- ===== src/Proxy/Start/Serves.antt =====
-- What holds of a gateway that serves.
use microvm_terminal.Base.{
  ◌≡◌, refl, sym, ap, ◌∙◌, inl, inr, not, Bool, true, ◌||◌, Option, List, Bytes, bytes, arith,
}
use microvm_terminal.Base.Tests.{Bool-cases}
use microvm_terminal.Proxy.Keys
use microvm_terminal.Proxy.Keys.{Key, load_from_env}
use microvm_terminal.Proxy.Server.{Server}
use microvm_terminal.Proxy.Start.{
  Sink, Flags, Postgres, Running, Result, ok, err, sink_for, new_server, has_tls_files, text_or,
  listening, with_sink, with_keys, start,
}

-- Plaintext is only served with the flag for it, the keys were loaded, and the sink is the one that the
-- flag for the database asks for.
abbrev Serves : (Bytes → Option (List Key)) → Flags → (Bytes → Bytes) → Postgres → Running → Type 0
Serves unmarshal f env db r =
    (f.plain || has_tls_files f ≡ true)
    × ((keys : List Key) × (load_from_env unmarshal (env (bytes "ANTHROPIC_API_KEYS"))
          ≡ Keys.ok keys)
        × (r.server.pool ≡ Keys.new keys))
    × (sink_for f.postgres db ≡ ok r.sink)

ok_inj : {A : Type 0} → (x y : A) → ◌≡◌ {A = Result A} (ok x) (ok y) → x ≡ y
ok_inj x y h = ap (λ r. elim r [ ok z ↦ z | err e ↦ x ]) h

new_server-pool :
    (parses : Bytes → Bool) (f : Flags) (env : Bytes → Bytes) (keys : List Key) (s : Server)
    → new_server parses f env keys ≡ ok s
    → s.pool ≡ Keys.new keys
unfolding new_server
new_server-pool parses f env keys s h =
    elim (Bool-cases (parses (text_or (bytes "https://api.anthropic.com") f.upstream))) [
      | inl good ↦ sym (ap (λ x. x.pool) (ok_inj _ s (simp good at h)))
      | inr bad ↦ absurd (ground (arith, bad, h))
    ]

listening_parts :
    (f : Flags) (sink : Sink) (sv : Result Server) (r : Running)
    → listening f sink sv ≡ ok r
    → (f.plain || has_tls_files f ≡ true) × (sv ≡ ok r.server) × (sink ≡ r.sink)
listening_parts f sink (err e) r h = absurd (ground (arith, h))
listening_parts f sink (ok s) r h = elim (Bool-cases (f.plain || has_tls_files f)) [
  | inr refused ↦ absurd (ground (arith, refused, h))
  | inl allowed ↦
      let same : record { server = s; sink = sink; listen = f.listen; tls = not f.plain } ≡ r =
        ok_inj _ r (simp allowed at h) in
      (allowed, ap (λ x. ok x.server) same, ap (λ x. x.sink) same)
]

module _ (unmarshal : Bytes → Option (List Key)) (parses : Bytes → Bool) (f : Flags)
    (env : Bytes → Bytes) (db : Postgres) (r : Running) where
  with_sink-Serves :
      (keys : List Key) (sink : Result Sink)
      → load_from_env unmarshal (env (bytes "ANTHROPIC_API_KEYS")) ≡ Keys.ok keys
      → sink_for f.postgres db ≡ sink
      → with_sink parses f env keys sink ≡ ok r
      → Serves unmarshal f env db r
  with_sink-Serves keys (err e) loaded made h = absurd (ground (arith, h))
  with_sink-Serves keys (ok sink) loaded made h =
      let (allowed, same, kept) = listening_parts f sink (new_server parses f env keys) r h in
      (
        allowed,
        (keys, loaded, new_server-pool parses f env keys r.server same),
        made ∙ ap (λ x. ok x) kept,
      )

  with_keys-Serves :
      (loaded : Keys.Result (List Key))
      → load_from_env unmarshal (env (bytes "ANTHROPIC_API_KEYS")) ≡ loaded
      → with_keys parses f env db loaded ≡ ok r
      → Serves unmarshal f env db r
  with_keys-Serves (Keys.err e) same h = absurd (ground (arith, h))
  with_keys-Serves (Keys.ok keys) same h =
      with_sink-Serves keys (sink_for f.postgres db) same refl h

  -- A gateway that serves has loaded its keys and hands them out, writes its records to the sink that
  -- the flag for the database asks for, and serves plaintext only with the flag for it.
  start-Serves : start unmarshal parses f env db ≡ ok r → Serves unmarshal f env db r
  unfolding start
  start-Serves h =
      with_keys-Serves (load_from_env unmarshal (env (bytes "ANTHROPIC_API_KEYS"))) refl h
