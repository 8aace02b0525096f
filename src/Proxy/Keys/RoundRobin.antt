-- ===== src/Proxy/Keys/RoundRobin.antt =====
-- Which keys the tokens are pinned to, and which errors leave the pool alone.
use microvm_terminal.Base.{
  ℕ, zero, suc, ◌+◌, ◌%◌, ◌<◌, ◌≡◌, ◌≢◌, refl, sym, ◌∙◌, subst, Option, none, some, List, [], ◌∷◌,
  Bytes, arith, length, get_elem?, get_elem?-some, All, Distinct, ◌⊎◌, inl, inr,
}
use microvm_terminal.Base.Map
use microvm_terminal.Base.Text.{bytes-eq, bytes_eq_iff}
use microvm_terminal.Proxy.Keys.{
  Key, Pool, Error, err, empty_pool, rand_failed, pin, mint_session_token, register_session_token,
}

-- The index into a pool that is not empty is in range.
pub pinned_key :
    (p : Pool) → 0 < length p.keys → (k : Key) × (get_elem? p.keys (p.rr % length p.keys) ≡ some k)
pinned_key p h = get_elem?-some p.keys (p.rr % length p.keys) (grind arith)

unfoldable pub register_all : Pool → List Bytes → Pool
register_all p [] = p
register_all p (t ∷ ts) = register_all (register_session_token p t).0 ts

pin_lem :
    (p : Pool) (token : Bytes) (k : Key)
    → get_elem? p.keys (p.rr % length p.keys) ≡ some k
    → let q = (register_session_token p token).0 in
      (q.keys ≡ p.keys)
      × (q.rr ≡ p.rr + 1)
      × (q.session_to_key ≡ Map.insert token k.id p.session_to_key)
unfolding register_session_token pin
pin_lem p token k e = ground arith

-- A registration under another token.
register_frame :
    (p : Pool) (token other : Bytes)
    → token ≢ other
    → 0 < length p.keys
    → let q = (register_session_token p token).0 in
      (q.keys ≡ p.keys)
      × (q.rr ≡ p.rr + 1)
      × (Map.lookup other q.session_to_key ≡ Map.lookup other p.session_to_key)
register_frame p token other ne h =
    let (k, e) = pinned_key p h in
    let (same, next, pins) = pin_lem p token k e in
    (
      same,
      next,
      rw pins (
          ground
            (arith, bytes_eq_iff token other, Map.lookup-insert token other k.id p.session_to_key)),
    )

register_all_frame :
    (p : Pool) (ts : List Bytes) (t : Bytes)
    → 0 < length p.keys
    → All (λ y. t ≢ y) ts
    → Map.lookup t (register_all p ts).session_to_key ≡ Map.lookup t p.session_to_key
unfolding register_all
register_all_frame p [] t h ne = refl
register_all_frame p (x ∷ ts) t h ne =
    let (same, next, kept) = register_frame p x t (λ e. ne.0 (sym e)) h in
    register_all_frame (register_session_token p x).0 ts t (rw same h) ne.1 ∙ kept

-- Distinct tokens registered in turn go round the pool: the token at position `i` is pinned to the
-- key at position `(rr + i) mod n` of the `n` keys, where `rr` is the index before the first; for a
-- pool that is not empty.
pub register_all_pins :
    (p : Pool) (ts : List Bytes) (i : ℕ) (t : Bytes) (k : Key)
    → 0 < length p.keys
    → Distinct ts
    → get_elem? ts i ≡ some t
    → get_elem? p.keys ((p.rr + i) % length p.keys) ≡ some k
    → Map.lookup t (register_all p ts).session_to_key ≡ some k.id
unfolding register_all
register_all_pins p [] i t k h d e g = absurd (ground arith)
register_all_pins p (x ∷ ts) zero t k h d e g =
    let g' : get_elem? p.keys (p.rr % length p.keys) ≡ some k =
      subst (λ (n : ℕ). get_elem? p.keys (n % length p.keys) ≡ some k) (omega arith) g in
    let (same, next, pins) = pin_lem p x k g' in
    let x_is_t : x ≡ t = ground arith in
    rw (← x_is_t) (
      register_all_frame (register_session_token p x).0 ts x (rw same h) d.0
      ∙ rw pins (ground (arith, bytes_eq_iff x x, Map.lookup-insert x x k.id p.session_to_key)))
register_all_pins p (x ∷ ts) (suc i) t k h d e g =
    let (first, at) = pinned_key p h in
    let (same, next, pins) = pin_lem p x first at in
    register_all_pins (register_session_token p x).0 ts i t k (rw same h) d.1 e (
      rw (same, next)
        (subst (λ (n : ℕ). get_elem? p.keys (n % length p.keys) ≡ some k) (omega arith) g))

-- What a refused token says of the pool and the random source.
abbrev Refused : Pool → Option Bytes → Error → Type 0
Refused p random e = ((e ≡ empty_pool) × (p.keys ≡ [])) ⊎ ((e ≡ rand_failed) × (random ≡ none))

mint_error_at :
    (p : Pool) (ks : List Key) (random : Option Bytes) (e : Error)
    → p.keys ≡ ks
    → (mint_session_token p random).1 ≡ err e
    → Refused p random e × ((mint_session_token p random).0 ≡ p)
unfolding mint_session_token pin
mint_error_at p [] random e is h = (inl (ground arith, is), ground arith)
mint_error_at p (k ∷ ks) none e is h = (inr (ground arith, refl), ground arith)
mint_error_at p (k ∷ ks) (some b) e is h =
    let (key, at) = pinned_key p (rw is (omega arith)) in absurd (ground arith)

-- A token is refused only for an empty pool or a failure of the random source, and then the pool
-- is as it was: the index into the pool is never out of range.
pub mint_error :
    (p : Pool) (random : Option Bytes) (e : Error)
    → (mint_session_token p random).1 ≡ err e
    → (((e ≡ empty_pool) × (p.keys ≡ [])) ⊎ ((e ≡ rand_failed) × (random ≡ none)))
      × ((mint_session_token p random).0 ≡ p)
mint_error p random e h = mint_error_at p p.keys random e refl h
