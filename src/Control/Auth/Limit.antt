-- ===== src/Control/Auth/Limit.antt =====
-- How many logins an address is allowed.
use microvm_terminal.Base.{
  ℕ, ◌+◌, ◌-◌, ◌*◌, ◌≡◌, ◌≤◌, ◌≢◌, refl, sym, ap, subst, ◌∙◌, Bool, true, false, some, List, [],
  ◌∷◌, Bytes, bytes_eq, if◌then◌else◌, arith, inl, inr, Bool-cases,
}
use microvm_terminal.Base.Map
use microvm_terminal.Base.Map.{lookup-insert}
use microvm_terminal.Base.Text.{bytes-eq, bytes_eq_iff}
use microvm_terminal.Control.Auth.{Gate, RlState, token, rl_or_full, refilled, take_token, allow}

pub record Attempt : Type 0 where
  pub ip : Bytes
  pub at_time : ℕ

abbrev pub one_if : Bool → ℕ
one_if true = 1
one_if false = 0

-- How many attempts of the address are allowed.
unfoldable pub admitted : Bytes → Gate → List Attempt → ℕ
admitted ip g [] = 0
admitted ip g (a ∷ rest) =
    let r = allow g a.ip a.at_time in
    (if bytes_eq a.ip ip then one_if r.1 else 0) + admitted ip r.0 rest

-- Attempts in order of time, from `t` to `end`.
abbrev pub Within : ℕ → ℕ → List Attempt → Type 0
Within t end [] = t ≤ end
Within t end (a ∷ rest) = (t ≤ a.at_time) × Within a.at_time end rest

-- A round on one bucket: it never has more than five tokens, and gains no more than the time.
bucket_step :
    (st : RlState) (now : ℕ)
    → let r = take_token (refilled st now) in
      (r.0.last ≡ now)
      × (r.0.tokens + one_if r.1 * token ≤ 5 * token)
      × (r.0.tokens + one_if r.1 * token ≤ st.tokens + (now - st.last))
unfolding take_token refilled
bucket_step st now = ground arith

allow-other :
    (g : Gate) (ip other : Bytes) (now : ℕ)
    → ip ≢ other
    → Map.lookup other (allow g ip now).0.rl_tokens ≡ Map.lookup other g.rl_tokens
unfolding allow
allow-other g ip other now ne =
    let st = take_token (refilled (rl_or_full now (Map.lookup ip g.rl_tokens)) now) in
    ground (arith, lookup-insert ip other st.0 g.rl_tokens, bytes_eq_iff ip other)

allow-own :
    (g : Gate) (ip : Bytes) (now : ℕ)
    → let r = take_token (refilled (rl_or_full now (Map.lookup ip g.rl_tokens)) now) in
      (Map.lookup ip (allow g ip now).0.rl_tokens ≡ some r.0) × ((allow g ip now).1 ≡ r.1)
unfolding allow
allow-own g ip now =
    let st = take_token (refilled (rl_or_full now (Map.lookup ip g.rl_tokens)) now) in
    (ground (arith, lookup-insert ip ip st.0 g.rl_tokens, bytes_eq_iff ip ip), refl)

Within-le : (t end : ℕ) (cs : List Attempt) → Within t end cs → t ≤ end
Within-le t end [] h = h
Within-le t end (a ∷ cs) h = omega (arith, h.0, Within-le a.at_time end cs h.1)

Within-earlier : (s t end : ℕ) (cs : List Attempt) → s ≤ t → Within t end cs → Within s end cs
Within-earlier s t end [] h w = omega (arith, h, w)
Within-earlier s t end (a ∷ cs) h w = (omega (arith, h, w.0), w.1)

-- The bucket of an address before its attempt.
abbrev bucket_of : Gate → Bytes → ℕ → RlState
bucket_of g ip now = rl_or_full now (Map.lookup ip g.rl_tokens)

admitted_own :
    (ip : Bytes) (g : Gate) (a : Attempt) (cs : List Attempt)
    → a.ip ≡ ip
    → admitted ip g (a ∷ cs)
      ≡ one_if (take_token (refilled (bucket_of g ip a.at_time) a.at_time)).1
        + admitted ip (allow g ip a.at_time).0 cs
unfolding admitted
admitted_own ip g a cs e = rw (e, (bytes_eq_iff ip ip).1 refl, (allow-own g ip a.at_time).1) refl

admitted_other :
    (ip : Bytes) (g : Gate) (a : Attempt) (cs : List Attempt)
    → bytes_eq a.ip ip ≡ false
    → admitted ip g (a ∷ cs) ≡ admitted ip (allow g a.ip a.at_time).0 cs
unfolding admitted
admitted_other ip g a cs e = rw e (omega arith)

admitted-bucket :
    (ip : Bytes) (g : Gate) (cs : List Attempt) (st : RlState) (end : ℕ)
    → Map.lookup ip g.rl_tokens ≡ some st
    → Within st.last end cs
    → admitted ip g cs * token ≤ st.tokens + (end - st.last)
admitted-bucket ip g [] st end known within = unfold admitted in omega arith
admitted-bucket ip g (a ∷ cs) st end known within = elim (Bool-cases (bytes_eq a.ip ip)) [
  | inl own ↦
      let now = a.at_time in
      let e : a.ip ≡ ip = (bytes_eq_iff a.ip ip).0 own in
      let r = take_token (refilled (bucket_of g ip now) now) in
      let at : bucket_of g ip now ≡ st = ap (rl_or_full now) known in
      let ih =
        admitted-bucket ip (allow g ip now).0 cs r.0 end (allow-own g ip now).0
          (subst (λ t. Within t end cs) (sym (bucket_step (bucket_of g ip now) now).0) within.1) in
      rw (admitted_own ip g a cs e) (
        omega (
          arith,
          ih,
          bucket_step (bucket_of g ip now) now,
          ap (λ b. b.tokens) at,
          ap (λ b. b.last) at,
          within.0,
          Within-le now end cs within.1,
        ))
  | inr other ↦
      let ne : a.ip ≢ ip = ground (arith, other, bytes_eq_iff a.ip ip) in
      let ih =
        admitted-bucket ip (allow g a.ip a.at_time).0 cs st end
          (allow-other g a.ip ip a.at_time ne ∙ known)
          (Within-earlier st.last a.at_time end cs within.0 within.1) in
      rw (admitted_other ip g a cs other) ih
]

-- Whatever the gate has seen before and whoever else tries: in a span of time, an address is allowed
-- at most five logins and one more for each twelve seconds of the span.
pub admitted_bound :
    (ip : Bytes) (g : Gate) (cs : List Attempt) (t end : ℕ)
    → Within t end cs
    → admitted ip g cs * token ≤ 5 * token + (end - t)
admitted_bound ip g [] t end within = unfold admitted in omega arith
admitted_bound ip g (a ∷ cs) t end within = elim (Bool-cases (bytes_eq a.ip ip)) [
  | inl own ↦
      let now = a.at_time in
      let e : a.ip ≡ ip = (bytes_eq_iff a.ip ip).0 own in
      let r = take_token (refilled (bucket_of g ip now) now) in
      let later =
        admitted-bucket ip (allow g ip now).0 cs r.0 end (allow-own g ip now).0
          (subst (λ u. Within u end cs) (sym (bucket_step (bucket_of g ip now) now).0) within.1) in
      rw (admitted_own ip g a cs e) (
        omega (
          arith,
          later,
          bucket_step (bucket_of g ip now) now,
          within.0,
          Within-le now end cs within.1,
        ))
  | inr other ↦
      let ih = admitted_bound ip (allow g a.ip a.at_time).0 cs a.at_time end within.1 in
      rw (admitted_other ip g a cs other)
        (omega (arith, ih, within.0, Within-le a.at_time end cs within.1))
]
