-- ===== src/Control/Auth/Cookie.antt =====
-- Cookies: what Verify makes of those that the gate has signed, and of any other.
use microvm_terminal.Base.{
  ℕ, ◌+◌, ◌/◌, ◌≡◌, ◌<◌, ◌≢◌, refl, sym, ap, subst, ◌∙◌, Bool, true, false, Option, none, some, [],
  ◌∷◌, ◌++◌, append_assoc, Bytes, nat_eq, leb, if◌then◌else◌, arith, inl, inr, Bool-cases,
}
use microvm_terminal.Base.Decimal.{decimal}
use microvm_terminal.Base.Numerals.{parse_int, parse_int-decimal, all_digits, decimal-all_digits}
use microvm_terminal.Base.Hex.{hex_encode, hex_decode, hex_decode-hex_encode, AreBytes}
use microvm_terminal.Base.Int64.{int64_half}
use microvm_terminal.Base.Text.{bytes_eq_iff}
use microvm_terminal.Base.Trim.{none_of}
use microvm_terminal.Control.Auth.{
  second, cookie_max_age, Gate, slugify, payload, cut, behind, second_cut, first_cut, split3,
  cookie_value, signature_ok, not_expired, verified, verify,
}
use microvm_terminal.Control.Auth.Slug.{IsSlug, clean, slugify_lem}

abbrev is_bar : ℕ → Bool
is_bar c = nat_eq c b'|'

cut-bar : (a b : Bytes) → none_of is_bar a ≡ true → cut b'|' (a ++ b'|' ∷ b) ≡ (a, some b)
unfolding cut
cut-bar [] b h = refl
cut-bar (c ∷ a) b h = ground (arith, h, cut-bar a b)

behind-some :
    (c : ℕ) (r : Bytes × Option Bytes) (a b : Bytes)
    → behind c r ≡ (a, some b)
    → (r.1 ≡ some b) × (a ≡ c ∷ r.0)
behind-some c (before, after) a b h = ground (arith, h)

cut_sound : (sep : ℕ) (s a b : Bytes) → cut sep s ≡ (a, some b) → s ≡ a ++ sep ∷ b
unfolding cut
cut_sound sep [] a b h = absurd (ground (arith, h))
cut_sound sep (c ∷ s) a b h = elim (Bool-cases (nat_eq c sep)) [
  | inl here ↦ ground (arith, here, h)
  | inr there ↦
      let (after, before) = behind-some c (cut sep s) a b (ground (arith, there, h)) in
      let ih = cut_sound sep s (cut sep s).0 b (ground (arith, after)) in
      ap (◌∷◌ c) ih ∙ ap (λ x. x ++ sep ∷ b) (sym before)
]

clean_barless : (d : Bool) (s : Bytes) → clean d s ≡ true → none_of is_bar s ≡ true
clean_barless d [] h = refl
clean_barless d (c ∷ s) h = ground (arith, h, clean_barless false s, clean_barless true s)

digits_barless : (s : Bytes) → all_digits s ≡ true → none_of is_bar s ≡ true
digits_barless [] h = refl
digits_barless (c ∷ s) h = ground (arith, h, digits_barless s)

split3-payload :
    (owner exp sig : Bytes)
    → none_of is_bar owner ≡ true
    → none_of is_bar exp ≡ true
    → split3 (payload (payload owner exp) sig) ≡ some (owner, exp, sig)
unfolding split3 payload
split3-payload owner exp sig ho he =
    rw
      (
        append_assoc owner (b'|' ∷ exp) (b'|' ∷ sig),
        cut-bar owner (exp ++ b'|' ∷ sig) ho,
        cut-bar exp sig he,
      )
      refl

bar_free : (name : Bytes) → none_of is_bar (slugify name) ≡ true
bar_free name = clean_barless false (slugify name) (slugify_lem name).0.is_clean

-- The cookie of the owner that a name yields is accepted until it expires, and then no more: for a
-- name with a usable byte, a MAC whose values are bytes, and a clock before the year 2^63.
pub verify-cookie_value :
    (mac : Bytes → Bytes → Bytes) (g : Gate) (name : Bytes) (now later : ℕ)
    → ((key message : Bytes) → AreBytes (mac key message))
    → (now + cookie_max_age) / second < int64_half
    → slugify name ≢ []
    → verify mac g later (cookie_value mac g now (slugify name)) ≡ (
        if leb (later / second) ((now + cookie_max_age) / second)
        then some (slugify name)
        else none)
unfolding verify cookie_value
verify-cookie_value mac g name now later are_bytes fits usable =
    let owner = slugify name in
    let exp = decimal ((now + cookie_max_age) / second) in
    let sig = mac g.cookie_secret (payload owner exp) in
    let parts =
      split3-payload owner exp (hex_encode sig) (bar_free name)
        (digits_barless exp (decimal-all_digits ((now + cookie_max_age) / second))) in
    let fixed : slugify owner ≡ owner = (slugify_lem owner).1.1 (slugify_lem name).0 in
    rw
      (
        parts,
        hex_decode-hex_encode sig (are_bytes g.cookie_secret (payload owner exp)),
        parse_int-decimal ((now + cookie_max_age) / second) fits,
        fixed,
      )
      (ground
        (arith, bytes_eq_iff sig sig, bytes_eq_iff owner [], bytes_eq_iff owner owner, usable))

-- What a cookie that is accepted for an owner must be: the owner and an expiry that has not passed,
-- signed with the gate's secret, and an owner that is a slug.
pub record Signed (mac : Bytes → Bytes → Bytes) (g : Gate) (now : ℕ) (value owner : Bytes)
    : Type 0 where
  pub exp : Bytes
  pub sig : Bytes
  pub shape : value ≡ payload (payload owner exp) sig
  pub signature : hex_decode sig ≡ some (mac g.cookie_secret (payload owner exp))
  pub not_late : not_expired now (parse_int exp) ≡ true
  pub slug : IsSlug owner
  pub nonempty : owner ≢ []

second_cut_sound :
    (o o' e s : Bytes) (r : Bytes × Option Bytes)
    → second_cut o r ≡ some (o', e, s)
    → (o ≡ o') × (r ≡ (e, some s))
second_cut_sound o o' e s (exp, none) h = absurd (ground (arith, h))
second_cut_sound o o' e s (exp, some sig) h = ground (arith, h)

first_cut_sound :
    (o e s : Bytes) (r : Bytes × Option Bytes)
    → first_cut r ≡ some (o, e, s)
    → (rest : Bytes) × (r ≡ (o, some rest)) × (cut b'|' rest ≡ (e, some s))
first_cut_sound o e s (owner, none) h = absurd (ground (arith, h))
first_cut_sound o e s (owner, some rest) h =
    let found = second_cut_sound owner o e s (cut b'|' rest) h in
    (rest, ap (λ x. (x, some rest)) found.0, found.1)

split3_sound :
    (value o e s : Bytes) → split3 value ≡ some (o, e, s) → value ≡ payload (payload o e) s
unfolding split3 payload
split3_sound value o e s h =
    let (rest, one, two) = first_cut_sound o e s (cut b'|' value) h in
    cut_sound b'|' value o rest one
    ∙ ap (λ x. o ++ b'|' ∷ x) (cut_sound b'|' rest e s two)
    ∙ sym (append_assoc o (b'|' ∷ e) (b'|' ∷ s))

signature_ok_sound :
    (expected : Bytes) (o : Option Bytes) → signature_ok expected o ≡ true → o ≡ some expected
signature_ok_sound expected none h = absurd (ground (arith, h))
signature_ok_sound expected (some sig) h = ap some ((bytes_eq_iff sig expected).0 h)

verified-Signed :
    (mac : Bytes → Bytes → Bytes) (g : Gate) (now : ℕ) (value owner : Bytes)
    (parts : Option (Bytes × Bytes × Bytes))
    → split3 value ≡ parts
    → verified mac g now parts ≡ some owner
    → Signed mac g now value owner
verified-Signed mac g now value owner none eq h = absurd (ground (arith, h))
verified-Signed mac g now value owner (some (o, e, s)) eq h =
    let signed : signature_ok (mac g.cookie_secret (payload o e)) (hex_decode s) ≡ true =
      ground (arith, h) in
    let on_time : not_expired now (parse_int e) ≡ true = ground (arith, h) in
    let slug : slugify o ≡ o = ground (arith, h, bytes_eq_iff (slugify o) o) in
    let some_owner : o ≢ [] = ground (arith, h, bytes_eq_iff o []) in
    let same : o ≡ owner = ground (arith, h) in
    subst (Signed mac g now value) same (record {
      exp = e;
      sig = s;
      shape = split3_sound value o e s eq;
      signature = signature_ok_sound (mac g.cookie_secret (payload o e)) (hex_decode s) signed;
      not_late = on_time;
      slug = (slugify_lem o).1.0 slug;
      nonempty = some_owner;
    })

-- A value that Verify accepts for an owner is that owner, an expiry that has not passed, and in hex
-- the MAC of the two under the gate's secret; and the owner is a slug that is not empty.
pub verify-Signed :
    (mac : Bytes → Bytes → Bytes) (g : Gate) (now : ℕ) (value owner : Bytes)
    → verify mac g now value ≡ some owner
    → Signed mac g now value owner
unfolding verify
verify-Signed mac g now value owner h = verified-Signed mac g now value owner (split3 value) refl h
