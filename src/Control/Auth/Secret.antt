-- ===== src/Control/Auth/Secret.antt =====
-- The cookie secret over restarts of the daemon.
use microvm_terminal.Base.{
  ◌*◌, ◌≡◌, ◌≢◌, refl, ap, Bool, true, Option, none, some, [], ◌∷◌, ◌++◌, Bytes, bytes, length, leb,
  le→leb, arith,
}
use microvm_terminal.Base.Hex.{hex_encode, hex_decode-hex_encode, hex_spaceless, AreBytes}
use microvm_terminal.Base.Result.{ok}
use microvm_terminal.Base.Trim.{
  is_space, trim_space, none_of-Edge, none_of-Edge-reverse, trim_both-line,
}
use microvm_terminal.Control.Auth.{load_or_create_secret}

length-hex_encode : (bs : Bytes) → length (hex_encode bs) ≡ 2 * length bs
unfolding hex_encode
length-hex_encode [] = omega arith
length-hex_encode (b ∷ bs) = omega (arith, length-hex_encode bs)

hex_encode_ne : (bs : Bytes) → bs ≢ [] → hex_encode bs ≢ []
unfolding hex_encode
hex_encode_ne [] ne e = ne refl
hex_encode_ne (b ∷ bs) ne e = absurd (ground (arith, e))

trim_space-hex_line :
    (bs : Bytes) → AreBytes bs → bs ≢ [] → trim_space (hex_encode bs ++ bytes "\n") ≡ hex_encode bs
unfolding trim_space
trim_space-hex_line bs h ne =
    let free = hex_spaceless bs h in
    trim_both-line is_space (hex_encode bs) b'\n' (unfold is_space in refl) (hex_encode_ne bs ne)
      (none_of-Edge is_space (hex_encode bs) free)
      (none_of-Edge-reverse is_space (hex_encode bs) free)

-- A daemon that starts without a secret file and can write it finds the secret that it made at every
-- later start, and leaves the file alone then.
pub load-create :
    (secret : Bytes) (random : Option Bytes) (writes : Bool)
    → AreBytes secret
    → length secret ≡ 32
    → let first = load_or_create_secret none (some secret) true in
      (first.0 ≡ ok secret) × (load_or_create_secret first.1 random writes ≡ (ok secret, none))
unfolding load_or_create_secret
load-create secret random writes h n =
    let some_byte : secret ≢ [] = λ e. absurd (omega (arith, n, ap length e)) in
    let long : leb 64 (length (hex_encode secret)) ≡ true =
      le→leb 64 (length (hex_encode secret)) (omega (arith, n, length-hex_encode secret)) in
    (refl, rw (trim_space-hex_line secret h some_byte, long, hex_decode-hex_encode secret h) refl)
