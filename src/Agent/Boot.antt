-- ===== src/Agent/Boot.antt =====
-- From the command line that a machine is started with to the handshake of its agent.
use microvm_terminal.Base.{
  ℕ, ◌≡◌, ◌≢◌, refl, sym, ap, ◌∙◌, Bool, true, ◌&&◌, not, some, List, [], ◌∷◌, ◌++◌, append_assoc,
  Bytes, bytes, arith,
}
use microvm_terminal.Base.Decimal.{decimal}
use microvm_terminal.Base.Fields.{
  fields, fields-word, trim_prefix, has_prefix-append, trim_prefix-append,
}
use microvm_terminal.Base.Hex.{hex_encode, hex_spaceless, AreBytes}
use microvm_terminal.Base.Trim.{is_space, has_prefix, none_of}
use microvm_terminal.Agent.{
  token_key, port_key, default_vsock_port, leading_number, scanned, read_words, read_cmdline_params,
}
use microvm_terminal.Control.Machine.{boot_args, guest_vsock_port}

-- No word is a parameter of the agent.
abbrev pub foreign : List Bytes → Bool
foreign [] = true
foreign (w ∷ ws) = (not (has_prefix w token_key) && not (has_prefix w port_key)) && foreign ws

read_words-foreign :
    (ws : List Bytes) (found : Bytes × ℕ) → foreign ws ≡ true → read_words ws found ≡ found
unfolding read_words
read_words-foreign [] found h = refl
read_words-foreign (w ∷ ws) (token, port) h = ground (arith, h, read_words-foreign ws (token, port))

none_of-append :
    (p : ℕ → Bool) (a b : Bytes)
    → none_of p a ≡ true
    → none_of p b ≡ true
    → none_of p (a ++ b) ≡ true
none_of-append p [] b h g = g
none_of-append p (c ∷ a) b h g = ground (arith, h, none_of-append p a b)

cons_ne : (c : ℕ) (cs : Bytes) → c ∷ cs ≢ []
cons_ne c cs e = ground (arith, e)

-- A word of the command line, with the space behind it.
one_word :
    (c : ℕ) (w rest : Bytes) (words : List Bytes)
    → none_of is_space (c ∷ w) ≡ true
    → fields rest ≡ words
    → fields ((c ∷ w) ++ b' ' ∷ rest) ≡ (c ∷ w) ∷ words
unfolding is_space
one_word c w rest words free e =
    fields-word (c ∷ w) rest b' ' free (cons_ne c w) refl ∙ ap (◌∷◌ (c ∷ w)) e

-- The words of the command line.
fields-boot_args :
    (token more : Bytes)
    → none_of is_space token ≡ true
    → fields (boot_args token ++ b' ' ∷ more)
      ≡ bytes "console=ttyS0"
        ∷ bytes "reboot=k"
        ∷ bytes "panic=1"
        ∷ bytes "pci=off"
        ∷ bytes "rw"
        ∷ (token_key ++ token)
        ∷ bytes "mvt.vsock_port=5555"
        ∷ fields more
unfolding boot_args decimal is_space
fields-boot_args token more free =
    let keyed : none_of is_space (token_key ++ token) ≡ true =
      none_of-append is_space token_key token refl free in
    let port = one_word _ (bytes "vt.vsock_port=5555") more (fields more) refl refl in
    let shape : (token_key ++ (token ++ bytes " mvt.vsock_port=5555")) ++ b' ' ∷ more
        ≡ (token_key ++ token) ++ b' ' ∷ (bytes "mvt.vsock_port=5555" ++ b' ' ∷ more) =
      append_assoc token_key (token ++ bytes " mvt.vsock_port=5555") (b' ' ∷ more)
      ∙ ap (◌++◌ token_key) (append_assoc token (bytes " mvt.vsock_port=5555") (b' ' ∷ more))
      ∙ sym (append_assoc token_key token (b' ' ∷ (bytes "mvt.vsock_port=5555" ++ b' ' ∷ more))) in
    let from_key = ap fields shape ∙ one_word _ _ _ _ keyed port in
    one_word _ (bytes "onsole=ttyS0") _ _ refl (
      one_word _ (bytes "eboot=k") _ _ refl (
        one_word _ (bytes "anic=1") _ _ refl
          (one_word _ (bytes "ci=off") _ _ refl (one_word _ (bytes "w") _ _ refl from_key))))

read_words-token :
    (token : Bytes) (ws : List Bytes) (found : Bytes × ℕ)
    → read_words ((token_key ++ token) ∷ ws) found ≡ read_words ws (token, found.1)
unfolding read_words
read_words-token token ws (old, port) =
    rw (has_prefix-append token_key token, trim_prefix-append token_key token)

read_words-port :
    (token : Bytes) (port : ℕ) (ws : List Bytes)
    → read_words (bytes "mvt.vsock_port=5555" ∷ ws) (token, port) ≡ read_words ws (token, 5555)
unfolding read_words has_prefix trim_prefix scanned leading_number
read_words-port token port ws = refl

before_key :
    (w : Bytes) (ws : List Bytes)
    → read_words
        (bytes "console=ttyS0"
          ∷ bytes "reboot=k"
          ∷ bytes "panic=1"
          ∷ bytes "pci=off"
          ∷ bytes "rw"
          ∷ w
          ∷ ws)
        ([], default_vsock_port)
      ≡ read_words (w ∷ ws) ([], default_vsock_port)
unfolding read_words has_prefix
before_key w ws = refl

-- What the agent of a machine reads on its command line is the token and the port that the manager
-- has put there: for a token whose values are bytes, and whatever words Firecracker adds behind that
-- are no parameters of the agent.
pub read_cmdline_params-boot_args :
    (token more : Bytes)
    → AreBytes token
    → foreign (fields more) ≡ true
    → read_cmdline_params (some (boot_args (hex_encode token) ++ b' ' ∷ more))
      ≡ (hex_encode token, guest_vsock_port)
unfolding read_cmdline_params
read_cmdline_params-boot_args token more are_bytes none_there =
    ap (λ ws. read_words ws ([], default_vsock_port))
      (fields-boot_args (hex_encode token) more (hex_spaceless token are_bytes))
    ∙ before_key (token_key ++ hex_encode token) (bytes "mvt.vsock_port=5555" ∷ fields more)
    ∙ read_words-token (hex_encode token) (bytes "mvt.vsock_port=5555" ∷ fields more)
        ([], default_vsock_port)
    ∙ read_words-port (hex_encode token) default_vsock_port (fields more)
    ∙ read_words-foreign (fields more) (hex_encode token, guest_vsock_port) none_there
