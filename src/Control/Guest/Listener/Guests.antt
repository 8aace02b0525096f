-- ===== src/Control/Guest/Listener/Guests.antt =====
-- Who becomes the guest of a session.
use microvm_terminal.Base.{
  ℕ, ◌≡◌, ◌⊎◌, inl, inr, refl, sym, subst, ◌∙◌, Bool, true, false, Option, none, some, List, [],
  ◌∷◌, nat_eq, arith, if◌then◌else◌,
}
use microvm_terminal.Base.Lists.{IsIn}
use microvm_terminal.Base.Tests.{Bool-cases, nat_eq_iff}
use microvm_terminal.Base.Text.{bytes_eq_iff}
use microvm_terminal.Control.Guest.{
  Geometry, Channel, Hello, is_empty, accepts, join, replay, send_to_guest, sent_on, write_frame,
  set_guest_conn, handle_guest_conn, leave,
}
use microvm_terminal.Control.Guest.Listener.{
  Accepted, connected, timed_out, net_closed, failed, Listener, Turn, looks, greets, ends, has,
  drop_conn, round, welcome, greeted, take_turn, accept_loop, start_vsock_listener,
}

has-IsIn : (k : ℕ) (xs : List ℕ) → has k xs ≡ true → IsIn k xs
has-IsIn k [] h = absurd (ground (arith, h))
has-IsIn k (x ∷ xs) h = elim (Bool-cases (nat_eq x k)) [
  | inl here ↦ inl (sym ((nat_eq_iff x k).0 here))
  | inr elsewhere ↦ inr (has-IsIn k xs (ground (arith, h, elsewhere)))
]

IsIn-drop_conn : (j k : ℕ) (xs : List ℕ) → IsIn j (drop_conn k xs) → IsIn j xs
IsIn-drop_conn j k [] h = h
IsIn-drop_conn j k (x ∷ xs) h = elim (Bool-cases (nat_eq x k)) [
  | inl here ↦ inr (simp here at h)
  | inr elsewhere ↦ elim (simp elsewhere at h) [
    | inl same ↦ inl same
    | inr rest ↦ inr (IsIn-drop_conn j k xs rest)
  ]
]

-- A connection that the loop accepted and whose hello has the session's token.
abbrev pub HasToken : Channel → List Turn → ℕ → Type 0
HasToken c turns conn =
    (h : Hello) × IsIn (looks false (connected conn)) turns
    × IsIn (greets conn (some h)) turns
    × (h.session_token ≡ c.session_token)

-- The guest is the one that was there; or a connection with the token; or there is none, since the
-- handler of such a connection has ended.
abbrev pub Vouched : Channel → List Turn → Channel → Type 0
Vouched c turns c' =
    (c'.guest_conn ≡ c.guest_conn)
    ⊎ (conn : ℕ) × HasToken c turns conn
      × ((c'.guest_conn ≡ some conn) ⊎ (c'.guest_conn ≡ none) × IsIn (ends conn) turns)

abbrev SameGuest : Channel → Channel → Type 0
SameGuest c c' = (c'.guest_conn ≡ c.guest_conn) × (c'.session_token ≡ c.session_token)

sent_on-SameGuest : (c : Channel) (g : Geometry) (o : Option ℕ) → SameGuest c (sent_on c g o).0
unfolding write_frame
sent_on-SameGuest c g none = (refl, refl)
sent_on-SameGuest c g (some conn) = (refl, refl)

replay-SameGuest : (c : Channel) → SameGuest c (replay c)
unfolding replay send_to_guest
replay-SameGuest c = elim (Bool-cases (is_empty c.window)) [
  | inl empty ↦ rw empty (refl, refl)
  | inr full ↦ rw full (sent_on-SameGuest c c.window c.guest_conn)
]

-- What a handler makes of the channel: nothing, or its connection is the guest.
handled :
    (c : Channel) (conn : ℕ) (hello : Option Hello)
    → let c' = handle_guest_conn c conn hello in
      (c'.session_token ≡ c.session_token)
      × ((c'.guest_conn ≡ c.guest_conn)
          ⊎ (h : Hello) × (hello ≡ some h)
            × (h.session_token ≡ c.session_token)
            × (c'.guest_conn ≡ some conn))
unfolding handle_guest_conn join set_guest_conn
handled c conn none = (refl, inl refl)
handled c conn (some h) = elim (Bool-cases (accepts c h)) [
  | inr refused ↦ rw refused (refl, inl refl)
  | inl taken ↦
      let (guest, token) = replay-SameGuest (join c conn) in
      let agree : h.session_token ≡ c.session_token =
        (bytes_eq_iff h.session_token c.session_token).0 (ground (arith, taken)) in
      rw taken (token, inr (h, refl, agree, guest))
]

module _ (c : Channel) (turns : List Turn) where
  -- The token stays, the handlers that wait are those of accepted connections and those in their loop
  -- have had the token, and the guest is vouched for.
  record Guarded (l : Listener) : Type 0 where
    token : l.channel.session_token ≡ c.session_token
    accepted : (conn : ℕ) → IsIn conn l.waiting → IsIn (looks false (connected conn)) turns
    vouched : Vouched c turns l.channel
    tokens : (conn : ℕ) → IsIn conn l.served → HasToken c turns conn

  round-Guarded :
      (done : Bool) (a : Accepted) (l : Listener)
      → IsIn (looks done a) turns
      → Guarded l
      → Guarded (round done a l)
  round-Guarded true a l at g = record {
    token = g.token;
    accepted = g.accepted;
    vouched = g.vouched;
    tokens = g.tokens;
  }
  round-Guarded false net_closed l at g = record {
    token = g.token;
    accepted = g.accepted;
    vouched = g.vouched;
    tokens = g.tokens;
  }
  round-Guarded false timed_out l at g = g
  round-Guarded false failed l at g = g
  round-Guarded false (connected conn) l at g = record {
    token = g.token;
    accepted = λ j h. elim h [
      | inl same ↦ subst (λ i. IsIn (looks false (connected i)) turns) (sym same) at
      | inr rest ↦ g.accepted j rest
    ];
    vouched = g.vouched;
    tokens = g.tokens;
  }

  greeting-HasToken :
      (conn : ℕ) (hello : Option Hello) (h : Hello) (l : Listener)
      → IsIn (greets conn hello) turns
      → IsIn conn l.waiting
      → Guarded l
      → hello ≡ some h
      → h.session_token ≡ l.channel.session_token
      → HasToken c turns conn
  greeting-HasToken conn hello h l at waits g is agree =
      (h, g.accepted conn waits, subst (λ x. IsIn (greets conn x) turns) is at, agree ∙ g.token)

  served_still :
      (conn : ℕ) (hello : Option Hello) (l : Listener)
      → IsIn (greets conn hello) turns
      → IsIn conn l.waiting
      → Guarded l
      → (j : ℕ) (b : Bool) → welcome l.channel hello ≡ b
      → IsIn j (if b then conn ∷ l.served else l.served)
      → HasToken c turns j
  served_still conn hello l at waits g j false e there = g.tokens j there
  served_still conn none l at waits g j true e there = absurd (ground (arith, e))
  served_still conn (some h) l at waits g j true e (inr rest) = g.tokens j rest
  served_still conn (some h) l at waits g j true e (inl same) =
      let agree : h.session_token ≡ l.channel.session_token =
        (bytes_eq_iff h.session_token l.channel.session_token).0 (ground (arith, e)) in
      subst (HasToken c turns) (sym same)
        (greeting-HasToken conn (some h) h l at waits g refl agree)

  greeted-Guarded :
      (conn : ℕ) (hello : Option Hello) (l : Listener)
      → IsIn (greets conn hello) turns
      → IsIn conn l.waiting
      → Guarded l
      → Guarded (greeted conn hello l)
  greeted-Guarded conn hello l at waits g =
      let (token, guest) = handled l.channel conn hello in
      record {
        token = token ∙ g.token;
        accepted = λ j h. g.accepted j (IsIn-drop_conn j conn l.waiting h);
        vouched = elim guest [
          | inl same ↦ elim g.vouched [
            | inl kept ↦ inl (same ∙ kept)
            | inr (k, t, inl e) ↦ inr (k, t, inl (same ∙ e))
            | inr (k, t, inr (gone, e)) ↦ inr (k, t, inr (same ∙ gone, e))
          ]
          | inr (h, is, agree, e) ↦
              inr (conn, greeting-HasToken conn hello h l at waits g is agree, inl e)
        ];
        tokens = λ j. served_still conn hello l at waits g j (welcome l.channel hello) refl;
      }

  take_turn-Guarded : (t : Turn) (l : Listener) → IsIn t turns → Guarded l → Guarded (take_turn t l)
  unfolding take_turn leave set_guest_conn
  take_turn-Guarded (looks done a) l at g = elim (Bool-cases l.socket) [
    | inl there ↦ simp there (round-Guarded done a l at g)
    | inr gone ↦ simp gone g
  ]
  take_turn-Guarded (greets conn hello) l at g = elim (Bool-cases (has conn l.waiting)) [
    | inl waits ↦ simp waits (greeted-Guarded conn hello l at (has-IsIn conn l.waiting waits) g)
    | inr stray ↦ simp stray g
  ]
  take_turn-Guarded (ends conn) l at g = elim (Bool-cases (has conn l.served)) [
    | inl stays ↦ simp stays (record {
      token = g.token;
      accepted = g.accepted;
      vouched = inr (conn, g.tokens conn (has-IsIn conn l.served stays), inr (refl, at));
      tokens = λ j h. g.tokens j (IsIn-drop_conn j conn l.served h);
    })
    | inr stray ↦ simp stray g
  ]

  accept_loop-Guarded :
      (ts : List Turn) (l : Listener)
      → ((t : Turn) → IsIn t ts → IsIn t turns)
      → Guarded l
      → Guarded (accept_loop ts l)
  unfolding accept_loop
  accept_loop-Guarded [] l within g = g
  accept_loop-Guarded (t ∷ ts) l within g =
      accept_loop-Guarded ts (take_turn t l) (λ x h. within x (inr h))
        (take_turn-Guarded t l (within t (inl refl)) g)

-- Whoever connects to the socket of a machine, and whatever it sends: the guest of the session is the
-- one that was there before, or a connection that was accepted and whose hello has the session's token;
-- or there is none, and the handler of such a connection has ended.
pub start_vsock_listener-Vouched :
    (listens : Bool) (turns : List Turn) (c : Channel)
    → Vouched c turns (start_vsock_listener listens turns c).channel
unfolding start_vsock_listener
start_vsock_listener-Vouched listens turns c =
    (accept_loop-Guarded c turns turns
      (record { channel = c; socket = listens; waiting = []; served = [] }) (λ t h. h)
      (record {
        token = refl;
        accepted = λ conn h. absurd h;
        vouched = inl refl;
        tokens = λ conn h. absurd h;
      })).vouched
