-- ===== src/Control/Guest/Delivery.antt =====
-- Calls of Resize and handlers of connections that overlap: whether a size reaches the guest.
use microvm_terminal.Base.{
  ℕ, ◌≡◌, refl, sym, subst, ◌⊎◌, inl, inr, false, Option, none, some, List, [], ◌∷◌, ◌++◌, arith,
  append_assoc, if◌then◌else◌,
}
use microvm_terminal.Base.Lists.{IsIn, IsIn-taken, IsIn-append_left, IsIn-snoc}
use microvm_terminal.Control.Guest.{
  Geometry, Channel, is_empty, set_guest_conn, set_window, write_frame, join, leave,
}

-- The channel and the calls under way: sizes about to be sent, whose call has not read the connection
-- yet; frames about to be written; and handlers that have not read the window yet.
pub record Now : Type 0 where
  pub channel : Channel
  pub asking : List Geometry
  pub writing : List (ℕ × Geometry)
  pub joined : List ℕ

abbrev pub ask : Option ℕ → Geometry → List (ℕ × Geometry) → List (ℕ × Geometry)
ask none g writing = writing
ask (some conn) g writing = (conn, g) ∷ writing

abbrev pub size_to_send : Geometry → List Geometry → List Geometry
size_to_send g asking = if is_empty g then asking else g ∷ asking

-- The moments of Resize (store, ask, write) and of a handler (join, read the window, leave).
pub data Step (s : Now) : Now → Type 0 where
  stores :
      (g : Geometry)
      → is_empty g ≡ false
      → Step s (record s { channel = set_window s.channel g; asking = g ∷ s.asking })
  asks :
      (before after : List Geometry) (g : Geometry)
      → s.asking ≡ before ++ g ∷ after
      → Step s
          (record s { asking = before ++ after; writing = ask s.channel.guest_conn g s.writing })
  writes :
      (before after : List (ℕ × Geometry)) (conn : ℕ) (g : Geometry)
      → s.writing ≡ before ++ (conn, g) ∷ after
      → Step s (record s { channel = write_frame s.channel conn g; writing = before ++ after })
  joins : (conn : ℕ) → Step s (record s { channel = join s.channel conn; joined = conn ∷ s.joined })
  reads :
      (before after : List ℕ) (conn : ℕ)
      → s.joined ≡ before ++ conn ∷ after
      → Step s
          (record s { asking = size_to_send s.channel.window s.asking; joined = before ++ after })
  leaves : Step s (record s { channel = leave s.channel })

pub data Reach (c : Channel) : Now → Type 0 where
  start : Reach c (record { channel = c; asking = []; writing = []; joined = [] })
  and_next : {s t : Now} → Reach c s → Step s t → Reach c t

-- The window has been written to a connection, or a call is under way that will do so.
abbrev OnItsWay : Now → ℕ → Type 0
OnItsWay s conn =
    IsIn s.channel.window s.asking
    ⊎ (IsIn (conn, s.channel.window) s.writing
        ⊎ (IsIn (conn, s.channel.window) s.channel.frames ⊎ IsIn conn s.joined))

abbrev Delivers : Now → Type 0
Delivers s =
    (conn : ℕ)
    → s.channel.guest_conn ≡ some conn
    → is_empty s.channel.window ≡ false
    → OnItsWay s conn

asked :
    (conn : ℕ) (g : Geometry) (writing : List (ℕ × Geometry)) (now : Option ℕ)
    → now ≡ some conn
    → IsIn (conn, g) (ask now g writing)
asked conn g writing none e = absurd (ground (arith, e))
asked conn g writing (some k) e = inl (ground (arith, e))

ask_keeps :
    (x : ℕ × Geometry) (g : Geometry) (writing : List (ℕ × Geometry)) (now : Option ℕ)
    → IsIn x writing
    → IsIn x (ask now g writing)
ask_keeps x g writing none h = h
ask_keeps x g writing (some k) h = inr h

Step-Delivers : {s t : Now} → Delivers s → Step s t → Delivers t
unfolding set_window write_frame join set_guest_conn leave
Step-Delivers {s} d (stores g some_size) conn e full = inl (inl refl)
Step-Delivers {s} d (asks before after g here) conn e full = elim (d conn e full) [
  | inl a ↦
      elim (IsIn-taken s.channel.window g before after (subst (IsIn s.channel.window) here a)) [
        | inl same ↦ inr (
            inl (
              subst (λ x. IsIn (conn, x) (ask s.channel.guest_conn g s.writing)) (sym same)
                (asked conn g s.writing s.channel.guest_conn e)))
        | inr still ↦ inl still
      ]
  | inr (inl w) ↦ inr (inl (ask_keeps _ g s.writing s.channel.guest_conn w))
  | inr (inr rest) ↦ inr (inr rest)
]
Step-Delivers {s} d (writes before after k g here) conn e full = elim (d conn e full) [
  | inl a ↦ inl a
  | inr (inl w) ↦
      elim (IsIn-taken (conn, s.channel.window) (k, g) before after
        (subst (IsIn (conn, s.channel.window)) here w)) [
          | inl same ↦ inr (
              inr (
                inl (
                  subst (λ x. IsIn x (s.channel.frames ++ (k, g) ∷ [])) (sym same)
                    (IsIn-snoc (k, g) s.channel.frames))))
          | inr still ↦ inr (inl still)
        ]
  | inr (inr (inl f)) ↦ inr (inr (inl (IsIn-append_left _ s.channel.frames ((k, g) ∷ []) f)))
  | inr (inr (inr j)) ↦ inr (inr (inr j))
]
Step-Delivers {s} d (joins k) conn e full = inr (inr (inr (inl (ground (arith, e)))))
Step-Delivers {s} d (reads before after k here) conn e full = rw full (elim (d conn e full) [
  | inl a ↦ inl (inr a)
  | inr (inl w) ↦ inr (inl w)
  | inr (inr (inl f)) ↦ inr (inr (inl f))
  | inr (inr (inr j)) ↦ elim (IsIn-taken conn k before after (subst (IsIn conn) here j)) [
    | inl same ↦ inl (inl refl)
    | inr still ↦ inr (inr (inr still))
  ]
])
Step-Delivers {s} d leaves conn e full = absurd (ground (arith, e))

Reach-Delivers : (c : Channel) {s : Now} → c.guest_conn ≡ none → Reach c s → Delivers s
Reach-Delivers c alone start = λ conn e full. absurd (ground (arith, alone, e))
Reach-Delivers c alone (and_next r step) = Step-Delivers (Reach-Delivers c alone r) step

-- However the calls of Resize and the handlers of connections overlap, on a session that starts with
-- no guest: once no call is under way and a guest is attached, the size that was stored last, if one
-- was, has been written to that guest's connection.
pub resize_not_lost :
    (c : Channel) {s : Now} (conn : ℕ)
    → c.guest_conn ≡ none
    → Reach c s
    → s.asking ≡ []
    → s.writing ≡ []
    → s.joined ≡ []
    → s.channel.guest_conn ≡ some conn
    → is_empty s.channel.window ≡ false
    → IsIn (conn, s.channel.window) s.channel.frames
resize_not_lost c {s} conn alone r no_ask no_write no_join attached full =
    elim (Reach-Delivers c alone r conn attached full) [
      | inl a ↦ absurd (subst (IsIn s.channel.window) no_ask a)
      | inr (inl w) ↦ absurd (subst (IsIn (conn, s.channel.window)) no_write w)
      | inr (inr (inl f)) ↦ f
      | inr (inr (inr j)) ↦ absurd (subst (IsIn conn) no_join j)
    ]

-- With a guest attached, and for any two sizes that are not zero: the one that is stored while the
-- other is about to be written can be written first, and the guest then ends with the older one,
-- although every call has returned.
resize_overtaken :
    (c : Channel) (conn : ℕ) (a b : Geometry)
    → c.guest_conn ≡ some conn
    → is_empty a ≡ false
    → is_empty b ≡ false
    → (s : Now) × Reach c s
      × (s.asking ≡ [])
      × (s.writing ≡ [])
      × (s.joined ≡ [])
      × (s.channel.window ≡ b)
      × (s.channel.frames ≡ c.frames ++ (conn, b) ∷ (conn, a) ∷ [])
unfolding set_window write_frame
resize_overtaken c conn a b attached some_a some_b =
    let r0 : Reach c (record { channel = c; asking = []; writing = []; joined = [] }) = start in
    let r1 = and_next r0 (stores a some_a) in
    let r2 = and_next r1 (asks [] [] a refl) in
    let r3 = and_next r2 (stores b some_b) in
    let r4 = and_next r3 (asks [] [] b refl) in
    let r5 = and_next r4 (writes [] ((conn, a) ∷ []) conn b (simp attached refl)) in
    let r6 = and_next r5 (writes [] [] conn a refl) in
    (_, r6, refl, refl, refl, refl, append_assoc c.frames ((conn, b) ∷ []) ((conn, a) ∷ []))
