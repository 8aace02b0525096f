-- ===== src/Control/Api/Created.antt =====
-- What a request for a session does to the live map and the table, in all.
use microvm_terminal.Base.{
  ℕ, ◌≡◌, refl, sym, ap, subst, ◌∙◌, Bool, true, false, Option, none, some, Bytes, bytes_eq,
  if◌then◌else◌, arith,
}
use microvm_terminal.Base.Map
use microvm_terminal.Base.Map.{lookup-insert, lookup-delete, insert-insert, ==_self}
use microvm_terminal.Base.Result.{Result, ok, err}
use microvm_terminal.Base.Text.{bytes-eq, bytes_eq_iff}
use microvm_terminal.Control.Host
use microvm_terminal.Control.Host.{
  Session, WarmPool, Host, landed, warm_or_cold, from_pool, acquire_warm, create, create_warm, land,
  full,
}
use microvm_terminal.Control.Store.{Rows, Row, insert_session, mark_session_reaped}
use microvm_terminal.Control.Wire
use microvm_terminal.Control.Wire.{Server, Calls, Body, Reply, no_body, bad_body, asked, created}
use microvm_terminal.Control.Api.{
  boot, answered, adopted, booted, create_session, marked_gone, destroyed,
}
use microvm_terminal.Control.Api.Booting.{Lands, boot-Lands, Added, insert_session-Added}
use microvm_terminal.Control.Api.Consistency.{without, destroyed_lem}

mark_session_reaped_absent :
    (rows : Rows) (id : Bytes) (now : ℕ) (works : Bool)
    → Map.lookup id rows ≡ none
    → mark_session_reaped rows id now works ≡ rows
unfolding mark_session_reaped
mark_session_reaped_absent rows id now works h = ground (arith, h)

module _ (parse_uuid : Bytes → Option Bytes) (parse_ip : Bytes → Bool) where
  -- The id of a session that the host returns is the text of a UUID, and is neither live nor in the
  -- table.
  abbrev pub UsableResult : Server → Host × Result Host.Error Session → Type 0
  UsableResult sv (h, ok s) =
      ((sid : Bytes) × (parse_uuid s.id ≡ some sid) × (Map.lookup sid sv.store ≡ none))
      × (Map.lookup s.id sv.host.sessions ≡ none)
  UsableResult sv (h, err e) = Unit

  abbrev pub Usable : Server → Calls → Type 0
  Usable sv c = (warm : Bool) → UsableResult sv (boot sv.host warm c)

  -- The live map and the table afterwards, when a session was created.
  pub record Made (before after : Server) (owner id : Bytes) : Type 0 where
    pub session : Session
    pub sid : Bytes
    pub row : Row
    pub is_named : session.id ≡ id
    pub is_owned : session.owner ≡ owner
    pub live :
        (other : Bytes)
        → Map.lookup other after.host.sessions
          ≡ (if bytes_eq id other then some session else Map.lookup other before.host.sessions)
    pub parses : parse_uuid id ≡ some sid
    pub was_free : Map.lookup id before.host.sessions ≡ none
    pub is_new : Map.lookup sid before.store ≡ none
    pub stored : after.store ≡ Map.insert sid row before.store
    pub row_owner : row.owner ≡ owner

  -- And when none was.
  pub record Unmade (before after : Server) : Type 0 where
    pub live :
        (other : Bytes)
        → Map.lookup other after.host.sessions ≡ Map.lookup other before.host.sessions
    pub stored : after.store ≡ before.store

  abbrev pub Outcome : Server → Bytes → Server × Reply → Type 0
  Outcome sv owner (sv', created r) = Made sv sv' owner r.session_id
  Outcome sv owner (sv', Wire.api_error status code message retry) = Unmade sv sv'
  Outcome sv owner (sv', Wire.info i) = ⊥
  Outcome sv owner (sv', Wire.done) = ⊥

  -- A session that has just been filed under a new id, destroyed again.
  destroyed-Unmade :
      (before now : Server) (c : Calls) (s : Session)
      → now.host.sessions ≡ Map.insert s.id s before.host.sessions
      → Map.lookup s.id before.host.sessions ≡ none
      → now.store ≡ before.store
      → (sid : Bytes) → parse_uuid s.id ≡ some sid
      → Map.lookup sid before.store ≡ none
      → Unmade before (destroyed parse_uuid parse_ip now s.id c)
  destroyed-Unmade before now c s e free same sid parsed new =
      let filed : Map.lookup s.id now.host.sessions ≡ some s = rw e (
        ground (
          arith,
          ==_self s.id,
          bytes_eq_iff s.id s.id,
          lookup-insert s.id s.id s before.host.sessions,
        )) in
      let shape : destroyed parse_uuid parse_ip now s.id c
          ≡ without parse_uuid parse_ip now s.id c (some s) =
        destroyed_lem parse_uuid parse_ip now s.id c
        ∙ ap (without parse_uuid parse_ip now s.id c) filed in
      subst (Unmade before) (sym shape) (record {
        live = λ other. rw e (
            ground (
              arith,
              free,
              bytes_eq_iff s.id other,
              lookup-delete s.id other (Map.insert s.id s before.host.sessions),
              lookup-insert s.id other s before.host.sessions,
            ));
        stored =
            ap (marked_gone parse_uuid parse_ip c now.store) parsed
            ∙ ap (λ rows. mark_session_reaped rows sid c.now c.marks) same
            ∙ mark_session_reaped_absent before.store sid c.now c.marks new;
      })

  Outcome-reply :
      (sv : Server) (owner : Bytes) (c : Calls) (h : Host) (s : Session) (sid : Bytes)
      (added : Rows × Bool)
      → h.sessions ≡ Map.insert s.id s sv.host.sessions
      → s.owner ≡ owner
      → parse_uuid s.id ≡ some sid
      → Map.lookup sid sv.store ≡ none
      → Map.lookup s.id sv.host.sessions ≡ none
      → Added sv.store sid owner added
      → Outcome sv owner (answered parse_uuid parse_ip (record sv { host = h }) s c added)
  Outcome-reply sv owner c h s sid (rows, true) e owned parsed new free
        (is_new, (row, stored, row_owner)) =
      record {
        session = s;
        sid = sid;
        row = row;
        is_named = refl;
        is_owned = owned;
        live = λ other. rw e (lookup-insert s.id other s sv.host.sessions);
        parses = parsed;
        was_free = free;
        is_new = is_new;
        stored = stored;
        row_owner = row_owner;
      }
  Outcome-reply sv owner c h s sid (rows, false) e owned parsed new free same =
      destroyed-Unmade sv (record sv { host = h; store = rows }) c s e free same sid parsed new

  adopted-Outcome :
      (sv : Server) (owner : Bytes) (c : Calls) (h : Host) (s : Session) (sid : Bytes)
      → h.sessions ≡ Map.insert s.id s sv.host.sessions
      → parse_uuid s.id ≡ some sid
      → Map.lookup sid sv.store ≡ none
      → Map.lookup s.id sv.host.sessions ≡ none
      → Outcome sv owner (adopted parse_uuid parse_ip (record sv { host = h }) owner c s.id s)
  unfolding adopted
  adopted-Outcome sv owner c h s sid e parsed new free =
      let s' : Session = record s { owner = owner } in
      let h' : Host = record h { sessions = Map.insert s.id s' h.sessions } in
      let filed : Map.insert s.id s' h.sessions ≡ Map.insert s.id s' sv.host.sessions =
        ap (Map.insert s.id s') e ∙ insert-insert s.id s s' sv.host.sessions in
      simp parsed (
        Outcome-reply sv owner c h' s' sid
          (insert_session parse_ip sv.store sid owner s.ip s.warm c.now c.inserts) filed refl parsed
          new free (insert_session-Added parse_ip sv.store sid owner s.ip s.warm c.now c.inserts))

  same-Unmade :
      (sv : Server) (h : Host) → h.sessions ≡ sv.host.sessions → Unmade sv (record sv { host = h })
  same-Unmade sv h e = record { live = λ other. ap (Map.lookup other) e; stored = refl }

  booted-Outcome :
      (sv : Server) (owner : Bytes) (c : Calls) (got : Host × Result Host.Error Session)
      → Lands sv.host got
      → UsableResult sv got
      → Outcome sv owner (booted parse_uuid parse_ip sv owner c got)
  booted-Outcome sv owner c (h, ok s) lands ((sid, parsed, new), free) =
      adopted-Outcome sv owner c h s sid lands.0 parsed new free
  booted-Outcome sv owner c (h, err Host.at_capacity) lands usable = same-Unmade sv h lands.0
  booted-Outcome sv owner c (h, err Host.not_found) lands usable = same-Unmade sv h lands.0
  booted-Outcome sv owner c (h, err Host.launch_failed) lands usable = same-Unmade sv h lands.0
  booted-Outcome sv owner c (h, err Host.teardown_failed) lands usable = same-Unmade sv h lands.0

  -- A request for a session, when the ids of new sessions are UUIDs that are neither live nor in the table: if it answers
  -- with a session, then the live map has that session under its id with the caller as its owner, the
  -- table has a new row for it with the same owner, and nothing else has changed in either. With any
  -- other answer neither has changed, whatever failed.
  pub create_session_lem :
      (sv : Server) (owner : Bytes) (body : Body) (c : Calls)
      → Usable sv c
      → Outcome sv owner (create_session parse_uuid parse_ip sv owner body c)
  unfolding create_session
  create_session_lem sv owner no_body c usable =
      booted-Outcome sv owner c (boot sv.host false c) (boot-Lands sv.host false c) (usable false)
  create_session_lem sv owner bad_body c usable = same-Unmade sv sv.host refl
  create_session_lem sv owner (asked warm) c usable =
      booted-Outcome sv owner c (boot sv.host warm c) (boot-Lands sv.host warm c) (usable warm)
