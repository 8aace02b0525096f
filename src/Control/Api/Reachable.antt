-- ===== src/Control/Api/Reachable.antt =====
-- The live map and the table over requests, exits of machines and passes of the reaper.
use microvm_terminal.Base.{
  ℕ, ◌≡◌, refl, sym, ap, subst, ◌∙◌, Bool, true, false, Option, none, some, Bytes, bytes_eq,
  if◌then◌else◌, arith, inl, inr, Bool-cases,
}
use microvm_terminal.Base.Map
use microvm_terminal.Base.Map.{lookup-insert, lookup-delete}
use microvm_terminal.Base.Text.{bytes-eq, bytes_eq_iff}
use microvm_terminal.Control.Session.{attach}
use microvm_terminal.Control.Host
use microvm_terminal.Control.Host.{Session, Host}
use microvm_terminal.Control.Store.{Rows, Row, touched, touch_session_attached}
use microvm_terminal.Control.Api
use microvm_terminal.Control.Wire
use microvm_terminal.Control.Wire.{Server, Calls, Body, Reply, created}
use microvm_terminal.Control.Api.{
  if_owned, owned, marked_gone, uuid_or_nil, if_console, attached_to, terminal_of, destroyed,
  exited, deleted, create_session, delete_session, open_pty, own_row, row_for_owner, row_reply,
  stale_reply, described, describe,
}
use microvm_terminal.Control.Api.Consistency.{
  Kept, Consistent, HasRow, Kept-HasRow, deletes-Consistent, exited-Consistent, reaped-Consistent,
}
use microvm_terminal.Control.Api.Created.{Usable, Outcome, Made, Unmade, create_session_lem}

touched-Kept :
    (rows : Rows) (id : Bytes) (now : ℕ) (o : Option Row)
    → Map.lookup id rows ≡ o
    → Kept rows (touched rows id now o)
touched-Kept rows id now none e sid row h = (row, h, refl)
touched-Kept rows id now (some old) e sid row h = elim (Bool-cases (bytes_eq id sid)) [
  | inl same ↦
      let is_old : old ≡ row = ground (arith, e, h, (bytes_eq_iff id sid).0 same) in
      let new : Row = record old { last_attached_at = some now } in
      (new, ground (arith, same, lookup-insert id sid new rows), ap (λ r. r.owner) is_old)
  | inr other ↦
      let new : Row = record old { last_attached_at = some now } in
      (row, ground (arith, other, h, lookup-insert id sid new rows), refl)
]

touch-Kept :
    (rows : Rows) (id : Bytes) (now : ℕ) (works : Bool)
    → Kept rows (touch_session_attached rows id now works)
unfolding touch_session_attached
touch-Kept rows id now true = touched-Kept rows id now (Map.lookup id rows) refl
touch-Kept rows id now false = λ sid row h. (row, h, refl)

module _ (parse_uuid : Bytes → Option Bytes) (parse_ip : Bytes → Bool) where
  -- What a caller's request, the exit of a machine or a pass of the reaper makes of the server.
  pub data Served (sv : Server) : Option Bytes → Server → Type 0 where
    boots :
        (owner : Bytes) (body : Body) (c : Calls)
        → Usable parse_uuid parse_ip sv c
        → Served sv (some owner) (create_session parse_uuid parse_ip sv owner body c).0
    deletes :
        (owner id : Bytes) (c : Calls)
        → Served sv (some owner) (delete_session parse_uuid parse_ip sv owner id c).0
    opens :
        (owner id : Bytes) (c : Calls)
        → Served sv (some owner) (open_pty parse_uuid parse_ip sv owner id c).0
    exits : (old : Session) (c : Calls) → Served sv none (exited parse_uuid parse_ip sv old c)
    reaps : (timeout : ℕ) (c : Calls) → Served sv none (Api.reaped parse_uuid parse_ip sv timeout c)

  pub data Reach (first : Server) : Server → Type 0 where
    start : Reach first first
    and_next :
        {sv sv' : Server} {by : Option Bytes} → Reach first sv → Served sv by sv' → Reach first sv'

  Made-Kept :
      (sv sv' : Server) (owner id : Bytes)
      → Made parse_uuid parse_ip sv sv' owner id
      → Kept sv.store sv'.store
  Made-Kept sv sv' owner id made sid row h = (
    row,
    rw made.stored (
        ground (
          arith,
          h,
          made.is_new,
          bytes_eq_iff made.sid sid,
          lookup-insert made.sid sid made.row sv.store,
        )),
    refl,
  )

  Made-HasRow :
      (sv sv' : Server) (owner id other : Bytes) (s : Session)
      → Made parse_uuid parse_ip sv sv' owner id
      → Consistent parse_uuid parse_ip sv
      → Map.lookup other sv'.host.sessions ≡ some s
      → HasRow parse_uuid parse_ip sv'.store other s.owner
  Made-HasRow sv sv' owner id other s made fine h = elim (Bool-cases (bytes_eq id other)) [
    | inl same ↦
        let is_it : made.session ≡ s = ground (arith, h, same, made.live other) in
        record {
          sid = made.sid;
          row = made.row;
          parses = ap parse_uuid (sym ((bytes_eq_iff id other).0 same)) ∙ made.parses;
          is_stored = rw made.stored (
              ground (
                arith,
                bytes_eq_iff made.sid made.sid,
                lookup-insert made.sid made.sid made.row sv.store,
              ));
          owns = made.row_owner ∙ sym made.is_owned ∙ ap (λ x. x.owner) is_it;
        }
    | inr differs ↦
        Kept-HasRow parse_uuid parse_ip sv.store sv'.store other s.owner
          (Made-Kept sv sv' owner id made)
          (fine.rowed other s (ground (arith, h, differs, made.live other)))
  ]

  Made-Consistent :
      (sv sv' : Server) (owner id : Bytes)
      → Made parse_uuid parse_ip sv sv' owner id
      → Consistent parse_uuid parse_ip sv
      → Consistent parse_uuid parse_ip sv'
  Made-Consistent sv sv' owner id made fine = record {
    filed = λ other s h.
        ground
          (arith, h, made.live other, made.is_named, bytes_eq_iff id other, fine.filed other s);
    rowed = λ other s h. Made-HasRow sv sv' owner id other s made fine h;
  }

  Unmade-Consistent :
      (sv sv' : Server)
      → Unmade parse_uuid parse_ip sv sv'
      → Consistent parse_uuid parse_ip sv
      → Consistent parse_uuid parse_ip sv'
  Unmade-Consistent sv sv' same fine = record {
    filed = λ id s h. fine.filed id s (sym (same.live id) ∙ h);
    rowed = λ id s h.
        subst (λ rows. HasRow parse_uuid parse_ip rows id s.owner) (sym same.stored)
          (fine.rowed id s (sym (same.live id) ∙ h));
  }

  outcome-Consistent :
      (sv : Server) (owner : Bytes) (r : Server × Reply)
      → Outcome parse_uuid parse_ip sv owner r
      → Consistent parse_uuid parse_ip sv
      → Consistent parse_uuid parse_ip r.0
  outcome-Consistent sv owner (sv', created r) made fine =
      Made-Consistent sv sv' owner r.session_id made fine
  outcome-Consistent sv owner (sv', Wire.api_error status code message retry) same fine =
      Unmade-Consistent sv sv' same fine
  outcome-Consistent sv owner (sv', Wire.info i) none_such fine = absurd none_such
  outcome-Consistent sv owner (sv', Wire.done) none_such fine = absurd none_such

  pub attached_to-live :
      (sv : Server) (id other : Bytes) (c : Calls) (s : Session)
      → Map.lookup other (attached_to parse_uuid parse_ip sv id c s).host.sessions ≡ (
          if bytes_eq id other
          then some (record s { terminal = attach s.terminal })
          else Map.lookup other sv.host.sessions)
  attached_to-live sv id other c s =
      lookup-insert id other (record s { terminal = attach s.terminal }) sv.host.sessions

  -- A session that is live afterwards was live before with the same id and owner.
  attached_to-before :
      (sv : Server) (id other : Bytes) (c : Calls) (s t : Session)
      → Map.lookup id sv.host.sessions ≡ some s
      → Map.lookup other (attached_to parse_uuid parse_ip sv id c s).host.sessions ≡ some t
      → (t' : Session) × (Map.lookup other sv.host.sessions ≡ some t')
        × (t'.id ≡ t.id)
        × (t'.owner ≡ t.owner)
  attached_to-before sv id other c s t e h = elim (Bool-cases (bytes_eq id other)) [
    | inl same ↦
        let s' : Session = record s { terminal = attach s.terminal } in
        let is_it : s' ≡ t = ground (arith, same, h, lookup-insert id other s' sv.host.sessions) in
        (
          s,
          ap (λ k. Map.lookup k sv.host.sessions) (sym ((bytes_eq_iff id other).0 same)) ∙ e,
          ap (λ x. x.id) is_it,
          ap (λ x. x.owner) is_it,
        )
    | inr differs ↦
        let s' : Session = record s { terminal = attach s.terminal } in
        (t, ground (arith, differs, h, lookup-insert id other s' sv.host.sessions), refl, refl)
  ]

  attached_to-Consistent :
      (sv : Server) (id : Bytes) (c : Calls) (s : Session)
      → Map.lookup id sv.host.sessions ≡ some s
      → Consistent parse_uuid parse_ip sv
      → Consistent parse_uuid parse_ip (attached_to parse_uuid parse_ip sv id c s)
  attached_to-Consistent sv id c s e fine = record {
    filed = λ other t h.
        let (t', there, same_id, same_owner) = attached_to-before sv id other c s t e h in
        sym same_id ∙ fine.filed other t' there;
    rowed = λ other t h.
        let (t', there, same_id, same_owner) = attached_to-before sv id other c s t e h in
        let after = attached_to parse_uuid parse_ip sv id c s in
        subst (HasRow parse_uuid parse_ip after.store other) same_owner (
          Kept-HasRow parse_uuid parse_ip sv.store after.store other t'.owner
            (touch-Kept sv.store (uuid_or_nil (parse_uuid id)) c.now c.touches)
            (fine.rowed other t' there));
  }

  pub if_owned-live :
      (owner : Bytes) (o : Option Session) (s : Session) → if_owned owner o ≡ some s → o ≡ some s
  if_owned-live owner none s h = absurd (ground (arith, h))
  if_owned-live owner (some t) s h = ground (arith, h)

  if_console-Consistent :
      (sv sv' : Server) (has : Bool)
      → Consistent parse_uuid parse_ip sv
      → Consistent parse_uuid parse_ip sv'
      → Consistent parse_uuid parse_ip (if_console sv sv' has).0
  if_console-Consistent sv sv' true fine fine' = fine'
  if_console-Consistent sv sv' false fine fine' = fine

  terminal_of-Consistent :
      (sv : Server) (id : Bytes) (c : Calls) (o : Option Session)
      → ((s : Session) → o ≡ some s → Map.lookup id sv.host.sessions ≡ some s)
      → Consistent parse_uuid parse_ip sv
      → Consistent parse_uuid parse_ip (terminal_of parse_uuid parse_ip sv id c o).0
  terminal_of-Consistent sv id c none live fine = fine
  terminal_of-Consistent sv id c (some s) live fine =
      if_console-Consistent sv (attached_to parse_uuid parse_ip sv id c s) s.has_console fine
        (attached_to-Consistent sv id c s (live s refl) fine)

  Served-Consistent :
      {by : Option Bytes} (sv sv' : Server)
      → Served sv by sv'
      → Consistent parse_uuid parse_ip sv
      → Consistent parse_uuid parse_ip sv'
  unfolding delete_session open_pty owned Host.get
  Served-Consistent sv sv' (boots owner body c usable) fine =
      outcome-Consistent sv owner (create_session parse_uuid parse_ip sv owner body c)
        (create_session_lem parse_uuid parse_ip sv owner body c usable) fine
  Served-Consistent sv sv' (deletes owner id c) fine =
      deletes-Consistent parse_uuid parse_ip sv owner id c (owned sv owner id) fine
  Served-Consistent sv sv' (opens owner id c) fine =
      terminal_of-Consistent sv id c (owned sv owner id)
        (if_owned-live owner (Map.lookup id sv.host.sessions)) fine
  Served-Consistent sv sv' (exits old c) fine = exited-Consistent parse_uuid parse_ip sv old c fine
  Served-Consistent sv sv' (reaps timeout c) fine =
      reaped-Consistent parse_uuid parse_ip sv timeout c fine

  -- Over requests, exits and passes of the reaper, when the ids of new sessions are UUIDs that are
  -- neither live nor in the table: each live session stays filed under its own id, and the table has
  -- a row for it with the same owner.
  pub Reach-Consistent :
      (first : Server) {sv : Server}
      → Consistent parse_uuid parse_ip first
      → Reach first sv
      → Consistent parse_uuid parse_ip sv
  Reach-Consistent first fine start = fine
  Reach-Consistent first fine (and_next {sv = sv} {sv' = sv'} reached step) =
      Served-Consistent sv sv' step (Reach-Consistent first fine reached)
