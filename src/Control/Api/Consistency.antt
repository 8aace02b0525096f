-- ===== src/Control/Api/Consistency.antt =====
-- The live map and the sessions table under the handlers: each live session is filed under its own id
-- and has a row with its owner.
use microvm_terminal.Base.{
  ℕ, ◌≡◌, refl, ap, ◌∙◌, Bool, true, false, Option, none, some, List, [], ◌∷◌, ◌++◌, Bytes,
  bytes_eq, length, drop, drop-length, drop-length-append, arith, inl, inr, Bool-cases,
  Option-cases,
}
use microvm_terminal.Base.Map
use microvm_terminal.Base.Map.{lookup-insert, lookup-delete}
use microvm_terminal.Base.Text.{bytes-eq, bytes_eq_iff}
use microvm_terminal.Control.Host.{
  Session, Host, destroy, watch_fires, unless_replaced, reap_idle, live_list,
}
use microvm_terminal.Control.Store.{Rows, Row, reaped, reaped_in, mark_session_reaped}
use microvm_terminal.Control.Host.Reaper.{destroy-lookup, reap_each-lookup}
use microvm_terminal.Control.Api
use microvm_terminal.Control.Wire.{Server, Calls}
use microvm_terminal.Control.Api.{
  boot, if_owned, owned, marked_gone, on_gone, left, destroyed, exited, deleted, delete_session,
}

-- Every row is still there, with its owner.
abbrev pub Kept : Rows → Rows → Type 0
Kept before after =
    (sid : Bytes) (row : Row)
    → Map.lookup sid before ≡ some row
    → (row' : Row) × (Map.lookup sid after ≡ some row') × (row'.owner ≡ row.owner)

pub reaped-owner : (now : ℕ) (row : Row) (o : Option ℕ) → (reaped now row o).owner ≡ row.owner
reaped-owner now row none = refl
reaped-owner now row (some t) = refl

reaped_in-Kept :
    (rows : Rows) (id : Bytes) (now : ℕ) (o : Option Row)
    → Map.lookup id rows ≡ o
    → Kept rows (reaped_in rows id now o)
reaped_in-Kept rows id now none e sid row h = (row, h, refl)
reaped_in-Kept rows id now (some old) e sid row h = elim (Bool-cases (bytes_eq id sid)) [
  | inl same ↦
      let is_old : old ≡ row = ground (arith, e, h, (bytes_eq_iff id sid).0 same) in
      (
        reaped now old old.reaped_at,
        ground (arith, same, lookup-insert id sid (reaped now old old.reaped_at) rows),
        reaped-owner now old old.reaped_at ∙ ap (λ r. r.owner) is_old,
      )
  | inr other ↦ (
    row,
    ground (arith, other, h, lookup-insert id sid (reaped now old old.reaped_at) rows),
    refl,
  )
]

pub mark_session_reaped-Kept :
    (rows : Rows) (id : Bytes) (now : ℕ) (works : Bool)
    → Kept rows (mark_session_reaped rows id now works)
unfolding mark_session_reaped
mark_session_reaped-Kept rows id now true = reaped_in-Kept rows id now (Map.lookup id rows) refl
mark_session_reaped-Kept rows id now false = λ sid row h. (row, h, refl)

-- What Host.Destroy with the callback does for the entry that it finds.
abbrev pub without :
    (Bytes → Option Bytes) → (Bytes → Bool) → Server → Bytes → Calls → Option Session → Server
without parse_uuid parse_ip sv id c none = sv
without parse_uuid parse_ip sv id c (some s) = record sv {
  host = record sv.host {
    sessions = Map.delete id sv.host.sessions;
    gone = sv.host.gone ++ s ∷ [];
  };
  store = marked_gone parse_uuid parse_ip c sv.store (parse_uuid s.id);
}

pub destroyed_lem :
    (parse_uuid : Bytes → Option Bytes) (parse_ip : Bytes → Bool) (sv : Server) (id : Bytes)
    (c : Calls)
    → destroyed parse_uuid parse_ip sv id c
      ≡ without parse_uuid parse_ip sv id c (Map.lookup id sv.host.sessions)
unfolding destroyed left destroy on_gone
destroyed_lem parse_uuid parse_ip sv id c = elim (Option-cases (Map.lookup id sv.host.sessions)) [
  | inl e ↦ rw (e, drop-length sv.host.gone) refl
  | inr (s, e) ↦ rw (e, drop-length-append sv.host.gone (s ∷ [])) refl
]

module _ (parse_uuid : Bytes → Option Bytes) (parse_ip : Bytes → Bool) where
  -- The id is a UUID, and the table has its row, with this owner.
  pub record HasRow (rows : Rows) (id owner : Bytes) : Type 0 where
    pub sid : Bytes
    pub row : Row
    pub parses : parse_uuid id ≡ some sid
    pub is_stored : Map.lookup sid rows ≡ some row
    pub owns : row.owner ≡ owner

  pub record Consistent (sv : Server) : Type 0 where
    pub filed : (id : Bytes) (s : Session) → Map.lookup id sv.host.sessions ≡ some s → s.id ≡ id
    pub rowed :
        (id : Bytes) (s : Session)
        → Map.lookup id sv.host.sessions ≡ some s
        → HasRow sv.store id s.owner

  pub Kept-HasRow :
      (before after : Rows) (id owner : Bytes)
      → Kept before after
      → HasRow before id owner
      → HasRow after id owner
  Kept-HasRow before after id owner kept has =
      let (row', there, same) = kept has.sid has.row has.is_stored in
      record {
        sid = has.sid;
        row = row';
        parses = has.parses;
        is_stored = there;
        owns = same ∙ has.owns;
      }

  pub marked_gone-Kept :
      (c : Calls) (rows : Rows) (o : Option Bytes)
      → Kept rows (marked_gone parse_uuid parse_ip c rows o)
  marked_gone-Kept c rows none = λ sid row h. (row, h, refl)
  marked_gone-Kept c rows (some u) = mark_session_reaped-Kept rows u c.now c.marks

  -- A server with fewer sessions.
  fewer-Consistent :
      (before after : Server)
      → ((id : Bytes) (s : Session)
          → Map.lookup id after.host.sessions ≡ some s
          → Map.lookup id before.host.sessions ≡ some s)
      → Kept before.store after.store
      → Consistent before
      → Consistent after
  fewer-Consistent before after fewer kept fine = record {
    filed = λ id s h. fine.filed id s (fewer id s h);
    rowed = λ id s h.
        Kept-HasRow before.store after.store id s.owner kept (fine.rowed id s (fewer id s h));
  }

  on_gone-Kept :
      (c : Calls) (rows : Rows) (ss : List Session)
      → Kept rows (on_gone parse_uuid parse_ip c rows ss)
  unfolding on_gone
  on_gone-Kept c rows [] sid row h = (row, h, refl)
  on_gone-Kept c rows (s ∷ ss) sid row h =
      let (row', there', same') = marked_gone-Kept c rows (parse_uuid s.id) sid row h in
      let (row'', there'', same'') =
        on_gone-Kept c (marked_gone parse_uuid parse_ip c rows (parse_uuid s.id)) ss sid row'
          there' in
      (row'', there'', same'' ∙ same')

  -- Sessions leave, with the callback.
  left-Consistent :
      (sv : Server) (h : Host) (c : Calls)
      → ((id : Bytes) (s : Session)
          → Map.lookup id h.sessions ≡ some s
          → Map.lookup id sv.host.sessions ≡ some s)
      → Consistent sv
      → Consistent (left parse_uuid parse_ip sv h c)
  unfolding left
  left-Consistent sv h c fewer fine =
      fewer-Consistent sv (left parse_uuid parse_ip sv h c) fewer
        (on_gone-Kept c sv.store (drop (length sv.host.gone) h.gone)) fine

  destroyed-Consistent :
      (sv : Server) (id : Bytes) (c : Calls)
      → Consistent sv
      → Consistent (destroyed parse_uuid parse_ip sv id c)
  unfolding destroyed
  destroyed-Consistent sv id c =
      left-Consistent sv (destroy sv.host id c.torn_down).0 c
        (λ other s h. ground (arith, h, destroy-lookup sv.host id other c.torn_down))

  pub deletes-Consistent :
      (sv : Server) (owner id : Bytes) (c : Calls) (o : Option Session)
      → Consistent sv
      → Consistent (deleted parse_uuid parse_ip sv owner id c o).0
  deletes-Consistent sv owner id c none fine = fine
  deletes-Consistent sv owner id c (some s) fine = destroyed-Consistent sv id c fine

  watch_fires-fewer :
      (h : Host) (old : Session) (id : Bytes) (s : Session) (o : Option Session)
      → Map.lookup id (unless_replaced h old o).sessions ≡ some s
      → Map.lookup id h.sessions ≡ some s
  watch_fires-fewer h old id s none e = e
  watch_fires-fewer h old id s (some cur) e = ground (arith, e, lookup-delete old.id id h.sessions)

  pub exited-Consistent :
      (sv : Server) (old : Session) (c : Calls)
      → Consistent sv
      → Consistent (exited parse_uuid parse_ip sv old c)
  unfolding exited watch_fires
  exited-Consistent sv old c =
      left-Consistent sv (watch_fires sv.host old) c
        (λ id s. watch_fires-fewer sv.host old id s (Map.lookup old.id sv.host.sessions))

  reap_idle-fewer :
      (h : Host) (now timeout : ℕ) (torn : Bytes → Bool) (id : Bytes) (s : Session)
      → Map.lookup id (reap_idle h now timeout torn).0.sessions ≡ some s
      → Map.lookup id h.sessions ≡ some s
  unfolding reap_idle
  reap_idle-fewer h now timeout torn id s e =
      ground (arith, e, reap_each-lookup now timeout torn h (live_list h.sessions) id)

  pub reaped-Consistent :
      (sv : Server) (timeout : ℕ) (c : Calls)
      → Consistent sv
      → Consistent (Api.reaped parse_uuid parse_ip sv timeout c)
  unfolding Api.reaped
  reaped-Consistent sv timeout c =
      left-Consistent sv (reap_idle sv.host c.now timeout (λ id. c.torn_down)).0 c
        (λ id s. reap_idle-fewer sv.host c.now timeout (λ i. c.torn_down) id s)
