-- ===== src/Control/Api/Views.antt =====
-- The sessions and rows of an owner, and that the requests of others leave them as they are.
use microvm_terminal.Base.{
  ℕ, ◌≡◌, ◌≢◌, refl, sym, ap, subst, ◌∙◌, Bool, true, false, Option, none, some, Bytes, bytes_eq,
  if◌then◌else◌, arith, inl, inr, Bool-cases,
}
use microvm_terminal.Base.Map
use microvm_terminal.Base.Map.{lookup-insert, lookup-delete}
use microvm_terminal.Base.Text.{bytes-eq, bytes_eq_iff}
use microvm_terminal.Control.Host
use microvm_terminal.Control.Host.{Session, Host}
use microvm_terminal.Control.Store.{Rows, Row, reaped, mark_session_reaped, touch_session_attached}
use microvm_terminal.Control.Wire
use microvm_terminal.Control.Wire.{Server, Calls, Body, Reply, created}
use microvm_terminal.Control.Api.{
  if_owned, owned, marked_gone, uuid_or_nil, attached_to, terminal_of, if_console, deleted,
  create_session, delete_session, open_pty,
}
use microvm_terminal.Control.Api.Consistency.{Consistent, reaped-owner, without, destroyed_lem}
use microvm_terminal.Control.Api.Created.{Outcome, Made, create_session_lem}
use microvm_terminal.Control.Api.Reachable
use microvm_terminal.Control.Api.Reachable.{
  Served, boots, deletes, opens, attached_to-live, if_owned-live,
}

abbrev pub own_in : Bytes → Option Row → Option Row
own_in owner none = none
own_in owner (some row) = if bytes_eq row.owner owner then some row else none

-- Two servers with the same live sessions and the same rows of an owner.
pub record SameView (owner : Bytes) (before after : Server) : Type 0 where
  pub sessions : (id : Bytes) → owned before owner id ≡ owned after owner id
  pub rows :
      (sid : Bytes)
      → own_in owner (Map.lookup sid before.store) ≡ own_in owner (Map.lookup sid after.store)

-- A row of another owner is put in the place of one.
insert-own_in :
    (owner other sid : Bytes) (old new : Row) (rows : Rows) (at : Bytes)
    → owner ≢ other
    → Map.lookup sid rows ≡ some old
    → old.owner ≡ other
    → new.owner ≡ other
    → own_in owner (Map.lookup at rows) ≡ own_in owner (Map.lookup at (Map.insert sid new rows))
insert-own_in owner other sid old new rows at ne e o n = elim (Bool-cases (bytes_eq sid at)) [
  | inl same ↦
      let there : Map.lookup at rows ≡ some old =
        ap (λ k. Map.lookup k rows) (sym ((bytes_eq_iff sid at).0 same)) ∙ e in
      let after : Map.lookup at (Map.insert sid new rows) ≡ some new =
        ground (arith, same, lookup-insert sid at new rows) in
      rw (there, after)
        (ground (arith, ne, o, n, bytes_eq_iff old.owner owner, bytes_eq_iff new.owner owner))
  | inr differs ↦ ground (arith, differs, lookup-insert sid at new rows)
]

mark-own_in :
    (owner other sid : Bytes) (row : Row) (rows : Rows) (now : ℕ) (works : Bool) (at : Bytes)
    → owner ≢ other
    → Map.lookup sid rows ≡ some row
    → row.owner ≡ other
    → own_in owner (Map.lookup at rows)
      ≡ own_in owner (Map.lookup at (mark_session_reaped rows sid now works))
unfolding mark_session_reaped
mark-own_in owner other sid row rows now false at ne e o = refl
mark-own_in owner other sid row rows now true at ne e o = rw e (
    insert-own_in owner other sid row (reaped now row row.reaped_at) rows at ne e o
      (reaped-owner now row row.reaped_at ∙ o))

touch-own_in :
    (owner other sid : Bytes) (row : Row) (rows : Rows) (now : ℕ) (works : Bool) (at : Bytes)
    → owner ≢ other
    → Map.lookup sid rows ≡ some row
    → row.owner ≡ other
    → own_in owner (Map.lookup at rows)
      ≡ own_in owner (Map.lookup at (touch_session_attached rows sid now works))
unfolding touch_session_attached
touch-own_in owner other sid row rows now false at ne e o = refl
touch-own_in owner other sid row rows now true at ne e o = rw e (
    insert-own_in owner other sid row (record row { last_attached_at = some now }) rows at ne e o o)

if_owned-owner :
    (owner : Bytes) (o : Option Session) (s : Session) → if_owned owner o ≡ some s → s.owner ≡ owner
if_owned-owner owner none s h = absurd (ground (arith, h))
if_owned-owner owner (some t) s h = ground (arith, h, bytes_eq_iff t.owner owner)

module _ (parse_uuid : Bytes → Option Bytes) (parse_ip : Bytes → Bool) where
  without-SameView :
      (sv : Server) (owner other id : Bytes) (c : Calls) (s : Session)
      → owner ≢ other
      → s.owner ≡ other
      → Map.lookup id sv.host.sessions ≡ some s
      → Consistent parse_uuid parse_ip sv
      → SameView owner sv (without parse_uuid parse_ip sv id c (some s))
  unfolding owned Host.get
  without-SameView sv owner other id c s ne o e fine =
      let has = fine.rowed id s e in
      let parsed : parse_uuid s.id ≡ some has.sid =
        ap parse_uuid (fine.filed id s e) ∙ has.parses in
      record {
        sessions = λ at. ground (
          arith,
          ne,
          o,
          e,
          bytes_eq_iff id at,
          bytes_eq_iff s.owner owner,
          lookup-delete id at sv.host.sessions,
        );
        rows = λ at.
            mark-own_in owner other has.sid has.row sv.store c.now c.marks at ne has.is_stored
              (has.owns ∙ o)
            ∙ ap (λ x. own_in owner (Map.lookup at (marked_gone parse_uuid parse_ip c sv.store x)))
                (sym parsed);
      }

  attached_to-SameView :
      (sv : Server) (owner other id : Bytes) (c : Calls) (s : Session)
      → owner ≢ other
      → s.owner ≡ other
      → Map.lookup id sv.host.sessions ≡ some s
      → Consistent parse_uuid parse_ip sv
      → SameView owner sv (attached_to parse_uuid parse_ip sv id c s)
  unfolding owned Host.get
  attached_to-SameView sv owner other id c s ne o e fine =
      let has = fine.rowed id s e in
      record {
        sessions = λ at. ground (
          arith,
          ne,
          o,
          e,
          bytes_eq_iff id at,
          bytes_eq_iff s.owner owner,
          attached_to-live parse_uuid parse_ip sv id at c s,
        );
        rows = λ at.
            touch-own_in owner other has.sid has.row sv.store c.now c.touches at ne has.is_stored
              (has.owns ∙ o)
            ∙ ap
                (λ x.
                  own_in owner (
                    Map.lookup at
                      (touch_session_attached sv.store (uuid_or_nil x) c.now c.touches)))
                (sym has.parses);
      }

  Made-SameView :
      (sv sv' : Server) (owner other id : Bytes)
      → owner ≢ other
      → Made parse_uuid parse_ip sv sv' other id
      → SameView owner sv sv'
  unfolding owned Host.get
  Made-SameView sv sv' owner other id ne made = record {
    sessions = λ at. ground (
      arith,
      ne,
      made.live at,
      made.was_free,
      made.is_owned,
      bytes_eq_iff id at,
      bytes_eq_iff made.session.owner owner,
    );
    rows = λ at. rw made.stored (
        ground (
          arith,
          ne,
          made.is_new,
          made.row_owner,
          bytes_eq_iff made.sid at,
          bytes_eq_iff made.row.owner owner,
          lookup-insert made.sid at made.row sv.store,
        ));
  }

  outcome-SameView :
      (sv : Server) (owner other : Bytes) (r : Server × Reply)
      → owner ≢ other
      → Outcome parse_uuid parse_ip sv other r
      → SameView owner sv r.0
  unfolding owned Host.get
  outcome-SameView sv owner other (sv', created r) ne made =
      Made-SameView sv sv' owner other r.session_id ne made
  outcome-SameView sv owner other (sv', Wire.api_error status code message retry) ne same = record {
    sessions = λ at. ap (if_owned owner) (sym (same.live at));
    rows = λ at. ap (λ rows. own_in owner (Map.lookup at rows)) (sym same.stored);
  }
  outcome-SameView sv owner other (sv', Wire.info i) ne none_such = absurd none_such
  outcome-SameView sv owner other (sv', Wire.done) ne none_such = absurd none_such

  same-SameView : (sv : Server) (owner : Bytes) → SameView owner sv sv
  same-SameView sv owner = record { sessions = λ id. refl; rows = λ sid. refl }

  deleted-SameView :
      (sv : Server) (owner other id : Bytes) (c : Calls) (o : Option Session)
      → owner ≢ other
      → if_owned other (Map.lookup id sv.host.sessions) ≡ o
      → Consistent parse_uuid parse_ip sv
      → SameView owner sv (deleted parse_uuid parse_ip sv other id c o).0
  deleted-SameView sv owner other id c none ne e fine = same-SameView sv owner
  deleted-SameView sv owner other id c (some s) ne e fine =
      let live = if_owned-live parse_uuid parse_ip other (Map.lookup id sv.host.sessions) s e in
      let shape =
        destroyed_lem parse_uuid parse_ip sv id c ∙ ap (without parse_uuid parse_ip sv id c) live in
      subst (SameView owner sv) (sym shape) (
        without-SameView sv owner other id c s ne
          (if_owned-owner other (Map.lookup id sv.host.sessions) s e) live fine)

  opened-SameView :
      (sv : Server) (owner other id : Bytes) (c : Calls) (o : Option Session)
      → owner ≢ other
      → if_owned other (Map.lookup id sv.host.sessions) ≡ o
      → Consistent parse_uuid parse_ip sv
      → SameView owner sv (terminal_of parse_uuid parse_ip sv id c o).0
  opened-SameView sv owner other id c none ne e fine = same-SameView sv owner
  opened-SameView sv owner other id c (some s) ne e fine = if_console-SameView s.has_console
    where
      live : Map.lookup id sv.host.sessions ≡ some s
      live = if_owned-live parse_uuid parse_ip other (Map.lookup id sv.host.sessions) s e

      if_console-SameView :
          (has : Bool)
          → SameView owner sv (if_console sv (attached_to parse_uuid parse_ip sv id c s) has).0
      if_console-SameView true =
          attached_to-SameView sv owner other id c s ne
            (if_owned-owner other (Map.lookup id sv.host.sessions) s e) live fine
      if_console-SameView false = same-SameView sv owner

  pub Served-SameView :
      (sv sv' : Server) (owner other : Bytes) (by : Option Bytes)
      → owner ≢ other
      → by ≡ some other
      → Served parse_uuid parse_ip sv by sv'
      → Consistent parse_uuid parse_ip sv
      → SameView owner sv sv'
  unfolding delete_session open_pty owned Host.get
  Served-SameView sv sv' owner other by ne e (boots caller body c usable) fine =
      let same : caller ≡ other = ground (arith, e) in
      outcome-SameView sv owner caller (create_session parse_uuid parse_ip sv caller body c)
        (λ o. ne (o ∙ same)) (create_session_lem parse_uuid parse_ip sv caller body c usable)
  Served-SameView sv sv' owner other by ne e (deletes caller id c) fine =
      let same : caller ≡ other = ground (arith, e) in
      deleted-SameView sv owner caller id c (owned sv caller id) (λ o. ne (o ∙ same)) refl fine
  Served-SameView sv sv' owner other by ne e (opens caller id c) fine =
      let same : caller ≡ other = ground (arith, e) in
      opened-SameView sv owner caller id c (owned sv caller id) (λ o. ne (o ∙ same)) refl fine
  Served-SameView sv sv' owner other by ne e (Reachable.exits old c) fine =
      absurd (ground (arith, e))
  Served-SameView sv sv' owner other by ne e (Reachable.reaps timeout c) fine =
      absurd (ground (arith, e))
