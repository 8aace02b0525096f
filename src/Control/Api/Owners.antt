-- ===== src/Control/Api/Owners.antt =====
-- What a caller can see, and that the requests of others leave it as it is.
use microvm_terminal.Base.{◌≡◌, ◌≢◌, refl, ap, Bool, true, false, Option, none, some, Bytes, arith}
use microvm_terminal.Base.Map
use microvm_terminal.Base.Map.{lookup-insert, lookup-delete}
use microvm_terminal.Base.Text.{bytes-eq}
use microvm_terminal.Control.Host.{Session}
use microvm_terminal.Control.Store
use microvm_terminal.Control.Store.{
  Rows, Row, reaped, reaped_in, mark_session_reaped, touched, touch_session_attached, get_session,
}
use microvm_terminal.Control.Wire.{Server, Calls}
use microvm_terminal.Control.Api.{
  owned, attached_to, terminal_of, if_console, deleted, delete_session, open_pty, own_row,
  parsed_row, row_for_owner, row_reply, stale_reply, described, describe,
}
use microvm_terminal.Control.Api.Consistency.{Consistent}
use microvm_terminal.Control.Api.Reachable.{Served}
use microvm_terminal.Control.Api.Views.{own_in, SameView, Served-SameView}

module _ (parse_uuid : Bytes → Option Bytes) (parse_ip : Bytes → Bool) where
  -- What row_for_owner finds, from the row of the owner that the table has.
  own_row-view :
      (owner : Bytes) (a b : Rows) (sid : Bytes) (reads : Bool)
      → own_in owner (Map.lookup sid a) ≡ own_in owner (Map.lookup sid b)
      → own_row owner (get_session a sid reads) ≡ own_row owner (get_session b sid reads)
  unfolding get_session
  own_row-view owner a b sid false h = refl
  own_row-view owner a b sid true h = found (Map.lookup sid a) (Map.lookup sid b) h
    where
      found :
          (x y : Option Row)
          → own_in owner x ≡ own_in owner y
          → own_row owner (Store.found_row x) ≡ own_row owner (Store.found_row y)
      found none none e = refl
      found none (some y) e = ground (arith, e)
      found (some x) none e = ground (arith, e)
      found (some x) (some y) e = ground (arith, e)

  row_for_owner-view :
      (a b : Server) (owner id : Bytes) (c : Calls)
      → SameView owner a b
      → row_for_owner parse_uuid parse_ip a id owner c
        ≡ row_for_owner parse_uuid parse_ip b id owner c
  unfolding row_for_owner
  row_for_owner-view a b owner id c view = parsed (parse_uuid id)
    where
      parsed :
          (o : Option Bytes)
          → parsed_row parse_uuid parse_ip a owner c o ≡ parsed_row parse_uuid parse_ip b owner c o
      parsed none = refl
      parsed (some sid) =
          ap (λ r. (sid, r)) (own_row-view owner a.store b.store sid c.reads (view.rows sid))

  -- The answers to Describe, Delete and PTY.
  abbrev pub SameReplies : Server → Server → Bytes → Type 0
  SameReplies a b owner =
      (id : Bytes) (c : Calls)
      → (describe parse_uuid parse_ip a owner id c ≡ describe parse_uuid parse_ip b owner id c)
        × ((delete_session parse_uuid parse_ip a owner id c).1
            ≡ (delete_session parse_uuid parse_ip b owner id c).1)
        × ((open_pty parse_uuid parse_ip a owner id c).1
            ≡ (open_pty parse_uuid parse_ip b owner id c).1)

  view-replies : (a b : Server) (owner : Bytes) → SameView owner a b → SameReplies a b owner
  unfolding describe delete_session open_pty
  view-replies a b owner view id c = rw (view.sessions id) (
    described_same (owned b owner id),
    deleted_same (owned b owner id),
    opened_same (owned b owner id),
  )
    where
      row :
          row_for_owner parse_uuid parse_ip a id owner c
          ≡ row_for_owner parse_uuid parse_ip b id owner c
      row = row_for_owner-view a b owner id c view

      described_same :
          (o : Option Session)
          → described parse_uuid parse_ip a owner id c o
            ≡ described parse_uuid parse_ip b owner id c o
      described_same none = ap row_reply row
      described_same (some s) = refl

      deleted_same :
          (o : Option Session)
          → (deleted parse_uuid parse_ip a owner id c o).1
            ≡ (deleted parse_uuid parse_ip b owner id c o).1
      deleted_same none = ap stale_reply row
      deleted_same (some s) = refl

      opened_same :
          (o : Option Session)
          → (terminal_of parse_uuid parse_ip a id c o).1
            ≡ (terminal_of parse_uuid parse_ip b id c o).1
      opened_same none = refl
      opened_same (some s) = has_same s.has_console
        where
          has_same :
              (has : Bool)
              → (if_console a (attached_to parse_uuid parse_ip a id c s) has).1
                ≡ (if_console b (attached_to parse_uuid parse_ip b id c s) has).1
          has_same true = refl
          has_same false = refl

  -- A caller cannot see what another caller's Create, Delete or PTY has done: on a consistent server
  -- (each live session is filed under its id and has a row of its owner), the answers to Describe,
  -- Delete and PTY are for every id the same before and after. The ids of new sessions are UUIDs that
  -- are neither live nor in the table.
  pub others_invisible :
      (sv sv' : Server) (owner other : Bytes)
      → owner ≢ other
      → Consistent parse_uuid parse_ip sv
      → Served parse_uuid parse_ip sv (some other) sv'
      → SameReplies sv sv' owner
  others_invisible sv sv' owner other ne fine step =
      view-replies sv sv' owner
        (Served-SameView parse_uuid parse_ip sv sv' owner other (some other) ne refl step fine)
