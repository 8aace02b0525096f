-- ===== src/Control/Store.antt =====
-- control-plane/internal/db/db.go: the sessions table, one row for each machine that ever booted. A
-- UUID stands for its canonical text. Whether the database carries out a statement is an argument, as
-- is net.ParseIP; now() is the time of the call.
use microvm_terminal.Base.{ℕ, Bool, true, false, Option, none, some, [], ◌∷◌, Bytes, if◌then◌else◌}
use microvm_terminal.Base.Map
use microvm_terminal.Base.Map.{GoMap}
use microvm_terminal.Base.Result.{Result, ok, err}
use microvm_terminal.Base.Text.{bytes-eq}

pub record Row : Type 0 where
  pub owner : Bytes
  pub vm_ip : Option Bytes
  pub warm : Bool
  pub created_at : ℕ
  pub ready_at : Option ℕ
  pub reaped_at : Option ℕ
  pub last_attached_at : Option ℕ

abbrev pub Rows : Type 0
Rows = GoMap Bytes Row

pub data Error : Type 0 where
  not_found unavailable : Error

-- An address that is empty or does not parse is stored as null.
abbrev pub stored_ip : (Bytes → Bool) → Option Bytes → Option Bytes
stored_ip parse_ip none = none
stored_ip parse_ip (some []) = none
stored_ip parse_ip (some (c ∷ cs)) = if parse_ip (c ∷ cs) then some (c ∷ cs) else none

abbrev pub inserted : Rows → Bytes → Row → Option Row → Rows × Bool
inserted rows id row none = (Map.insert id row rows, true)
inserted rows id row (some old) = (rows, false)

-- The primary key refuses a second row for an id.
unfoldable pub insert_session :
    (Bytes → Bool) → Rows → Bytes → Bytes → Option Bytes → Bool → ℕ → Bool → Rows × Bool
insert_session parse_ip rows id owner vm_ip warm now works =
    let row : Row = record {
      owner = owner;
      vm_ip = stored_ip parse_ip vm_ip;
      warm = warm;
      created_at = now;
      ready_at = some now;
      reaped_at = none;
      last_attached_at = none;
    } in
    if works then inserted rows id row (Map.lookup id rows) else (rows, false)

abbrev pub found_row : Option Row → Result Error Row
found_row none = err not_found
found_row (some row) = ok row

unfoldable pub get_session : Rows → Bytes → Bool → Result Error Row
get_session rows id works = if works then found_row (Map.lookup id rows) else err unavailable

abbrev pub reaped : ℕ → Row → Option ℕ → Row
reaped now row none = record row { reaped_at = some now }
reaped now row (some t) = row

abbrev pub reaped_in : Rows → Bytes → ℕ → Option Row → Rows
reaped_in rows id now none = rows
reaped_in rows id now (some row) = Map.insert id (reaped now row row.reaped_at) rows

-- Where reaped_at is null.
unfoldable pub mark_session_reaped : Rows → Bytes → ℕ → Bool → Rows
mark_session_reaped rows id now works =
    if works then reaped_in rows id now (Map.lookup id rows) else rows

abbrev pub touched : Rows → Bytes → ℕ → Option Row → Rows
touched rows id now none = rows
touched rows id now (some row) = Map.insert id (record row { last_attached_at = some now }) rows

unfoldable pub touch_session_attached : Rows → Bytes → ℕ → Bool → Rows
touch_session_attached rows id now works =
    if works then touched rows id now (Map.lookup id rows) else rows
