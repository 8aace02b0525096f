-- ===== src/Control/Api/Booting.antt =====
-- What a request for a session does to the live map and the table.
use microvm_terminal.Base.{
  ℕ, ◌≡◌, refl, inl, inr, Bool, true, false, Option, none, some, Bytes, Bool-cases,
}
use microvm_terminal.Base.Map
use microvm_terminal.Base.Map.{lookup-insert, lookup-delete, insert-insert, ==_self}
use microvm_terminal.Base.Result.{Result, ok, err}
use microvm_terminal.Base.Text.{bytes-eq}
use microvm_terminal.Control.Host
use microvm_terminal.Control.Host.{
  Session, WarmPool, Host, landed, warm_or_cold, from_pool, acquire_warm, create, create_warm, land,
  full,
}
use microvm_terminal.Control.Store.{Rows, Row, inserted, insert_session}
use microvm_terminal.Control.Wire.{Calls}
use microvm_terminal.Control.Api.{boot}

-- The host that Create or CreateWarm leaves: a session that it returns is filed under its id, and an
-- error changes no session.
abbrev pub Lands : Host → Host × Result Host.Error Session → Type 0
Lands h (h', ok s) = (h'.sessions ≡ Map.insert s.id s h.sessions) × (h'.gone ≡ h.gone)
Lands h (h', err e) = (h'.sessions ≡ h.sessions) × (h'.gone ≡ h.gone)

landed-Lands :
    (h : Host) (fresh : Bytes) (launch : Result Host.Error Session)
    → Lands h (landed h fresh launch)
unfolding land
landed-Lands h fresh (ok s) = (refl, refl)
landed-Lands h fresh (err e) = (refl, refl)

create-Lands :
    (h : Host) (fresh : Bytes) (launch : Result Host.Error Session)
    → Lands h (create h fresh launch)
unfolding create
create-Lands h fresh launch = elim (Bool-cases (full h)) [
  | inl e ↦ rw e (refl, refl)
  | inr e ↦ rw e (landed-Lands h fresh launch)
]

warm-Lands :
    (h : Host) (fresh : Bytes) (launch : Result Host.Error Session)
    (got : WarmPool × Option Session)
    → Lands h (warm_or_cold h fresh launch got)
unfolding land
warm-Lands h fresh launch (p, none) = create-Lands (record h { pool = some p }) fresh launch
warm-Lands h fresh launch (p, some s) = elim (Bool-cases (full h)) [
  | inl e ↦ rw e (refl, refl)
  | inr e ↦ rw e (refl, refl)
]

from_pool-Lands :
    (h : Host) (fresh : Bytes) (launch : Result Host.Error Session) (pool : Option WarmPool)
    → Lands h (from_pool h fresh launch pool)
from_pool-Lands h fresh launch none = create-Lands h fresh launch
from_pool-Lands h fresh launch (some p) = warm-Lands h fresh launch (acquire_warm p)

pub boot-Lands : (h : Host) (warm : Bool) (c : Calls) → Lands h (boot h warm c)
unfolding boot create_warm
boot-Lands h false c = create-Lands h c.fresh c.launch
boot-Lands h true c = from_pool-Lands h c.fresh c.launch h.pool

-- The row that an insertion adds, if it adds one.
abbrev pub Added : Rows → Bytes → Bytes → Rows × Bool → Type 0
Added rows sid owner (rows', false) = rows' ≡ rows
Added rows sid owner (rows', true) =
    (Map.lookup sid rows ≡ none)
    × ((row : Row) × (rows' ≡ Map.insert sid row rows) × (row.owner ≡ owner))

inserted-Added :
    (rows : Rows) (sid : Bytes) (row : Row) (o : Option Row)
    → Map.lookup sid rows ≡ o
    → Added rows sid row.owner (inserted rows sid row o)
inserted-Added rows sid row none e = (e, (row, refl, refl))
inserted-Added rows sid row (some old) e = refl

pub insert_session-Added :
    (parse_ip : Bytes → Bool) (rows : Rows) (sid owner : Bytes) (ip : Option Bytes) (warm : Bool)
    (now : ℕ) (works : Bool)
    → Added rows sid owner (insert_session parse_ip rows sid owner ip warm now works)
unfolding insert_session
insert_session-Added parse_ip rows sid owner ip warm now true =
    inserted-Added rows sid _ (Map.lookup sid rows) refl
insert_session-Added parse_ip rows sid owner ip warm now false = refl
