-- ===== src/Control/Host.antt =====
-- control-plane/internal/session/host.go and warmpool.go: the map of live sessions and the pool of
-- machines that were booted ahead. What a launch yields is an argument; `gone` are the sessions that
-- the callback of OnGone was called with. Logging and the back-pointer to the manager are not
-- modelled.
pub mod Overlap
pub mod Pool
pub mod Reaper
use microvm_terminal.Base.{
  ℕ, ◌+◌, ◌-◌, Bool, true, false, Option, none, some, List, [], ◌∷◌, ◌++◌, Bytes, length, nat_eq,
  ltb, leb, ◌&&◌, if◌then◌else◌,
}
use microvm_terminal.Base.Map
use microvm_terminal.Base.Map.{GoMap}
use microvm_terminal.Base.Result.{Result, ok, err}
use microvm_terminal.Base.Text.{bytes-eq}
use microvm_terminal.Control.Session.{Session as Terminal, idle_since}

-- A session with its identity as an object; the launcher may leave the id empty, and the HTTP layer
-- sets the owner. The address is the text of a valid one.
pub record Session : Type 0 where
  pub uid : ℕ
  pub id : Bytes
  pub warm : Bool
  pub owner : Bytes
  pub ip : Option Bytes
  pub has_console : Bool
  pub terminal : Terminal

pub record WarmPool : Type 0 where
  pub target : ℕ
  pub ready : List Session

pub record Host : Type 0 where
  pub max_live : ℕ
  pub pool : Option WarmPool
  pub sessions : GoMap Bytes Session
  pub gone : List Session

pub data Error : Type 0 where
  at_capacity not_found launch_failed teardown_failed : Error

-- The first machine that is ready, and the pool without it.
unfoldable pub acquire_warm : WarmPool → WarmPool × Option Session
acquire_warm p = elim p.ready [ [] ↦ (p, none) | s ∷ rest ↦ (record p { ready = rest }, some s) ]

-- What the loop and buildOne do with a launched machine; the test of the size is long before it.
unfoldable pub build_one : WarmPool → Option Session → WarmPool
build_one p none = p
build_one p (some s) = record p { ready = p.ready ++ s ∷ [] }

unfoldable pub wants_more : WarmPool → Bool
wants_more p = ltb (length p.ready) p.target

abbrev pub id_or : Bytes → Bytes → Bytes
id_or fresh [] = fresh
id_or fresh (c ∷ cs) = c ∷ cs

-- `fresh` is the id that uuid yields.
abbrev pub named : Bytes → Session → Session
named fresh s = record s { id = id_or fresh s.id }

unfoldable pub full : Host → Bool
full h = leb h.max_live (length h.sessions)

-- The end of a Create: the session goes into the map.
unfoldable pub land : Host → Session → Host
land h s = record h { sessions = Map.insert s.id s h.sessions }

abbrev pub landed : Host → Bytes → Result Error Session → Host × Result Error Session
landed h fresh (err e) = (h, err e)
landed h fresh (ok s) = (land h (named fresh s), ok (named fresh s))

-- A Create that nothing overlaps.
unfoldable pub create : Host → Bytes → Result Error Session → Host × Result Error Session
create h fresh launch = if full h then (h, err at_capacity) else landed h fresh launch

abbrev pub warm_or_cold :
    Host → Bytes → Result Error Session → WarmPool × Option Session → Host × Result Error Session
warm_or_cold h fresh launch (p, none) = create (record h { pool = some p }) fresh launch
warm_or_cold h fresh launch (p, some s) =
    let s' : Session = record (named fresh s) { warm = true } in
    if full h
    then (record h { pool = some p }, err at_capacity)
    else (land (record h { pool = some p }) s', ok s')

abbrev pub from_pool :
    Host → Bytes → Result Error Session → Option WarmPool → Host × Result Error Session
from_pool h fresh launch none = create h fresh launch
from_pool h fresh launch (some p) = warm_or_cold h fresh launch (acquire_warm p)

unfoldable pub create_warm : Host → Bytes → Result Error Session → Host × Result Error Session
create_warm h fresh launch = from_pool h fresh launch h.pool

abbrev pub removed : Host → Bytes → Bool → Option Session → Host × Option Error
removed h id torn_down none = (h, some not_found)
removed h id torn_down (some s) = (
  record h { sessions = Map.delete id h.sessions; gone = h.gone ++ s ∷ [] },
  if torn_down then none else some teardown_failed,
)

-- `torn_down` says that the manager's Destroy returns no error but ErrNotFound.
unfoldable pub destroy : Host → Bytes → Bool → Host × Option Error
destroy h id torn_down = removed h id torn_down (Map.lookup id h.sessions)

abbrev pub unless_replaced : Host → Session → Option Session → Host
unless_replaced h s none = h
unless_replaced h s (some cur) =
    if nat_eq cur.uid s.uid
    then record h { sessions = Map.delete s.id h.sessions; gone = h.gone ++ s ∷ [] }
    else h

-- The goroutine of watch, once the session's done channel is closed.
unfoldable pub watch_fires : Host → Session → Host
watch_fires h s = unless_replaced h s (Map.lookup s.id h.sessions)

unfoldable pub get : Host → Bytes → Option Session
get h id = Map.lookup id h.sessions

-- A snapshot; Go promises no order.
unfoldable pub live_list : GoMap Bytes Session → List Session
live_list [] = []
live_list ((id, s) ∷ rest) = s ∷ live_list rest

abbrev pub list : Host → List Session
list h = live_list h.sessions

abbrev pub warm_pool_size : Host → ℕ
warm_pool_size h = elim h.pool [ none ↦ 0 | some p ↦ length p.ready ]

abbrev pub stale : ℕ → ℕ → Option ℕ → Bool
stale now timeout none = false
stale now timeout (some since) = leb timeout (now - since)

abbrev pub is_gone : Option Error → Bool
is_gone none = true
is_gone (some at_capacity) = false
is_gone (some not_found) = true
is_gone (some launch_failed) = false
is_gone (some teardown_failed) = false

unfoldable pub reap_each : ℕ → ℕ → (Bytes → Bool) → Host → List Session → Host × List Bytes
reap_each now timeout torn_down h [] = (h, [])
reap_each now timeout torn_down h (s ∷ ss) =
    let due = stale now timeout (idle_since s.terminal) in
    let (h', e) = destroy h s.id (torn_down s.id) in
    let (rest, ids) = reap_each now timeout torn_down (if due then h' else h) ss in
    (rest, if due && is_gone e then s.id ∷ ids else ids)

-- A timeout of zero or less is 0 here.
unfoldable pub reap_idle : Host → ℕ → ℕ → (Bytes → Bool) → Host × List Bytes
reap_idle h now timeout torn_down =
    if ltb 0 timeout then reap_each now timeout torn_down h (list h) else (h, [])
