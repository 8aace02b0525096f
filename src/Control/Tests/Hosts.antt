-- ===== src/Control/Tests/Hosts.antt =====
-- Runs of the map of live sessions.
use microvm_terminal.Base.{◌≡◌, refl, true, false, some, none, [], ◌∷◌, bytes, bytes_eq, arith}
use microvm_terminal.Base.Map
use microvm_terminal.Base.Text.{bytes-eq}
use microvm_terminal.Base.Result.{ok, err}
use microvm_terminal.Control.Session.{new_session}
use microvm_terminal.Control.Host.{
  Session, WarmPool, Host, at_capacity, full, land, create, destroy,
}
use microvm_terminal.Control.Host.Overlap.{Now, start, and_next, passes, Bounded, Reach-Bounded}

abbrev pub one : Session
one = record {
  uid = 1;
  id = bytes "a";
  warm = false;
  owner = [];
  ip = none;
  has_console = false;
  terminal = new_session 0;
}

abbrev pub two : Session
two = record {
  uid = 2;
  id = bytes "b";
  warm = false;
  owner = [];
  ip = none;
  has_console = false;
  terminal = new_session 0;
}

abbrev pair : WarmPool
pair = record { target = 2; ready = one ∷ two ∷ [] }

abbrev pub small_host : Host
small_host = record { max_live = 1; pool = none; sessions = []; gone = [] }

abbrev busy_host : Host
busy_host = record { max_live = 1; pool = some pair; sessions = (bytes "c", one) ∷ []; gone = [] }

-- A second Create is refused, and a destroyed session makes room.
refused : (create (create small_host [] (ok one)).0 [] (ok two)).1 ≡ err at_capacity
unfolding create full land Map.insert
refused = refl

room_again :
    (create (destroy (create small_host [] (ok one)).0 (bytes "a") true).0 [] (ok two)).1 ≡ ok two
unfolding create full land destroy Map.insert Map.lookup Map.delete bytes_eq
room_again = refl

abbrev one_passed : Now
one_passed = record { host = small_host; under_way = 1 }

Reach-Bounded_example : Bounded 1 1 one_passed
unfolding full
Reach-Bounded_example =
    Reach-Bounded 1 1 small_host (omega arith) (omega arith) refl refl
      (and_next start (passes refl (omega arith)))
