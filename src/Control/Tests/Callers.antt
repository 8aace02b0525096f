-- ===== src/Control/Tests/Callers.antt =====
-- Two callers at the API.
use microvm_terminal.Base.{
  ◌≡◌, refl, Bool, true, false, Option, none, some, [], ◌∷◌, Bytes, bytes, bytes_eq, arith,
}
use microvm_terminal.Base.Map
use microvm_terminal.Base.Text.{bytes-eq}
use microvm_terminal.Base.Result.{ok}
use microvm_terminal.Control.Session.{new_session}
use microvm_terminal.Control.Host
use microvm_terminal.Control.Host.{Session, Host, full, land, create, create_warm}
use microvm_terminal.Control.Api
use microvm_terminal.Control.Wire.{Server, Calls, asked, no_body}
use microvm_terminal.Control.Api.{
  boot, create_session, delete_session, current, current_reply, describe,
}
use microvm_terminal.Control.Api.Consistency.{Consistent}
use microvm_terminal.Control.Api.Created.{Usable, Outcome, create_session_lem}
use microvm_terminal.Control.Api.Reachable.{Served, boots, start, and_next, Reach-Consistent}

abbrev machine : Session
machine = record {
  uid = 1;
  id = bytes "a";
  warm = false;
  owner = [];
  ip = some (bytes "10.0.0.2");
  has_console = true;
  terminal = new_session 5;
}

abbrev pub idle_server : Server
idle_server = record {
  host = record { max_live = 2; pool = none; sessions = []; gone = [] };
  store = [];
  public_origin = bytes "https://example.org/";
}

abbrev pub calls : Calls
calls = record {
  now = 7;
  launch = ok machine;
  fresh = bytes "b";
  new_uuid = bytes "c";
  torn_down = true;
  inserts = true;
  reads = true;
  marks = true;
  touches = true;
}

abbrev pub as_it_is : Bytes → Option Bytes
as_it_is text = some text

abbrev pub any_ip : Bytes → Bool
any_ip text = true

pub idle_server-Usable : Usable as_it_is any_ip idle_server calls
unfolding boot create create_warm full land Map.lookup
idle_server-Usable true = ((bytes "a", refl, refl), refl)
idle_server-Usable false = ((bytes "a", refl, refl), refl)

pub idle_server-Consistent : Consistent as_it_is any_ip idle_server
unfolding Map.lookup
idle_server-Consistent = record {
  filed = λ id s h. absurd (ground (arith, h));
  rowed = λ id s h. absurd (ground (arith, h));
}

create_session_lem_example :
    Outcome as_it_is any_ip idle_server
      (bytes "alice")
      (create_session as_it_is any_ip idle_server (bytes "alice") (asked true) calls)
create_session_lem_example =
    create_session_lem as_it_is any_ip idle_server (bytes "alice") (asked true) calls
      idle_server-Usable

abbrev alices : Server
alices = (create_session as_it_is any_ip idle_server (bytes "alice") no_body calls).0

alice_boots : Served as_it_is any_ip idle_server (some (bytes "alice")) alices
alice_boots = boots (bytes "alice") no_body calls idle_server-Usable

Reach-Consistent_example : Consistent as_it_is any_ip alices
Reach-Consistent_example =
    Reach-Consistent as_it_is any_ip idle_server idle_server-Consistent
      (and_next {sv = idle_server} {sv' = alices} {by = some (bytes "alice")} start alice_boots)

abbrev busy : Host
busy = record { max_live = 2; pool = none; sessions = (bytes "a", machine) ∷ []; gone = [] }

abbrev newer_machine : Session
newer_machine = record machine { id = bytes "n"; owner = bytes "alice"; terminal = new_session 9 }

abbrev older_machine : Session
older_machine = record machine { owner = bytes "alice" }

abbrev two_machines : Server
two_machines = record idle_server {
  host = record idle_server.host {
    sessions = (bytes "n", newer_machine) ∷ (bytes "a", older_machine) ∷ [];
  };
}

shows_newer : current two_machines (bytes "alice") ≡ current_reply (some newer_machine)
unfolding current Host.live_list Api.newest bytes_eq new_session
shows_newer = refl
