-- ===== src/Control/Tests/Gates.antt =====
-- Two callers with their cookies at the routes.
use microvm_terminal.Base.{[], ◌≡◌, ◌≢◌, ◌*◌, refl, some, bytes, arith}
use microvm_terminal.Control.Auth.{owner_from_request, second}
use microvm_terminal.Control.Router.{Request, post_sessions, get_pty, serve}
use microvm_terminal.Control.Router.Isolated.{serve_isolated}
use microvm_terminal.Control.Tests.Callers.{
  idle_server, calls, as_it_is, any_ip, idle_server-Usable, idle_server-Consistent,
}
use microvm_terminal.Control.Tests.Logins.{toy_mac, gate, accepted, bobs_accepted}
use microvm_terminal.Control.Wire.{no_body}

abbrev bob_boots : Request
bob_boots = record {
  request_id = [];
  cookie = some (bytes "bob|9|0605");
  route = post_sessions;
  body = no_body;
}

abbrev ada_looks : Request
ada_looks = record {
  request_id = bytes "r1";
  cookie = some (bytes "ada|9|0605");
  route = get_pty (bytes "a");
  body = no_body;
}

bob_is_not_ada : owner_from_request toy_mac gate (7 * second) bob_boots.cookie ≢ some (bytes "ada")
unfolding owner_from_request
bob_is_not_ada e = absurd (ground (arith, bobs_accepted, e))

serve_isolated_example :
    (serve toy_mac as_it_is any_ip gate
      (7 * second)
      (bytes "r2")
      (serve toy_mac as_it_is any_ip gate (7 * second) (bytes "r2") idle_server bob_boots calls).0
      ada_looks
      calls).1
    ≡ (serve toy_mac as_it_is any_ip gate (7 * second) (bytes "r2") idle_server ada_looks calls).1
unfolding owner_from_request
serve_isolated_example =
    serve_isolated toy_mac as_it_is any_ip gate (7 * second) (7 * second) (bytes "r2") idle_server
      bob_boots ada_looks calls calls (bytes "ada") bob_is_not_ada accepted refl
      idle_server-Consistent idle_server-Usable
