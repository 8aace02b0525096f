-- ===== src/Proxy/Tests/Requests.antt =====
-- proxy/internal/server/server.go at concrete inputs.
use microvm_terminal.Base.{
  ◌≡◌, ◌≢◌, refl, true, false, Option, none, some, [], ◌∷◌, bytes, bytes_eq, take,
}
use microvm_terminal.Base.Map
use microvm_terminal.Proxy.Keys
use microvm_terminal.Proxy.Server.{
  Header, Server, Request, Response, World, Outgoing, outgoing, handle_forward, bearer_token,
  body_cap,
}
use microvm_terminal.Proxy.Server.Forward.{IsForwarded, Resolved, Account, handle_forward-Account}
use microvm_terminal.Proxy.Server.Outbound.{Clean, handle_forward-Clean}
use microvm_terminal.Proxy.Tests.Limits.{small, alice}
use microvm_terminal.Proxy.Tests.Tokens.{first_key, two_keys}
use microvm_terminal.Proxy.Tests.Streams.{by_length, taker}

abbrev gateway : Server
gateway = record {
  pool = record {
    keys = two_keys;
    session_to_key = (alice, bytes "k1") ∷ [];
    key_by_secret = (bytes "k1", first_key) ∷ [];
    rr = 1;
  };
  quota = record { limits = small; buckets = [] };
  audit = [];
  admin_token = bytes "adm";
  upstream = bytes "https://u";
  inflight = 0;
}

abbrev from_alice : Request
from_alice = record {
  method = bytes "POST";
  path = bytes "/v1/messages";
  header = (bytes "Authorization", bytes "Bearer sess_a ") ∷ (bytes "X-Api-Key", bytes "mine") ∷ [];
}

abbrev answer_ok : Response
answer_ok = record {
  status = 200;
  header = (bytes "Content-Type", bytes "application/json") ∷ [];
  chunks = bytes "{}" ∷ [];
  fails = false;
}

abbrev around : Option Response → World
around response = record {
  created = 1;
  now = 2;
  later = 3;
  fresh_id = bytes "id";
  body = some (bytes "hi");
  builds = true;
  response = response;
  client = taker 9;
  flusher = true;
}

alice_bears : bearer_token from_alice.header ≡ some alice
unfolding bearer_token bytes_eq
alice_bears = refl

handle_forward-Account_example :
    Account by_length gateway from_alice
      (around (some answer_ok))
      (handle_forward by_length from_alice (around (some answer_ok)) gateway)
handle_forward-Account_example =
    handle_forward-Account by_length gateway from_alice (around (some answer_ok))

refused : ¬ IsForwarded (handle_forward by_length from_alice (around none) gateway).reply
unfolding handle_forward bytes_eq Keys.secret_for_session Map.lookup Map.insert
refused f = f

abbrev to_upstream : Outgoing
to_upstream = outgoing gateway from_alice (bytes "s1") (take body_cap (bytes "hi"))

sent_on : (handle_forward by_length from_alice (around none) gateway).sent ≡ some to_upstream
unfolding handle_forward bytes_eq Keys.secret_for_session Map.lookup Map.insert
sent_on = refl

handle_forward-Clean_example : (t : Resolved gateway from_alice) × Clean t.secret to_upstream
handle_forward-Clean_example =
    handle_forward-Clean by_length gateway from_alice (around none) to_upstream sent_on

no_bearer : bearer_token [] ≢ some gateway.admin_token
unfolding bearer_token
no_bearer e = cc

abbrev as_admin : Header
as_admin = (bytes "Authorization", bytes "Bearer adm") ∷ []
