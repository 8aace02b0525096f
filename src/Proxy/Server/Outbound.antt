-- ===== src/Proxy/Server/Outbound.antt =====
-- The credentials in the request that goes to the upstream.
use microvm_terminal.Base.{
  ◌≤◌, ◌≡◌, refl, sym, subst, ◌∙◌, true, false, Option, some, List, [], ◌∷◌, ◌++◌, append-nil,
  Bytes, bytes, bytes_eq, length, take, length-take, arith, if◌then◌else◌,
}
use microvm_terminal.Base.Text.{bytes_eq_iff}
use microvm_terminal.Proxy.Stream.{Outer}
use microvm_terminal.Proxy.Server.{
  Header, Server, Request, World, Outgoing, Outcome, handle_forward, is_stripped,
  copy_forward_headers, header_del, header_set, outgoing, body_cap, first_non_empty, header_get,
}
use microvm_terminal.Proxy.Server.Forward.{
  Resolved, Account, unauthenticated, limited, aborted, unreachable, served, handle_forward-Account,
}

-- All values of a name.
pub values : Header → Bytes → List Bytes
values [] k = []
values ((j, v) ∷ h) k = if bytes_eq j k then v ∷ values h k else values h k

values-append : (h g : Header) (k : Bytes) → values (h ++ g) k ≡ values h k ++ values g k
unfolding values
values-append [] g k = refl
values-append ((j, v) ∷ h) g k = ground (arith, values-append h g k)

values-header_del :
    (h : Header) (j k : Bytes)
    → values (header_del h j) k ≡ (if bytes_eq j k then [] else values h k)
unfolding values header_del
values-header_del [] j k = ground arith
values-header_del ((i, v) ∷ h) j k =
    ground (arith, values-header_del h j k, bytes_eq_iff i j, bytes_eq_iff i k, bytes_eq_iff j k)

values-copy_forward_headers :
    (h : Header) (k : Bytes) → is_stripped k ≡ true → values (copy_forward_headers h) k ≡ []
unfolding values copy_forward_headers
values-copy_forward_headers [] k stripped = refl
values-copy_forward_headers ((j, v) ∷ h) k stripped =
    ground (arith, values-copy_forward_headers h k, bytes_eq_iff j k)

values-header_set :
    (h : Header) (j v k : Bytes)
    → values (header_set h j v) k ≡ (if bytes_eq j k then v ∷ [] else values h k)
unfolding values header_set
values-header_set h j v k = ground (
  arith,
  values-append (header_del h j) ((j, v) ∷ []) k,
  values-header_del h j k,
  append-nil (values h k),
)

-- A request to the upstream carries exactly one API key, the secret; it carries no authorization
-- of the client; its body is no longer than a MiB.
pub record Clean (secret : Bytes) (out : Outgoing) : Type 0 where
  pub one_key : values out.header (bytes "X-Api-Key") ≡ secret ∷ []
  pub no_authorization : values out.header (bytes "Authorization") ≡ []
  pub no_proxy_authorization : values out.header (bytes "Proxy-Authorization") ≡ []
  pub bounded : length out.body ≤ body_cap

outgoing-Clean :
    (s : Server) (r : Request) (secret body : Bytes)
    → Clean secret (outgoing s r secret (take body_cap body))
unfolding outgoing bytes_eq is_stripped
outgoing-Clean s r secret body = record {
  one_key =
      values-header_set keyed (bytes "Anthropic-Version") version (bytes "X-Api-Key")
      ∙ values-header_set copied (bytes "X-Api-Key") secret (bytes "X-Api-Key");
  no_authorization = dropped (bytes "Authorization") refl refl refl;
  no_proxy_authorization = dropped (bytes "Proxy-Authorization") refl refl refl;
  bounded = omega (arith, length-take body_cap body);
}
  where
    copied : Header
    copied = copy_forward_headers r.header

    keyed : Header
    keyed = header_set copied (bytes "X-Api-Key") secret

    version : Bytes
    version = first_non_empty (header_get r.header (bytes "Anthropic-Version")) (bytes "2023-06-01")

    dropped :
        (k : Bytes)
        → is_stripped k ≡ true
        → bytes_eq (bytes "Anthropic-Version") k ≡ false
        → bytes_eq (bytes "X-Api-Key") k ≡ false
        → values (header_set keyed (bytes "Anthropic-Version") version) k ≡ []
    dropped k stripped a b =
        values-header_set keyed (bytes "Anthropic-Version") version k
        ∙ rw (a, values-header_set copied (bytes "X-Api-Key") secret k, b)
            (values-copy_forward_headers r.header k stripped)

injected : {a b : Outgoing} → some a ≡ some b → a ≡ b
injected e = cc

Account-Clean :
    {unmarshal : Bytes → Option Outer} {s : Server} {r : Request} {w : World} {o : Outcome}
    (out : Outgoing)
    → Account unmarshal s r w o
    → o.sent ≡ some out
    → (t : Resolved s r) × Clean t.secret out
Account-Clean out (unauthenticated no_token q a x f) e = absurd (ground arith)
Account-Clean out (limited t q x y a z f c) e = absurd (ground arith)
Account-Clean out (aborted t b x q a y f) e = absurd (ground arith)
Account-Clean {s} {r} out (unreachable t b c z x q a y f d) e =
    (t, subst (Clean t.secret) (injected (sym y ∙ e)) (outgoing-Clean s r t.secret b))
Account-Clean {s} {r} out (served t b resp c z x q a y f) e =
    (t, subst (Clean t.secret) (injected (sym y ∙ e)) (outgoing-Clean s r t.secret b))

-- Whatever a client sends, a request goes to the upstream only under a session token that resolves,
-- with the secret of that token as its only API key, without the client's authorization headers,
-- and with at most a MiB of body.
pub handle_forward-Clean :
    (unmarshal : Bytes → Option Outer) (s : Server) (r : Request) (w : World) (out : Outgoing)
    → (handle_forward unmarshal r w s).sent ≡ some out
    → (t : Resolved s r) × Clean t.secret out
handle_forward-Clean unmarshal s r w out =
    Account-Clean out (handle_forward-Account unmarshal s r w)
