-- ===== src/Control/Router/Isolated.antt =====
-- What a request can change for the callers of others.
use microvm_terminal.Base.{
  ℕ, ◌≡◌, ◌≢◌, refl, sym, ap, Bool, true, false, Option, none, some, Bytes, arith,
}
use microvm_terminal.Control.Auth.{Gate, owner_from_request}
use microvm_terminal.Control.Wire.{Server, Calls, Body}
use microvm_terminal.Control.Api.Consistency.{Consistent}
use microvm_terminal.Control.Api.Created.{Usable}
use microvm_terminal.Control.Api.Owners.{SameReplies, others_invisible}
use microvm_terminal.Control.Api.Reachable.{boots, deletes, opens}
use microvm_terminal.Control.Router.{
  Route, post_sessions, get_current, get_session, delete_session_route, get_pty, Request, replied,
  pty_answer, id_given, handled, gated, serve,
}

-- The request looks at a session, ends it or opens its terminal.
abbrev pub names_session : Route → Bool
names_session post_sessions = false
names_session get_current = false
names_session (get_session id) = true
names_session (delete_session_route id) = true
names_session (get_pty id) = true

module _ (mac : Bytes → Bytes → Bytes) (parse_uuid : Bytes → Option Bytes)
    (parse_ip : Bytes → Bool) where
  abbrev SameAnswers : Server → Server → Bytes → Type 0
  SameAnswers a b owner =
      (body : Body) (c : Calls) (route : Route)
      → names_session route ≡ true
      → (handled mac parse_uuid parse_ip a owner body c route).1
        ≡ (handled mac parse_uuid parse_ip b owner body c route).1

  SameReplies-SameAnswers :
      (a b : Server) (owner : Bytes)
      → SameReplies parse_uuid parse_ip a b owner
      → SameAnswers a b owner
  SameReplies-SameAnswers a b owner same body c post_sessions h = absurd (ground (arith, h))
  SameReplies-SameAnswers a b owner same body c get_current h = absurd (ground (arith, h))
  SameReplies-SameAnswers a b owner same body c (get_session id) h = ap replied (same id c).0
  SameReplies-SameAnswers a b owner same body c (delete_session_route id) h =
      ap replied (same id c).1
  SameReplies-SameAnswers a b owner same body c (get_pty id) h = ap pty_answer (same id c).2

  handled-SameAnswers :
      (sv : Server) (owner other : Bytes) (body : Body) (c : Calls) (route : Route)
      → owner ≢ other
      → Consistent parse_uuid parse_ip sv
      → Usable parse_uuid parse_ip sv c
      → SameAnswers sv (handled mac parse_uuid parse_ip sv other body c route).0 owner
  handled-SameAnswers sv owner other body c post_sessions ne fine usable =
      SameReplies-SameAnswers sv _ owner
        (others_invisible parse_uuid parse_ip sv _ owner other ne fine (boots other body c usable))
  handled-SameAnswers sv owner other body c get_current ne fine usable = λ b c' route h. refl
  handled-SameAnswers sv owner other body c (get_session id) ne fine usable = λ b c' route h. refl
  handled-SameAnswers sv owner other body c (delete_session_route id) ne fine usable =
      SameReplies-SameAnswers sv _ owner
        (others_invisible parse_uuid parse_ip sv _ owner other ne fine (deletes other id c))
  handled-SameAnswers sv owner other body c (get_pty id) ne fine usable =
      SameReplies-SameAnswers sv _ owner
        (others_invisible parse_uuid parse_ip sv _ owner other ne fine (opens other id c))

  gated-SameAnswers :
      (sv : Server) (owner : Bytes) (r : Request) (c : Calls) (caller : Option Bytes)
      → caller ≢ some owner
      → Consistent parse_uuid parse_ip sv
      → Usable parse_uuid parse_ip sv c
      → SameAnswers sv (gated mac parse_uuid parse_ip sv r c caller).0 owner
  gated-SameAnswers sv owner r c none ne fine usable = λ b c' route h. refl
  gated-SameAnswers sv owner r c (some other) ne fine usable =
      handled-SameAnswers sv owner other r.body c r.route (λ e. ne (ap (λ o. some o) (sym e))) fine
        usable

  -- Whatever a request asks for, with a cookie that the gate does not take for the owner's, or with
  -- none: each request of the owner that names a session is answered the same before and after. The
  -- server is consistent (each live session is filed under its id and has a row of its owner), and the
  -- ids of new sessions are UUIDs that are neither live nor in the table.
  pub serve_isolated :
      (g : Gate) (now later : ℕ) (fresh : Bytes) (sv : Server) (r mine : Request) (c c' : Calls)
      (owner : Bytes)
      → owner_from_request mac g now r.cookie ≢ some owner
      → owner_from_request mac g later mine.cookie ≡ some owner
      → names_session mine.route ≡ true
      → Consistent parse_uuid parse_ip sv
      → Usable parse_uuid parse_ip sv c
      → (serve mac parse_uuid parse_ip g later fresh
          (serve mac parse_uuid parse_ip g now fresh sv r c).0
          mine
          c').1
        ≡ (serve mac parse_uuid parse_ip g later fresh sv mine c').1
  unfolding serve
  serve_isolated g now later fresh sv r mine c c' owner foreign own names fine usable =
      let first = gated mac parse_uuid parse_ip sv r c (owner_from_request mac g now r.cookie) in
      let same =
        gated-SameAnswers sv owner r c (owner_from_request mac g now r.cookie) foreign fine
          usable in
      rw own (
        ap (λ a. record { request_id = id_given fresh mine.request_id; answer = a })
          (sym (same mine.body c' mine.route names)))
