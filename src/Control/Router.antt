-- ===== src/Control/Router.antt =====
-- control-plane/internal/api/router.go, middleware.go and Middleware of control-plane/internal/auth/
-- auth.go: the group of routes behind the gate. Which route chi chooses is an argument, and so is the
-- fresh id of a request; the pages, /healthz and /metrics stand outside the group.
pub mod Isolated
use microvm_terminal.Base.{ℕ, Bool, true, false, Option, none, some, List, [], ◌∷◌, Bytes, bytes}
use microvm_terminal.Control.Api.{create_session, current, describe, delete_session, open_pty}
use microvm_terminal.Control.Auth.{Gate, owner_from_request}
use microvm_terminal.Control.Wire.{Server, Calls, Body, Reply}

-- The routes of the group, with the id in the path.
pub data Route : Type 0 where
  post_sessions get_current : Route
  get_session delete_session_route get_pty : Bytes → Route

pub record Request : Type 0 where
  pub request_id : Bytes
  pub cookie : Option Bytes
  pub route : Route
  pub body : Body

-- Upgraded is the start of a terminal.
pub data Answer : Type 0 where
  auth_required upgraded : Answer
  replied : Reply → Answer

pub record Response : Type 0 where
  pub request_id : Bytes
  pub answer : Answer

abbrev pub id_given : Bytes → Bytes → Bytes
id_given fresh [] = fresh
id_given fresh (c ∷ cs) = c ∷ cs

abbrev pub pty_answer : Option Reply → Answer
pty_answer none = upgraded
pty_answer (some r) = replied r

module _ (mac : Bytes → Bytes → Bytes) (parse_uuid : Bytes → Option Bytes)
    (parse_ip : Bytes → Bool) where
  abbrev pub handled : Server → Bytes → Body → Calls → Route → Server × Answer
  handled sv owner body c post_sessions =
      let (sv', r) = create_session parse_uuid parse_ip sv owner body c in (sv', replied r)
  handled sv owner body c get_current = (sv, replied (current sv owner))
  handled sv owner body c (get_session id) =
      (sv, replied (describe parse_uuid parse_ip sv owner id c))
  handled sv owner body c (delete_session_route id) =
      let (sv', r) = delete_session parse_uuid parse_ip sv owner id c in (sv', replied r)
  handled sv owner body c (get_pty id) =
      let (sv', r) = open_pty parse_uuid parse_ip sv owner id c in (sv', pty_answer r)

  abbrev pub gated : Server → Request → Calls → Option Bytes → Server × Answer
  gated sv r c none = (sv, auth_required)
  gated sv r c (some owner) = handled sv owner r.body c r.route

  -- With a fresh id for a request that has none.
  unfoldable pub serve : Gate → ℕ → Bytes → Server → Request → Calls → Server × Response
  serve g now fresh sv r c =
      let (sv', a) = gated sv r c (owner_from_request mac g now r.cookie) in
      (sv', record { request_id = id_given fresh r.request_id; answer = a })
