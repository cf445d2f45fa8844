-- ===== src/TransportGuard.antt =====
-- nabla/asgi_transport_guard.py: the guard in front of WebSockets and mounted applications. The answer
-- of the token verification stands in the connection.
pub mod Reached
mod Tests
use fastapi_sample.Prelude.{
  String, Bool, true, false, not, ◌==◌, List, [], ◌∷◌, Option, none, some, ℕ, if◌then◌else◌, any,
}
use fastapi_sample.RoutePolicy.{Credential, access_jwt, within, route_policy_for}
use fastapi_sample.TrustedIp.{Addresses, Scope, NetworkSettings, owner_source_permitted}
use fastapi_sample.AccessControl.{
  OwnerCheck, verified, config_error, keys_unavailable, unauthorized, get_or_empty,
}

-- A route of the root application: a Starlette `Mount` at a path, or another one.
pub data Route : Type 0 where
  mount : String → Route
  endpoint : Route

-- What the guard reads of an ASGI scope. A type that is missing is neither of the two it tests.
pub record Connection : Type 0 where
  pub type : Option String
  pub path : Option String
  pub scope : Scope
  pub owner_token : OwnerCheck

-- The application is called, with the owner's subject in its state if there is one; or the guard
-- answers with a status, or closes the WebSocket with a code.
pub data Outcome : Type 0 where
  call_app : Option String → Outcome
  respond : ℕ → Outcome
  close : ℕ → Outcome

abbrev pub is_access_jwt : Credential → Bool
is_access_jwt access_jwt = true
is_access_jwt _ = false

-- `isinstance(route, Mount) and within(path, route.path)`
unfoldable pub is_mount_of : String → Route → Bool
is_mount_of path (mount at) = within path at
is_mount_of path endpoint = false

-- Whether the path is that of a mounted application of the root application, where there is one.
unfoldable pub is_mounted : Option (List Route) → String → Bool
is_mounted none path = false
is_mounted (some routes) path = any (is_mount_of path) routes

module _ (net : Addresses) (settings : NetworkSettings) where
  unfoldable pub guard_mount : Connection → String → Outcome
  guard_mount c path =
      if not (is_access_jwt (route_policy_for path "GET" "http").credential)
      then respond 403
      else elim c.owner_token [
        | config_error ↦ respond 401
        | keys_unavailable ↦ respond 401
        | unauthorized ↦ respond 401
        | verified subject ↦
            if not (owner_source_permitted net c.scope settings)
            then respond 403
            else call_app (some subject)
      ]

  unfoldable pub guard_websocket : Connection → String → Outcome
  guard_websocket c path =
      if not (is_access_jwt (route_policy_for path "GET" "websocket").credential)
      then close 4403
      else elim c.owner_token [
        | config_error ↦ close 4403
        | keys_unavailable ↦ close 4403
        | unauthorized ↦ close 4403
        | verified subject ↦
            if not (owner_source_permitted net c.scope settings)
            then close 4403
            else call_app (some subject)
      ]

  -- `__call__`
  unfoldable pub guard : Option (List Route) → Connection → Outcome
  unfolding is_mounted guard_mount guard_websocket
  guard routes c =
      let kind = get_or_empty c.type in
      let path = get_or_empty c.path in
      if kind == "http"
      then if is_mounted routes path then guard_mount c path else call_app none
      else if kind == "websocket"
      then guard_websocket c path
      else call_app none
