-- ===== src/TransportGuard/Reached.antt =====
-- nabla/asgi_transport_guard.py: what it takes to reach a mounted application or a WebSocket.
use fastapi_sample.Prelude.{
  String, ◌≡◌, refl, ◌⊎◌, Bool, true, false, ◌&&◌, ◌||◌, ◌==◌, List, Option, none, some, inl, inr,
  Bool-cases, eq_iff, arith, upper, if-All, if◌then◌else◌,
}
use fastapi_sample.RoutePolicy.{
  RoutePolicy, within, prefix_policies, exact_policy, prefix_policy, http_route_policy,
  route_policy_for, is_metrics_read, is_session_route, is_site_catalog_read,
}
use fastapi_sample.RoutePolicy.Classes.{exact_policy-All}
use fastapi_sample.TrustedIp.{Addresses, NetworkSettings, owner_source_permitted}
use fastapi_sample.AccessControl.{verified, get_or_empty}
use fastapi_sample.AccessControl.Grants.{OwnerCheck-cases}
use fastapi_sample.TransportGuard.{
  Route, Connection, call_app, is_access_jwt, is_mounted, guard_mount, guard_websocket, guard,
}

-- The connections that the guard is there for.
abbrev pub is_guarded : Option (List Route) → Connection → Bool
is_guarded routes c =
    (get_or_empty c.type == "http" && is_mounted routes (get_or_empty c.path))
    || get_or_empty c.type == "websocket"

-- The paths of the owner: two prefixes for mounted applications, and one for WebSockets.
abbrev pub is_owner_path : String → String → Bool
is_owner_path kind path =
    if kind == "websocket"
    then within path "/ws"
    else within path "/private/ops" || within path "/a2a"

exact_policy-is_access_jwt :
    (path method : String) → is_access_jwt (exact_policy path method).credential ≡ false
exact_policy-is_access_jwt path method =
    exact_policy-All (λ p. is_access_jwt p.credential ≡ false) path method refl refl refl

prefix_path :
    (path : String) (rest : RoutePolicy)
    → is_access_jwt rest.credential ≡ false
    → is_access_jwt (prefix_policy prefix_policies path rest).credential ≡ true
    → (within path "/private/ops" || within path "/a2a") ≡ true
unfolding prefix_policy
prefix_path path rest outside h = ground arith

http_path :
    (path : String)
    → is_access_jwt (route_policy_for path "GET" "http").credential ≡ true
    → (within path "/private/ops" || within path "/a2a") ≡ true
unfolding route_policy_for http_route_policy
http_path path =
    let verb = upper "GET" in
    let IsOwner : RoutePolicy → Type 0 = λ p.
      is_access_jwt p.credential ≡ true
      → (within path "/private/ops" || within path "/a2a") ≡ true in
    if-All IsOwner (is_metrics_read path verb) (λ h. absurd (ground arith))
      (if-All IsOwner (is_session_route path verb) (λ h. absurd (ground arith))
        (if-All IsOwner (is_site_catalog_read path verb) (λ h. absurd (ground arith))
          (prefix_path path (exact_policy path verb) (exact_policy-is_access_jwt path verb))))

websocket_path :
    (path : String)
    → is_access_jwt (route_policy_for path "GET" "websocket").credential ≡ true
    → within path "/ws" ≡ true
unfolding route_policy_for
websocket_path path h = ground arith

no_websocket : (kind : String) → (kind == "http") ≡ true → (kind == "websocket") ≡ false
no_websocket kind h = rw ((eq_iff kind "http").0 h) refl

-- A verified token of the subject, from a permitted source.
abbrev pub IsOwnerOf : Addresses → NetworkSettings → Connection → Option String → Type 0
IsOwnerOf net settings c sub =
    ((subject : String) × (sub ≡ some subject) × (c.owner_token ≡ verified subject))
    × (owner_source_permitted net c.scope settings ≡ true)

module _ (net : Addresses) (settings : NetworkSettings) where
  guard_mount-IsOwnerOf :
      (c : Connection) (path : String) (sub : Option String)
      → guard_mount net settings c path ≡ call_app sub
      → ((within path "/private/ops" || within path "/a2a") ≡ true) × IsOwnerOf net settings c sub
  unfolding guard_mount
  guard_mount-IsOwnerOf c path sub h = elim (OwnerCheck-cases c.owner_token) [
    | inl (subject, known) ↦
        let passed : (some subject ≡ sub) × (owner_source_permitted net c.scope settings ≡ true) =
          ground arith in
        (http_path path (ground arith), ((subject, ground arith, known), passed.1))
    | inr unknown ↦ absurd (ground arith)
  ]

  guard_websocket-IsOwnerOf :
      (c : Connection) (path : String) (sub : Option String)
      → guard_websocket net settings c path ≡ call_app sub
      → (within path "/ws" ≡ true) × IsOwnerOf net settings c sub
  unfolding guard_websocket
  guard_websocket-IsOwnerOf c path sub h = elim (OwnerCheck-cases c.owner_token) [
    | inl (subject, known) ↦
        let passed : (some subject ≡ sub) × (owner_source_permitted net c.scope settings ≡ true) =
          ground arith in
        (websocket_path path (ground arith), ((subject, ground arith, known), passed.1))
    | inr unknown ↦ absurd (ground arith)
  ]

  guarded :
      (routes : Option (List Route)) (c : Connection) (sub : Option String)
      → is_guarded routes c ≡ true
      → guard net settings routes c ≡ call_app sub
      → (is_owner_path (get_or_empty c.type) (get_or_empty c.path) ≡ true)
        × IsOwnerOf net settings c sub
  unfolding guard
  guarded routes c sub h passed = elim (Bool-cases (get_or_empty c.type == "http")) [
    | inl http ↦
        let single = no_websocket (get_or_empty c.type) http in
        let (at, owned) = guard_mount-IsOwnerOf c (get_or_empty c.path) sub (ground arith) in
        (ground arith, owned)
    | inr other ↦
        let (at, owned) = guard_websocket-IsOwnerOf c (get_or_empty c.path) sub (ground arith) in
        (ground arith, owned)
  ]

  -- The application is called only in two cases: the connection is neither a WebSocket nor an HTTP
  -- request for a mounted application, and then no subject is noted; or its path is one of the owner's,
  -- its token is verified, its source is permitted, and the subject is that of the token.
  pub guard-call_app :
      (routes : Option (List Route)) (c : Connection) (sub : Option String)
      → guard net settings routes c ≡ call_app sub
      → ((is_guarded routes c ≡ false) × (sub ≡ none))
        ⊎ ((is_owner_path (get_or_empty c.type) (get_or_empty c.path) ≡ true)
            × IsOwnerOf net settings c sub)
  unfolding guard
  guard-call_app routes c sub passed = elim (Bool-cases (is_guarded routes c)) [
    | inl watched ↦ inr (guarded routes c sub watched passed)
    | inr other ↦ inl (other, ground arith)
  ]
