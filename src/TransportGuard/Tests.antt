-- ===== src/TransportGuard/Tests.antt =====
-- nabla/asgi_transport_guard.py: connections at concrete paths, with toy networks.
use fastapi_sample.Prelude.{
  String, ◌≡◌, refl, ◌⊎◌, Bool, true, false, ◌==◌, [], ◌∷◌, Option, none, some, List, if◌then◌else◌,
  starts_with, upper,
}
use fastapi_sample.RoutePolicy.{
  within, exact_policy, prefix_policy, http_route_policy, route_policy_for,
}
use fastapi_sample.TrustedIp.{Addresses, NetworkSettings, owner_source_permitted}
use fastapi_sample.AccessControl.{OwnerCheck, verified, unauthorized, get_or_empty}
use fastapi_sample.TransportGuard.{
  Route, mount, endpoint, Connection, call_app, respond, close, is_mount_of, is_mounted,
  guard_mount, guard_websocket, guard,
}
use fastapi_sample.TransportGuard.Reached.{is_guarded, is_owner_path, IsOwnerOf, guard-call_app}

abbrev texts : Addresses
texts = record {
  IpAddress = String;
  IpNetwork = String;
  ip_address = λ s. if s == "" then none else some s;
  ip_network = λ s. some s;
  prefixlen = λ n. 8;
  contains = λ n a. starts_with a n;
}

abbrev network : Bool → NetworkSettings
network remote = record {
  trusted_cidrs = "";
  trusted_proxy_cidrs = "";
  owner_remote_access_enabled = remote;
}

abbrev routes : Option (List Route)
routes = some (endpoint ∷ mount "/a2a" ∷ mount "/static" ∷ [])

abbrev connection : String → String → OwnerCheck → Connection
connection kind path token = record {
  type = some kind;
  path = some path;
  scope = record { headers = some []; client = some "10.0.0.7" };
  owner_token = token;
}

abbrev subject : Option String
subject = some "alice"

abbrev alice : OwnerCheck
alice = verified "alice"

socket :
    guard texts (network true) routes (connection "websocket" "/ws/live" alice)
    ≡ call_app (some "alice")
unfolding guard guard_websocket route_policy_for within owner_source_permitted
socket = refl

agent :
    guard texts (network true) routes (connection "http" "/a2a/run" alice) ≡ call_app (some "alice")
unfolding guard guard_mount is_mounted is_mount_of route_policy_for http_route_policy prefix_policy
    exact_policy within upper owner_source_permitted
agent = refl

unapproved :
    guard texts (network true) routes (connection "http" "/static/a.css" alice) ≡ respond 403
unfolding guard guard_mount is_mounted is_mount_of route_policy_for http_route_policy prefix_policy
    exact_policy within upper owner_source_permitted
unapproved = refl

unknown :
    guard texts (network true) routes (connection "http" "/a2a/run" unauthorized) ≡ respond 401
unfolding guard guard_mount is_mounted is_mount_of route_policy_for http_route_policy prefix_policy
    exact_policy within upper owner_source_permitted
unknown = refl

outside_ws : guard texts (network true) routes (connection "websocket" "/wsx" alice) ≡ close 4403
unfolding guard guard_websocket route_policy_for within owner_source_permitted
outside_ws = refl

ordinary :
    guard texts (network false) routes (connection "http" "/health" unauthorized) ≡ call_app none
unfolding guard is_mounted is_mount_of within
ordinary = refl

guard-call_app_example :
    (let c = connection "websocket" "/ws/live" alice in
      ((is_guarded routes c ≡ false) × (subject ≡ none))
      ⊎ ((is_owner_path (get_or_empty c.type) (get_or_empty c.path) ≡ true)
          × IsOwnerOf texts (network true) c subject))
guard-call_app_example =
    guard-call_app texts (network true) routes (connection "websocket" "/ws/live" alice) subject
      socket
