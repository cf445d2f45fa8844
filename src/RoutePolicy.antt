-- ===== src/RoutePolicy.antt =====
-- nabla/route_policy.py: the privacy classification of every HTTP and WebSocket route.
pub mod Segments
pub mod Classes
pub mod Protected
mod Tests
use Prim.Native.String
use fastapi_sample.Prelude.{
  String, Bool, ◌&&◌, ◌||◌, ◌==◌, List, [], ◌∷◌, starts_with, upper, any, if◌then◌else◌,
}

pub data Visibility : Type 0 where
  public_candidate owner service internal review : Visibility

pub data Credential : Type 0 where
  no_key admin_key diagnostics_key metrics_key mcp_key access_jwt : Credential

pub record RoutePolicy : Type 0 where
  pub visibility : Visibility
  pub credential : Credential

abbrev pub public_policy : RoutePolicy
public_policy = record { visibility = public_candidate; credential = no_key }

abbrev pub review_policy : RoutePolicy
review_policy = record { visibility = review; credential = no_key }

abbrev pub diagnostic_policy : RoutePolicy
diagnostic_policy = record { visibility = owner; credential = diagnostics_key }

abbrev pub site_catalog_policy : RoutePolicy
site_catalog_policy = record { visibility = service; credential = diagnostics_key }

abbrev pub owner_policy : RoutePolicy
owner_policy = record { visibility = owner; credential = access_jwt }

abbrev pub admin_policy : RoutePolicy
admin_policy = record { visibility = internal; credential = admin_key }

abbrev pub internal_policy : RoutePolicy
internal_policy = record { visibility = internal; credential = diagnostics_key }

abbrev pub metrics_policy : RoutePolicy
metrics_policy = record { visibility = internal; credential = metrics_key }

abbrev pub mcp_policy : RoutePolicy
mcp_policy = record { visibility = internal; credential = mcp_key }

abbrev pub websocket_policy : RoutePolicy
websocket_policy = record { visibility = internal; credential = access_jwt }

-- `path in {...}`
abbrev pub one_of : List String → String → Bool
one_of names path = any (λ name. path == name) names

abbrev pub public_routes : List String
public_routes = "/health" ∷ "/livez" ∷ "/api/public-homelab/v1" ∷ "/api/ui/services" ∷ []

abbrev pub diagnostic_exact : List String
diagnostic_exact =
    "/api/homelab-services" ∷ "/api/homelab-topology" ∷ "/api/public-topology"
    ∷ "/api/runtime/topology" ∷ "/healthz" ∷ "/sickz" ∷ "/readyz" ∷ "/sentry-debug" ∷ []

unfoldable pub within : String → String → Bool
within path prefix = path == prefix || starts_with path (String.◌++◌ prefix "/")

abbrev pub read_methods : List String
read_methods = "GET" ∷ "HEAD" ∷ []

abbrev pub prefix_policies : List (String × RoutePolicy)
prefix_policies =
    ("/private/ops", owner_policy)
    ∷ ("/a2a", owner_policy)
    ∷ ("/admin", admin_policy)
    ∷ ("/mcp", mcp_policy)
    ∷ ("/metrics", internal_policy)
    ∷ []

-- What follows the loop over the prefixes.
unfoldable pub exact_policy : String → String → RoutePolicy
unfolding within
exact_policy path method =
    if one_of diagnostic_exact path || within path "/api/homelab" || within path "/api/health-board"
    then diagnostic_policy
    else if one_of read_methods method && one_of public_routes path
    then public_policy
    else review_policy

-- The loop: the first matching prefix wins.
unfoldable pub prefix_policy : List (String × RoutePolicy) → String → RoutePolicy → RoutePolicy
prefix_policy [] path rest = rest
prefix_policy ((prefix, policy) ∷ more) path rest =
    if within path prefix then policy else prefix_policy more path rest

-- The three tests that come before the loop.
abbrev pub is_metrics_read : String → String → Bool
is_metrics_read path method = path == "/metrics" && one_of read_methods method

abbrev pub is_session_route : String → String → Bool
is_session_route path method =
    (path == "/api/ui/session" && one_of ("GET" ∷ "HEAD" ∷ "POST" ∷ []) method)
    || (path == "/api/ui/session/logout" && method == "POST")

abbrev pub is_site_catalog_read : String → String → Bool
is_site_catalog_read path method =
    one_of ("/api/site/catalog/v2" ∷ "/api/site/health/v2" ∷ []) path && one_of read_methods method

unfoldable pub http_route_policy : String → String → RoutePolicy
unfolding prefix_policy exact_policy
http_route_policy path method =
    if is_metrics_read path method
    then metrics_policy
    else if is_session_route path method
    then public_policy
    else if is_site_catalog_read path method
    then site_catalog_policy
    else prefix_policy prefix_policies path (exact_policy path method)

unfoldable pub route_policy_for : String → String → String → RoutePolicy
unfolding http_route_policy within upper
route_policy_for path method kind =
    if kind == "websocket"
    then if within path "/ws" then websocket_policy else review_policy
    else if kind == "http"
    then http_route_policy path (upper method)
    else review_policy
