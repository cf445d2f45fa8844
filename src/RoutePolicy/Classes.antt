-- ===== src/RoutePolicy/Classes.antt =====
-- nabla/route_policy.py: what the classification of a route guarantees.
use fastapi_sample.Prelude.{String, ◌≡◌, ◌⊎◌, ◌↔◌, ◌&&◌, ◌||◌, ◌==◌, arith, upper, if-All}
use fastapi_sample.RoutePolicy.{
  public_candidate, review, no_key, RoutePolicy, public_policy, review_policy, diagnostic_policy,
  site_catalog_policy, owner_policy, admin_policy, internal_policy, metrics_policy, mcp_policy,
  websocket_policy, one_of, public_routes, diagnostic_exact, within, read_methods, prefix_policies,
  exact_policy, prefix_policy, route_policy_for, is_metrics_read, is_session_route,
  is_site_catalog_read,
}

-- A route is classed without a credential exactly when it is public or under review.
abbrev pub IsConsistent : RoutePolicy → Type 0
IsConsistent p =
    (p.credential ≡ no_key) ↔ ((p.visibility ≡ public_candidate) ⊎ (p.visibility ≡ review))

pub prefix_policy-All :
    (P : RoutePolicy → Type 0) (path : String) (rest : RoutePolicy)
    → P owner_policy
    → P admin_policy
    → P mcp_policy
    → P internal_policy
    → P rest
    → P (prefix_policy prefix_policies path rest)
unfolding prefix_policy
prefix_policy-All P path rest o a m i r = if-All P (within path "/private/ops") o (
    if-All P (within path "/a2a") o (
      if-All P (within path "/admin") a
        (if-All P (within path "/mcp") m (if-All P (within path "/metrics") i r))))

pub exact_policy-All :
    (P : RoutePolicy → Type 0) (path method : String)
    → P diagnostic_policy
    → P public_policy
    → P review_policy
    → P (exact_policy path method)
unfolding exact_policy
exact_policy-All P path method d p r =
    if-All P
      (one_of diagnostic_exact path
        || within path "/api/homelab"
        || within path "/api/health-board")
      d (if-All P (one_of read_methods method && one_of public_routes path) p r)

-- Every policy that a request can get is one of the ten that the module declares.
route_policy_for-All :
    (P : RoutePolicy → Type 0) (path method kind : String)
    → P public_policy
    → P review_policy
    → P diagnostic_policy
    → P site_catalog_policy
    → P owner_policy
    → P admin_policy
    → P internal_policy
    → P metrics_policy
    → P mcp_policy
    → P websocket_policy
    → P (route_policy_for path method kind)
unfolding route_policy_for
route_policy_for-All P path method kind p r d s o a i m c w =
    let verb = upper method in
    if-All P (kind == "websocket") (if-All P (within path "/ws") w r) (
      if-All P (kind == "http")
        (if-All P (is_metrics_read path verb) m (
          if-All P (is_session_route path verb) p (
            if-All P (is_site_catalog_read path verb) s
              (prefix_policy-All P path _ o a c i (exact_policy-All P path verb d p r)))))
        r)

-- No protected route is ever classed without a credential, and no open one with a credential.
pub route_policy_for-IsConsistent :
    (path method kind : String) → IsConsistent (route_policy_for path method kind)
route_policy_for-IsConsistent path method kind =
    route_policy_for-All IsConsistent path method kind (ground arith) (ground arith) (ground arith)
      (ground arith) (ground arith) (ground arith) (ground arith) (ground arith) (ground arith)
      (ground arith)
