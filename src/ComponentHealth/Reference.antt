-- ===== src/ComponentHealth/Reference.antt =====
-- nabla/api/component_health.py: the loops and early returns against a description of the status.
use fastapi_sample.Prelude.{
  String, ◌≡◌, ◌≢◌, refl, Bool, true, false, not, ◌&&◌, ◌||◌, ◌==◌, List, [], ◌∷◌, any, Option,
  none, some, if◌then◌else◌, arith, Option-cases,
}
use fastapi_sample.Prelude.Dict.{lookup}
use fastapi_sample.ComponentHealth.{
  Component, HealthStatus, healthy, degraded, unhealthy, core_component_keys,
  platform_component_keys, is_false, is_none, is_state, DnsSnapshot, pfsense_unbound_component,
  critical_from, critical_infra_status, component_of, any_core_fails, any_platform_degrades,
  component_status,
}

-- A core component that is down, and a platform one that is not as it should be.
abbrev pub is_down : List (String × Component) → String → Bool
is_down components key =
    let check = component_of key components in not check.skipped && is_false check.reachable

abbrev pub is_impaired : List (String × Component) → String → Bool
is_impaired components key =
    let check = component_of key components in
    not check.skipped
    && not ((key == "cloudflare" || key == "pfsense") && is_false check.status_confirmed)
    && (is_false check.reachable
        || is_state check.state "warn"
        || check.stale
        || is_false check.tls_trusted)

-- The DNS resolver: current evidence of a failure, and evidence that is stale or not clear.
abbrev pub dns_fails : Component → Bool
dns_fails check =
    not check.skipped
    && not check.stale
    && (is_false check.reachable || is_state check.state "fail")

abbrev pub dns_unclear : Component → Bool
dns_unclear check =
    not check.skipped
    && (check.stale
        || is_none check.reachable
        || is_state check.state "warn"
        || is_state check.state "unknown")

abbrev pub if_present : (Component → Bool) → Option Component → Bool
if_present p none = false
if_present p (some check) = p check

unfoldable pub status_of : List (String × Component) → HealthStatus
status_of components =
    let dns = lookup "unbound" components in
    if any (is_down components) core_component_keys || if_present dns_fails dns
    then unhealthy
    else if any (is_impaired components) platform_component_keys || if_present dns_unclear dns
    then degraded
    else healthy

any_core_fails-is_down :
    (keys : List String) (components : List (String × Component))
    → any_core_fails keys components ≡ any (is_down components) keys
unfolding any_core_fails
any_core_fails-is_down [] components = refl
any_core_fails-is_down (key ∷ keys) components =
    ground (arith, any_core_fails-is_down keys components)

any_platform_degrades-is_impaired :
    (keys : List String) (components : List (String × Component))
    → any_platform_degrades keys components ≡ any (is_impaired components) keys
unfolding any_platform_degrades
any_platform_degrades-is_impaired [] components = refl
any_platform_degrades-is_impaired (key ∷ keys) components =
    ground (arith, any_platform_degrades-is_impaired keys components)

critical_infra_status-lem :
    (components : List (String × Component))
    → (let dns = lookup "unbound" components in
        critical_infra_status components ≡ (
          if if_present dns_fails dns
          then some unhealthy
          else if if_present dns_unclear dns
          then some degraded
          else none))
unfolding critical_infra_status critical_from
critical_infra_status-lem components = ground (arith, Option-cases (lookup "unbound" components))

-- The status is unhealthy exactly if a core component or, by current evidence, the DNS resolver is
-- down; otherwise degraded exactly if a platform component is impaired or the resolver's evidence
-- is stale or unclear; and otherwise healthy.
pub component_status-status_of :
    (components : List (String × Component)) → component_status components ≡ status_of components
unfolding component_status status_of
component_status-status_of components = ground (
  arith,
  any_core_fails-is_down core_component_keys components,
  any_platform_degrades-is_impaired platform_component_keys components,
  critical_infra_status-lem components,
)

stale_dns :
    (dns : DnsSnapshot)
    → dns.stale ≡ true
    → dns_fails (pfsense_unbound_component (some dns)) ≡ false
unfolding pfsense_unbound_component
stale_dns dns stale = ground arith

not_unhealthy : (b : Bool) → (if b then degraded else healthy) ≢ unhealthy
not_unhealthy true = ground arith
not_unhealthy false = ground arith

-- Stale evidence of the DNS resolver, whatever it says, never makes the whole unhealthy while the
-- core components are not down.
pub component_status-stale :
    (components : List (String × Component)) (dns : DnsSnapshot)
    → lookup "unbound" components ≡ some (pfsense_unbound_component (some dns))
    → dns.stale ≡ true
    → any (is_down components) core_component_keys ≡ false
    → component_status components ≢ unhealthy
unfolding status_of
component_status-stale components dns found stale core =
    rw (component_status-status_of components, status_of, core, found, stale_dns dns stale)
      (not_unhealthy _)
