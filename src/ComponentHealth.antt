-- ===== src/ComponentHealth.antt =====
-- nabla/api/component_health.py: the status that the components' checks make together. A check is a
-- dictionary of which only the modelled fields are read; a missing field reads as None.
pub mod Reference
mod Tests
use fastapi_sample.Prelude.{
  String, Bool, true, false, not, ◌&&◌, ◌||◌, ◌==◌, List, [], ◌∷◌, any, Option, none, some,
  if◌then◌else◌,
}
use fastapi_sample.Prelude.Dict.{lookup}

pub record Component : Type 0 where
  pub reachable : Option Bool
  pub state : Option String
  pub skipped : Bool
  pub stale : Bool
  pub tls_trusted : Option Bool
  pub status_confirmed : Option Bool

abbrev pub empty_component : Component
empty_component = record {
  reachable = none;
  state = none;
  skipped = false;
  stale = false;
  tls_trusted = none;
  status_confirmed = none;
}

pub data HealthStatus : Type 0 where
  healthy degraded unhealthy : HealthStatus

abbrev pub core_component_keys : List String
core_component_keys = "postgres" ∷ "redis" ∷ "supabase" ∷ []

abbrev pub critical_infra_component_keys : List String
critical_infra_component_keys = "unbound" ∷ []

abbrev pub platform_component_keys : List String
platform_component_keys = "truenas" ∷ "cloudflare" ∷ "pfsense" ∷ []

-- `value is False`, `value is None` and `value in {...}`
abbrev pub is_false : Option Bool → Bool
is_false none = false
is_false (some b) = not b

abbrev pub is_none : Option Bool → Bool
is_none none = true
is_none (some b) = false

abbrev pub is_state : Option String → String → Bool
is_state none name = false
is_state (some s) name = s == name

-- The parts of the TrueNAS snapshot that the component is made of; `none` is a missing one.
pub record TruenasSnapshot : Type 0 where
  pub state : Option String
  pub tls_trusted : Option Bool

unfoldable pub truenas_component : Option TruenasSnapshot → Component
truenas_component none = record {
  reachable = none;
  state = none;
  skipped = true;
  stale = false;
  tls_trusted = none;
  status_confirmed = none;
}
truenas_component (some snapshot) =
    let given : String = elim snapshot.state [ none ↦ "" | some s ↦ s ] in
    let state : String = if given == "" then "unknown" else given in
    record {
      reachable = some (not (state == "fail"));
      state = some state;
      skipped = false;
      stale = false;
      tls_trusted = snapshot.tls_trusted;
      status_confirmed = none;
    }

pub record DnsSnapshot : Type 0 where
  pub configured : Bool
  pub policy_state : Option String
  pub stale : Bool

abbrev pub unbound : Option Bool → String → Bool → Bool → Component
unbound reachable state skipped stale = record {
  reachable = reachable;
  state = some state;
  skipped = skipped;
  stale = stale;
  tls_trusted = none;
  status_confirmed = none;
}

unfoldable pub pfsense_unbound_component : Option DnsSnapshot → Component
pfsense_unbound_component none = unbound none "unknown" true false
pfsense_unbound_component (some dns) =
    let given : String = elim dns.policy_state [ none ↦ "" | some s ↦ s ] in
    let state : String = if given == "" then "unknown" else given in
    if not dns.configured
    then unbound none state true dns.stale
    else if dns.stale
    then unbound none state false dns.stale
    else if state == "fail"
    then unbound (some false) state false dns.stale
    else if state == "ok" || state == "warn"
    then unbound (some true) state false dns.stale
    else unbound none state false dns.stale

-- The loop of `_critical_infra_status`, with the value of `degraded` so far.
unfoldable pub critical_from : List String → List (String × Component) → Bool → Option HealthStatus
critical_from [] components seen = if seen then some degraded else none
critical_from (key ∷ keys) components seen =
    let rest = critical_from keys components seen in
    let worse = critical_from keys components true in
    elim (lookup key components) [
      | none ↦ rest
      | some check ↦
          if check.skipped
          then rest
          else if check.stale
          then worse
          else if is_false check.reachable || is_state check.state "fail"
          then some unhealthy
          else if is_none check.reachable
              || is_state check.state "warn"
              || is_state check.state "unknown"
          then worse
          else rest
    ]

unfoldable pub critical_infra_status : List (String × Component) → Option HealthStatus
critical_infra_status components = critical_from critical_infra_component_keys components false

unfoldable pub component_of : String → List (String × Component) → Component
component_of key components = elim (lookup key components) [
  | none ↦ empty_component
  | some check ↦ check
]

-- The first loop of `component_status`: whether it returns.
unfoldable pub any_core_fails : List String → List (String × Component) → Bool
any_core_fails [] components = false
any_core_fails (key ∷ keys) components =
    let rest = any_core_fails keys components in
    let check = component_of key components in
    if check.skipped then rest else if is_false check.reachable then true else rest

-- The last loop: whether it returns.
unfoldable pub any_platform_degrades : List String → List (String × Component) → Bool
any_platform_degrades [] components = false
any_platform_degrades (key ∷ keys) components =
    let rest = any_platform_degrades keys components in
    let check = component_of key components in
    if check.skipped
    then rest
    else if (key == "cloudflare" || key == "pfsense") && is_false check.status_confirmed
    then rest
    else if is_false check.reachable
        || is_state check.state "warn"
        || check.stale
        || is_false check.tls_trusted
    then true
    else rest

unfoldable pub component_status : List (String × Component) → HealthStatus
component_status components =
    let critical = critical_infra_status components in
    let platform = any_platform_degrades platform_component_keys components in
    let last : HealthStatus = elim critical [ none ↦ healthy | some s ↦ s ] in
    let after_core : HealthStatus = if platform then degraded else last in
    let critical_fails : Bool = elim critical [
      | none ↦ false
      | some s ↦ elim s [ healthy ↦ false | degraded ↦ false | unhealthy ↦ true ]
    ] in
    if any_core_fails core_component_keys components
    then unhealthy
    else if critical_fails
    then unhealthy
    else after_core
