-- ===== src/ComponentHealth/Tests.antt =====
-- nabla/api/component_health.py: the status of concrete components.
use fastapi_sample.Prelude.{◌≡◌, refl, true, some, List, [], ◌∷◌, String}
use fastapi_sample.Prelude.Dict.{lookup}
use fastapi_sample.ComponentHealth.{
  Component, degraded, DnsSnapshot, truenas_component, pfsense_unbound_component, component_of,
  any_core_fails, any_platform_degrades, critical_from, critical_infra_status, component_status,
}
use fastapi_sample.ComponentHealth.Reference.{status_of, component_status-status_of}

abbrev stale_dns : DnsSnapshot
stale_dns = record { configured = true; policy_state = some "fail"; stale = true }

abbrev components : List (String × Component)
components =
    ("truenas", truenas_component (some (record { state = some "ok"; tls_trusted = some true })))
    ∷ ("unbound", pfsense_unbound_component (some stale_dns))
    ∷ []

stale_degrades : component_status components ≡ degraded
unfolding component_status any_core_fails any_platform_degrades critical_from critical_infra_status
    component_of lookup truenas_component pfsense_unbound_component
stale_degrades = refl

component_status-status_of_example : component_status components ≡ status_of components
component_status-status_of_example = component_status-status_of components
