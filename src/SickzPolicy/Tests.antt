-- ===== src/SickzPolicy/Tests.antt =====
-- nabla/api/sickz_policy.py: the classification of concrete services.
use fastapi_sample.Prelude.{◌≡◌, refl, Bool, true, false, none, some, [], ◌∷◌, Memᴰ, lower, upper}
use fastapi_sample.SickzPolicy.Access.{
  ok, AccessPolicy, AccessApplication, HttpEvidence, TunnelEvidence, is_root_scope, is_public,
  host_policies, path_policies, count_policies, scope_from, evidence_from, access_by_hostname,
  observed_access_policy_exception, service_auth_access_result, observed_access,
  access_policy_result, is_down, tunnel_policy_result,
}
use fastapi_sample.SickzPolicy.Classify.{
  Service, Check, Observation, first_status, observed_http_status, combine_policies,
  secure_external_policy, classify_service,
}
use fastapi_sample.SickzPolicy.Guarantees.{classify_service-access}

abbrev quiet : HttpEvidence
quiet = record {
  default_deny = false;
  access_signal = true;
  service_auth_attempted = false;
  service_auth_passed = false;
  edge_seen = true;
}

abbrev staff : AccessPolicy
staff = record { label = "staff"; decision = some "allow"; includes_everyone = false }

abbrev grafana : AccessApplication
grafana = record { hostname = "grafana.example"; path = "/"; policies = staff ∷ [] }

abbrev tunnel : TunnelEvidence
tunnel = record { status = some "healthy" }

abbrev seen : Observation
seen = record {
  tunnel = some tunnel;
  access = access_by_hostname (grafana ∷ []) "grafana.example";
  http = quiet;
  observer_configured = true;
  tunnel_observer_error = false;
  access_observer_error = false;
}

abbrev unseen : Observation
unseen = record {
  tunnel = none;
  access = none;
  http = quiet;
  observer_configured = true;
  tunnel_observer_error = false;
  access_observer_error = false;
}

abbrev check : Bool → Check
check reachable = record {
  reachable = reachable;
  tls_trusted = some true;
  http_status = none;
  alias_statuses = none ∷ some 200 ∷ [];
}

abbrev outside : Service
outside = record { external = true; tunnel_secure = some true; access_required = true }

abbrev inside : Service
inside = record { external = false; tunnel_secure = none; access_required = false }

outside-ok : classify_service outside (check true) seen ≡ ok
unfolding is_root_scope is_public host_policies path_policies count_policies scope_from
    evidence_from access_by_hostname observed_access_policy_exception service_auth_access_result
    observed_access access_policy_result is_down tunnel_policy_result first_status
    observed_http_status combine_policies secure_external_policy classify_service lower upper
outside-ok = refl

classify_service-access_example : is_public staff ≡ false
classify_service-access_example =
    classify_service-access outside (check true) seen (grafana ∷ []) "grafana.example" grafana staff
      refl refl refl outside-ok (Memᴰ.head refl) refl (Memᴰ.head refl)
