-- ===== src/Exposure/Tests.antt =====
-- nabla/api/homelab_exposure.py: a protected service, and one that is exposed.
use fastapi_sample.Prelude.{
  ends_with, ◌≡◌, refl, Bool, true, false, [], ◌∷◌, Option, none, some, lower, strip, lstrip,
  rstrip,
}
use fastapi_sample.Prelude.Dict.{lookup, insert}
use fastapi_sample.SickzPolicy.Access.{AccessApplication, is_root_scope}
use fastapi_sample.Exposure.Observed.{
  default_port, Urlsplit, rstrip_dots, normal_host, filled, url_host, hostname, origin_host_port,
  TunnelObservation, TunnelFacts, tunnel_facts, add_ingress, add_tunnels, group_applications,
  is_public_policy, AccessFacts, policies_of, public_policies_of, is_public_at, access_facts,
  facts_of_groups, CloudflareExposureSnapshot,
}
use fastapi_sample.Exposure.Reasons.{
  HomelabService, effective_cloudflare_access_required, direct_internal_name, access_on_direct,
  access_missing, declared_edge_mode, edge_reasons, observed_access_reasons, access_reasons,
  same_origin, origin_matches, declared_risk_reasons, control_plane_risk_reasons,
  unexpected_private_exposure_reasons, reusable_policy_risk_reasons, service_token_risk_reasons,
  token_inventory, both_findings,
}
use fastapi_sample.Exposure.Rank.{rank, same_reason}
use fastapi_sample.Exposure.Service.{
  unique_from, no_risk, risk_state, Row, mismatches_of, incomplete_of, exposure_state,
  confirmed_risk, unconfirmed_risk, service_exposure,
}
use fastapi_sample.Exposure.Risk.{IsProtected, service_exposure-IsProtected}

abbrev urlsplit : Urlsplit
urlsplit s =
    some (record { scheme = "http"; hostname = some "App.int.albandrieu.com."; port = some none })

abbrev service : Option Bool → HomelabService
service secure = record {
  service_id = "app";
  external = true;
  endpoint_enabled = none;
  tunnel_url = some "https://app.albandrieu.com";
  tunnel_secure = secure;
  cloudflare_access_required = some true;
  security_exception = false;
  internal_host = some "app.int.albandrieu.com";
  internal_port = some 80;
}

abbrev tunnel : TunnelObservation
tunnel = record {
  name = "home";
  status = some "healthy";
  config_source = some "cloudflare";
  ingress =
      record {
        tunnel_name = "";
        hostname = "app.albandrieu.com";
        service = "http://app.int.albandrieu.com";
        status = none;
      }
      ∷ [];
}

abbrev application : AccessApplication
application = record {
  hostname = "app.albandrieu.com";
  path = "/";
  policies = record { label = "owner"; decision = some "allow"; includes_everyone = false } ∷ [];
}

abbrev snapshot : CloudflareExposureSnapshot
snapshot = record {
  configured = true;
  tunnels = tunnel ∷ [];
  access_applications = application ∷ [];
  tunnel_error = none;
  access_error = none;
  access_control_plane = some (record {
    reusable_policy_count = some 1;
    reusable_policy_app_count = some 1;
    reusable_policy_error = none;
    service_token_count = some 1;
    service_token_enabled_count = some 1;
    service_token_error = none;
    configured_service_token_present = some true;
  });
  stale = false;
}

abbrev row : Row
row = record {
  id = "app";
  url = "https://app.albandrieu.com";
  reachable = true;
  http_status = 302;
  health = "ok";
  exposure = none;
}

abbrev seen_tunnel : Option TunnelFacts
seen_tunnel = some (record {
  tunnel_name = "home";
  tunnel_status = some "healthy";
  config_source = some "cloudflare";
  origin_service = "http://app.int.albandrieu.com";
})

abbrev seen_access : Option AccessFacts
seen_access = some (record {
  application_count = 1;
  policy_count = 1;
  public_policy_count = 0;
  public_scope = none;
})

by_hostname : lookup "app.albandrieu.com" (add_tunnels (tunnel ∷ []) []) ≡ seen_tunnel
unfolding add_tunnels add_ingress tunnel_facts normal_host rstrip_dots lower insert lookup
by_hostname = refl

applications :
    lookup "app.albandrieu.com" (facts_of_groups (group_applications (application ∷ []) []))
    ≡ seen_access
unfolding facts_of_groups group_applications access_facts policies_of public_policies_of
    is_public_at is_public_policy is_root_scope normal_host rstrip_dots lower strip lstrip rstrip
    insert lookup
applications = refl

exposed :
    (service_exposure urlsplit (service (some false)) row none none snapshot).risk_reasons
    ≡ access_on_direct ∷ access_missing ∷ direct_internal_name ∷ []
unfolding service_exposure unexpected_private_exposure_reasons mismatches_of incomplete_of
    confirmed_risk unconfirmed_risk unique_from same_reason rank risk_state exposure_state
    declared_edge_mode effective_cloudflare_access_required edge_reasons access_reasons
    observed_access_reasons origin_matches same_origin origin_host_port filled normal_host
    rstrip_dots lower declared_risk_reasons hostname url_host ends_with control_plane_risk_reasons
    reusable_policy_risk_reasons service_token_risk_reasons token_inventory both_findings
exposed = refl

safe :
    (service_exposure urlsplit (service (some true)) row seen_tunnel seen_access snapshot).risk
    ≡ no_risk
unfolding default_port service_exposure unexpected_private_exposure_reasons mismatches_of
    incomplete_of confirmed_risk unconfirmed_risk unique_from same_reason rank risk_state
    exposure_state declared_edge_mode effective_cloudflare_access_required edge_reasons
    access_reasons observed_access_reasons origin_matches same_origin origin_host_port filled
    normal_host rstrip_dots lower declared_risk_reasons hostname url_host ends_with
    control_plane_risk_reasons reusable_policy_risk_reasons service_token_risk_reasons
    token_inventory both_findings
safe = refl

service_exposure-IsProtected_example :
    IsProtected urlsplit (service (some true)) seen_tunnel seen_access snapshot
service_exposure-IsProtected_example =
    service_exposure-IsProtected urlsplit (service (some true)) row seen_tunnel seen_access snapshot
      refl safe
