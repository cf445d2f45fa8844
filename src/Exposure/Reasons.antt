-- ===== src/Exposure/Reasons.antt =====
-- nabla/api/homelab_exposure.py: the reasons of a mismatch, of a doubt, and of a risk.
use fastapi_sample.Prelude.{
  String, ℕ, Bool, true, false, not, ◌&&◌, ◌||◌, ◌==◌, List, [], ◌∷◌, ◌++◌, any, Option, none, some,
  eqb, if◌then◌else◌, ends_with,
}
use fastapi_sample.Exposure.Observed.{
  Urlsplit, normal_host, filled, text_of, hostname, origin_host_port, TunnelFacts, AccessFacts,
  is_access_public, ControlPlane, CloudflareExposureSnapshot, is_set,
}

-- What is read of a `HomelabService`.
pub record HomelabService : Type 0 where
  pub service_id : String
  pub external : Bool
  pub endpoint_enabled : Option Bool
  pub tunnel_url : Option String
  pub tunnel_secure : Option Bool
  pub cloudflare_access_required : Option Bool
  pub security_exception : Bool
  pub internal_host : Option String
  pub internal_port : Option ℕ

abbrev pub is_yes : Option Bool → Bool
is_yes (some true) = true
is_yes _ = false

abbrev pub is_no : Option Bool → Bool
is_no (some false) = true
is_no _ = false

unfoldable pub effective_cloudflare_access_required : HomelabService → Bool
effective_cloudflare_access_required s = elim s.cloudflare_access_required [
  | some required ↦ required
  | none ↦ s.external && is_yes s.tunnel_secure
]

-- A service that is offered outside.
abbrev pub is_offered : HomelabService → Bool
is_offered s = s.external && not (is_no s.endpoint_enabled)

pub data Reason : Type 0 where
  edge_unspecified observation_unconfigured status_unconfirmed local_configuration ingress_missing
        ingress_unexpected :
      Reason
  access_on_direct access_unconfigured access_unconfirmed access_missing access_without_policy
        access_public :
      Reason
  origin_mismatch : Reason
  direct_internal_name direct_exposure anonymous_exposure : Reason
  policy_unconfirmed policy_missing policy_unassigned : Reason
  token_unconfirmed token_missing token_disabled token_mismatch : Reason
  account_unconfigured control_unverified control_unavailable : Reason
  private_tunnel private_access : Reason

pub data EdgeMode : Type 0 where
  cloudflare direct unspecified : EdgeMode

unfoldable pub declared_edge_mode : HomelabService → EdgeMode
declared_edge_mode s =
    if is_yes s.tunnel_secure
    then cloudflare
    else if is_no s.tunnel_secure
    then direct
    else unspecified

unfoldable pub has_local_managed_tunnels : CloudflareExposureSnapshot → Bool
has_local_managed_tunnels s = any (λ t. text_of t.config_source == "local") s.tunnels

-- Reasons that are established, and reasons that are doubts.
pub record Findings : Type 0 where
  pub confirmed : List Reason
  pub unconfirmed : List Reason

abbrev pub no_findings : Findings
no_findings = record { confirmed = []; unconfirmed = [] }

abbrev pub confirm : Reason → Findings
confirm r = record { confirmed = r ∷ []; unconfirmed = [] }

abbrev pub doubt : Reason → Findings
doubt r = record { confirmed = []; unconfirmed = r ∷ [] }

abbrev pub is_there {ℓ} : {A : Type ℓ} → Option A → Bool
is_there none = false
is_there (some _) = true

unfoldable pub edge_reasons : EdgeMode → Option TunnelFacts → CloudflareExposureSnapshot → Findings
edge_reasons unspecified tunnel s = doubt edge_unspecified
edge_reasons cloudflare tunnel s =
    if not s.configured
    then doubt observation_unconfigured
    else if is_set s.tunnel_error || s.stale
    then doubt status_unconfirmed
    else if is_there tunnel
    then no_findings
    else if has_local_managed_tunnels s
    then doubt local_configuration
    else confirm ingress_missing
edge_reasons direct tunnel s = if is_there tunnel then confirm ingress_unexpected else no_findings

-- The part of `_access_reasons` that follows its test of the edge mode.
unfoldable pub observed_access_reasons : Option AccessFacts → CloudflareExposureSnapshot → Findings
observed_access_reasons access s =
    if not s.configured
    then doubt access_unconfigured
    else if is_set s.access_error || s.stale
    then doubt access_unconfirmed
    else elim access [
      | none ↦ confirm access_missing
      | some a ↦
          if eqb a.policy_count 0
          then confirm access_without_policy
          else if is_access_public a
          then confirm access_public
          else no_findings
    ]

unfoldable pub access_reasons :
    Bool → EdgeMode → Option AccessFacts → CloudflareExposureSnapshot → Findings
access_reasons false mode access s = no_findings
access_reasons true direct access s =
    let rest = observed_access_reasons access s in
    record { confirmed = access_on_direct ∷ rest.confirmed; unconfirmed = rest.unconfirmed }
access_reasons true _ access s = observed_access_reasons access s

-- `bool(port)`
abbrev filled_port : Option ℕ → Option ℕ
filled_port none = none
filled_port (some n) = if eqb n 0 then none else some n

unfoldable pub same_origin : Option String → Option ℕ → Option String → Option ℕ → Option Bool
same_origin (some h) (some p) (some host) (some port) = some (h == host && eqb p port)
same_origin _ _ _ _ = none

-- `cloudflare_origin_matches_topology`; it is none where the two cannot be compared.
unfoldable pub origin_matches : Urlsplit → HomelabService → Option TunnelFacts → Option Bool
origin_matches urlsplit s tunnel =
    let service : String = elim tunnel [ none ↦ "" | some t ↦ t.origin_service ] in
    let (host, port) = origin_host_port urlsplit service in
    same_origin (filled (normal_host (text_of s.internal_host))) (filled_port s.internal_port) host
      (filled_port port)

unfoldable pub declared_risk_reasons : Urlsplit → HomelabService → List Reason
declared_risk_reasons urlsplit s =
    let host = text_of (hostname urlsplit s.tunnel_url) in
    if not (is_offered s)
    then []
    else if is_no s.tunnel_secure
    then (if ends_with host ".int.albandrieu.com" then direct_internal_name else direct_exposure)
      ∷ []
    else if is_yes s.tunnel_secure && not (effective_cloudflare_access_required s)
    then anonymous_exposure ∷ []
    else []

abbrev is_zero : Option ℕ → Bool
is_zero none = false
is_zero (some n) = eqb n 0

unfoldable pub reusable_policy_risk_reasons : ControlPlane → Findings
reusable_policy_risk_reasons c =
    if is_set c.reusable_policy_error
    then doubt policy_unconfirmed
    else if is_zero c.reusable_policy_count
    then confirm policy_missing
    else if is_zero c.reusable_policy_app_count
    then confirm policy_unassigned
    else no_findings

unfoldable pub token_inventory : ControlPlane → List Reason
token_inventory c =
    if is_zero c.service_token_count
    then token_missing ∷ []
    else if is_zero c.service_token_enabled_count
    then token_disabled ∷ []
    else []

unfoldable pub service_token_risk_reasons : ControlPlane → Findings
service_token_risk_reasons c =
    if is_set c.service_token_error then doubt token_unconfirmed else record {
      confirmed =
          token_inventory c
          ++ (if is_no c.configured_service_token_present then token_mismatch ∷ [] else []);
      unconfirmed = [];
    }

unfoldable pub both_findings : Findings → Findings → Findings
both_findings a b = record {
  confirmed = a.confirmed ++ b.confirmed;
  unconfirmed = a.unconfirmed ++ b.unconfirmed;
}

unfoldable pub control_plane_risk_reasons : HomelabService → CloudflareExposureSnapshot → Findings
control_plane_risk_reasons s snapshot =
    if not s.external || not (effective_cloudflare_access_required s)
    then no_findings
    else if not snapshot.configured
    then confirm account_unconfigured
    else if snapshot.stale || is_set snapshot.access_error
    then doubt control_unverified
    else elim snapshot.access_control_plane [
      | none ↦ doubt control_unavailable
      | some c ↦ both_findings (reusable_policy_risk_reasons c) (service_token_risk_reasons c)
    ]

unfoldable pub unexpected_private_exposure_reasons :
    HomelabService → Option TunnelFacts → Option AccessFacts → List Reason
unexpected_private_exposure_reasons s tunnel access =
    if is_offered s
    then []
    else (if is_there tunnel then private_tunnel ∷ [] else [])
      ++ (if is_there access then private_access ∷ [] else [])
