-- ===== src/Exposure/Service.antt =====
-- nabla/api/homelab_exposure.py: the exposure of one service, and of the rows of the health board.
use fastapi_sample.Prelude.{
  String, ℕ, Bool, true, false, not, ◌||◌, List, [], ◌∷◌, ◌++◌, any, Option, none, some, eqb,
  if◌then◌else◌,
}
use fastapi_sample.Prelude.Dict.{lookup, insert}
use fastapi_sample.Exposure.Observed.{
  Urlsplit, text_of, hostname, TunnelFacts, tunnels_by_hostname, AccessFacts, access_by_hostname,
  CloudflareExposureSnapshot, status_confirmed, has_provider_warning,
}
use fastapi_sample.Exposure.Reasons.{
  HomelabService, is_offered, Reason, origin_mismatch, EdgeMode, declared_edge_mode,
  effective_cloudflare_access_required, edge_reasons, access_reasons, is_no, origin_matches,
  declared_risk_reasons, control_plane_risk_reasons, unexpected_private_exposure_reasons,
}
use fastapi_sample.Exposure.Rank.{same_reason}

-- `_unique_reasons` of the concatenated groups: the first place of each reason.
unfoldable pub unique_from : List Reason → List Reason → List Reason
unique_from seen [] = []
unique_from seen (r ∷ rs) =
    let skip = unique_from seen rs in
    let kept = unique_from (r ∷ seen) rs in
    if any (λ s. same_reason s r) seen then skip else r ∷ kept

abbrev pub unique_reasons : List Reason → List Reason
unique_reasons reasons = unique_from [] reasons

pub data ExposureState : Type 0 where
  mismatch incomplete match not_applicable : ExposureState

pub data RiskState : Type 0 where
  at_risk unknown no_risk : RiskState

abbrev pub is_nonempty {ℓ} : {A : Type ℓ} → List A → Bool
is_nonempty [] = false
is_nonempty (x ∷ xs) = true

unfoldable pub risk_state : List Reason → List Reason → RiskState
risk_state confirmed unconfirmed =
    if is_nonempty confirmed then at_risk else if is_nonempty unconfirmed then unknown else no_risk

-- The verdict on a service, with the declared mode and what was observed of its edge; the fields
-- that are copied from the catalog and from Cloudflare are left out.
pub record Exposure : Type 0 where
  pub state : ExposureState
  pub reasons : List Reason
  pub risk : RiskState
  pub risk_reasons : List Reason
  pub edge_mode : EdgeMode
  pub public_https_reachable : Option Bool
  pub tunnel : Option TunnelFacts
  pub access : Option AccessFacts
  pub origin_matches_topology : Option Bool
  pub provider_status_confirmed : Option Bool
  pub provider_warning : Bool

-- A row of the board: what the enrichment reads, and the health that it leaves alone.
pub record Row : Type 0 where
  pub id : String
  pub url : String
  pub reachable : Bool
  pub http_status : ℕ
  pub health : String
  pub exposure : Option Exposure

unfoldable pub public_https_reachable : Row → Option Bool
public_https_reachable row =
    if not (eqb row.http_status 0) || row.reachable then some row.reachable else none

unfoldable pub mismatches_of :
    Urlsplit
    → HomelabService
    → Option TunnelFacts
    → Option AccessFacts
    → CloudflareExposureSnapshot
    → List Reason
mismatches_of urlsplit s tunnel access snapshot =
    let mode = declared_edge_mode s in
    let required = effective_cloudflare_access_required s in
    (edge_reasons mode tunnel snapshot).confirmed
    ++ (access_reasons required mode access snapshot).confirmed
    ++ (if is_no (origin_matches urlsplit s tunnel) then origin_mismatch ∷ [] else [])

unfoldable pub incomplete_of :
    HomelabService
    → Option TunnelFacts
    → Option AccessFacts
    → CloudflareExposureSnapshot
    → List Reason
incomplete_of s tunnel access snapshot =
    let mode = declared_edge_mode s in
    let required = effective_cloudflare_access_required s in
    (edge_reasons mode tunnel snapshot).unconfirmed
    ++ (access_reasons required mode access snapshot).unconfirmed

unfoldable pub exposure_state : List Reason → List Reason → ExposureState
exposure_state mismatches doubts =
    if is_nonempty mismatches then mismatch else if is_nonempty doubts then incomplete else match

-- The groups that become the confirmed and the unconfirmed risk.
unfoldable pub confirmed_risk :
    Urlsplit
    → HomelabService
    → Option TunnelFacts
    → Option AccessFacts
    → CloudflareExposureSnapshot
    → List Reason
confirmed_risk urlsplit s tunnel access snapshot = unique_reasons (
    mismatches_of urlsplit s tunnel access snapshot
    ++ declared_risk_reasons urlsplit s
    ++ (control_plane_risk_reasons s snapshot).confirmed)

unfoldable pub unconfirmed_risk :
    HomelabService
    → Option TunnelFacts
    → Option AccessFacts
    → CloudflareExposureSnapshot
    → List Reason
unconfirmed_risk s tunnel access snapshot =
    unique_reasons (
      incomplete_of s tunnel access snapshot ++ (control_plane_risk_reasons s snapshot).unconfirmed)

unfoldable pub service_exposure :
    Urlsplit
    → HomelabService
    → Row
    → Option TunnelFacts
    → Option AccessFacts
    → CloudflareExposureSnapshot
    → Exposure
service_exposure urlsplit s row tunnel access snapshot =
    let private = unexpected_private_exposure_reasons s tunnel access in
    let mismatches = mismatches_of urlsplit s tunnel access snapshot in
    let doubts = incomplete_of s tunnel access snapshot in
    let confirmed = confirmed_risk urlsplit s tunnel access snapshot in
    let unconfirmed = unconfirmed_risk s tunnel access snapshot in
    if is_offered s
    then record {
      state = exposure_state mismatches doubts;
      reasons = mismatches ++ doubts;
      risk = risk_state confirmed unconfirmed;
      risk_reasons = unique_reasons (confirmed ++ unconfirmed);
      edge_mode = declared_edge_mode s;
      public_https_reachable = public_https_reachable row;
      tunnel = tunnel;
      access = access;
      origin_matches_topology = origin_matches urlsplit s tunnel;
      provider_status_confirmed = some (status_confirmed snapshot);
      provider_warning = has_provider_warning snapshot;
    }
    else record {
      state = if is_nonempty private then mismatch else not_applicable;
      reasons = private;
      risk = if is_nonempty private then at_risk else no_risk;
      risk_reasons = private;
      edge_mode = declared_edge_mode s;
      public_https_reachable = public_https_reachable row;
      tunnel = tunnel;
      access = access;
      origin_matches_topology = origin_matches urlsplit s tunnel;
      provider_status_confirmed = none;
      provider_warning = false;
    }

unfoldable pub services_by_id :
    List HomelabService → List (String × HomelabService) → List (String × HomelabService)
services_by_id [] table = table
services_by_id (s ∷ ss) table = services_by_id ss (insert s.service_id s table)

abbrev pub with_exposure : Option Exposure → Row → Row
with_exposure exposure row = record {
  id = row.id;
  url = row.url;
  reachable = row.reachable;
  http_status = row.http_status;
  health = row.health;
  exposure = exposure;
}

-- The body of the loop of `enrich_service_exposure`.
unfoldable pub enrich_row :
    Urlsplit
    → List (String × HomelabService)
    → List (String × TunnelFacts)
    → List (String × AccessFacts)
    → CloudflareExposureSnapshot
    → Row
    → Row
enrich_row urlsplit services tunnels access snapshot row =
    let host = text_of (hostname urlsplit (some row.url)) in
    elim (lookup row.id services) [
      | none ↦ row
      | some s ↦
          with_exposure
            (some
              (service_exposure urlsplit s row (lookup host tunnels) (lookup host access) snapshot))
            row
    ]

unfoldable pub enrich_rows :
    Urlsplit
    → List (String × HomelabService)
    → List (String × TunnelFacts)
    → List (String × AccessFacts)
    → CloudflareExposureSnapshot
    → List Row
    → List Row
enrich_rows urlsplit services tunnels access snapshot [] = []
enrich_rows urlsplit services tunnels access snapshot (row ∷ rows) =
    enrich_row urlsplit services tunnels access snapshot row
    ∷ enrich_rows urlsplit services tunnels access snapshot rows

unfoldable pub enrich_service_exposure :
    Urlsplit → List Row → List HomelabService → CloudflareExposureSnapshot → List Row
enrich_service_exposure urlsplit rows services snapshot =
    enrich_rows urlsplit (services_by_id services []) (tunnels_by_hostname snapshot.tunnels)
      (access_by_hostname snapshot.access_applications) snapshot rows
