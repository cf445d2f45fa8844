-- ===== src/Exposure/Rows.antt =====
-- nabla/api/homelab_exposure.py: the reasons of a risk are listed once, and the health of the rows
-- is left as it is.
use fastapi_sample.Prelude.{
  String, ℕ, ◌≤◌, ◌≡◌, refl, Bool, true, List, [], ◌∷◌, ◌++◌, any, count, map, Option, none, some,
  Option-cases, Bool-cases, arith,
}
use fastapi_sample.Prelude.Dict.{lookup}
use fastapi_sample.Exposure.Observed.{
  Urlsplit, TunnelFacts, tunnels_by_hostname, AccessFacts, access_by_hostname,
  CloudflareExposureSnapshot,
}
use fastapi_sample.Exposure.Reasons.{
  HomelabService, is_offered, Reason, unexpected_private_exposure_reasons,
}
use fastapi_sample.Exposure.Rank.{rank, same_reason}
use fastapi_sample.Exposure.Service.{
  unique_from, Row, with_exposure, confirmed_risk, unconfirmed_risk, service_exposure, enrich_row,
  enrich_rows, services_by_id, enrich_service_exposure,
}

abbrev pub occurrences : Reason → List Reason → ℕ
occurrences x rs = count (λ r. same_reason r x) rs

abbrev is_seen : Reason → List Reason → Bool
is_seen x seen = any (λ s. same_reason s x) seen

is_seen-same :
    (x y : Reason) (seen : List Reason) → same_reason x y ≡ true → is_seen x seen ≡ is_seen y seen
unfolding same_reason
is_seen-same x y [] h = refl
is_seen-same x y (s ∷ ss) h = ground (arith, is_seen-same x y ss h)

unique_from-seen :
    (x : Reason) (seen rs : List Reason)
    → is_seen x seen ≡ true
    → occurrences x (unique_from seen rs) ≡ 0
unfolding unique_from
unique_from-seen x seen [] h = refl
unique_from-seen x seen (r ∷ rs) h =
    ground
      (arith, is_seen-same r x seen, unique_from-seen x seen rs h, unique_from-seen x (r ∷ seen) rs)

unique_from-once : (x : Reason) (seen rs : List Reason) → occurrences x (unique_from seen rs) ≤ 1
unfolding unique_from
unique_from-once x seen [] = omega arith
unique_from-once x seen (r ∷ rs) = ground (
  arith,
  unique_from-once x seen rs,
  unique_from-once x (r ∷ seen) rs,
  unique_from-seen x (r ∷ seen) rs,
)

private-once :
    (x : Reason) (s : HomelabService) (tunnel : Option TunnelFacts) (access : Option AccessFacts)
    → occurrences x (unexpected_private_exposure_reasons s tunnel access) ≤ 1
unfolding unexpected_private_exposure_reasons same_reason rank
private-once x s none none = ground arith
private-once x s (some t) none = ground arith
private-once x s none (some a) = ground arith
private-once x s (some t) (some a) = ground arith

-- No reason is listed twice among the risks of a service.
pub service_exposure-once :
    (urlsplit : Urlsplit) (s : HomelabService) (row : Row) (tunnel : Option TunnelFacts)
    (access : Option AccessFacts) (snapshot : CloudflareExposureSnapshot) (x : Reason)
    → occurrences x (service_exposure urlsplit s row tunnel access snapshot).risk_reasons ≤ 1
unfolding service_exposure
service_exposure-once urlsplit s row tunnel access snapshot x = ground (
  arith,
  private-once x s tunnel access,
  unique_from-once x [] (
      confirmed_risk urlsplit s tunnel access snapshot
      ++ unconfirmed_risk s tunnel access snapshot),
  Bool-cases (is_offered s),
)

-- All of a row but its exposure.
abbrev pub health_part : Row → Row
health_part row = with_exposure none row

enrich_row-health :
    (urlsplit : Urlsplit) (services : List (String × HomelabService))
    (tunnels : List (String × TunnelFacts)) (access : List (String × AccessFacts))
    (snapshot : CloudflareExposureSnapshot) (row : Row)
    → health_part (enrich_row urlsplit services tunnels access snapshot row) ≡ health_part row
unfolding enrich_row
enrich_row-health urlsplit services tunnels access snapshot row =
    ground (arith, Option-cases (lookup row.id services))

enrich_rows-health :
    (urlsplit : Urlsplit) (services : List (String × HomelabService))
    (tunnels : List (String × TunnelFacts)) (access : List (String × AccessFacts))
    (snapshot : CloudflareExposureSnapshot) (rows : List Row)
    → map health_part (enrich_rows urlsplit services tunnels access snapshot rows)
      ≡ map health_part rows
unfolding enrich_rows
enrich_rows-health urlsplit services tunnels access snapshot [] = refl
enrich_rows-health urlsplit services tunnels access snapshot (row ∷ rows) =
    rw
      (
        enrich_row-health urlsplit services tunnels access snapshot row,
        enrich_rows-health urlsplit services tunnels access snapshot rows,
      )
      refl

-- The enrichment keeps the rows, their order and their health: only the exposure changes.
pub enrich_service_exposure-health :
    (urlsplit : Urlsplit) (rows : List Row) (services : List HomelabService)
    (snapshot : CloudflareExposureSnapshot)
    → map health_part (enrich_service_exposure urlsplit rows services snapshot)
      ≡ map health_part rows
unfolding enrich_service_exposure
enrich_service_exposure-health urlsplit rows services snapshot =
    enrich_rows-health urlsplit (services_by_id services []) (tunnels_by_hostname snapshot.tunnels)
      (access_by_hostname snapshot.access_applications) snapshot rows
