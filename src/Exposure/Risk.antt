-- ===== src/Exposure/Risk.antt =====
-- nabla/api/homelab_exposure.py: what a service without risk shows.
use fastapi_sample.Prelude.{
  ◌≡◌, ◌≢◌, refl, ◌⊎◌, inl, inr, true, false, ◌||◌, List, [], ◌∷◌, ◌++◌, Option, none, some,
  Option-cases, Bool-cases, arith, if◌then◌else◌,
}
use fastapi_sample.Exposure.Observed.{
  Urlsplit, TunnelFacts, AccessFacts, is_access_public, CloudflareExposureSnapshot, is_set,
}
use fastapi_sample.Exposure.Reasons.{
  HomelabService, origin_mismatch, is_no, is_offered, is_there, Reason, cloudflare, unspecified,
  declared_edge_mode, effective_cloudflare_access_required, edge_reasons, observed_access_reasons,
  access_reasons, origin_matches, declared_risk_reasons, control_plane_risk_reasons,
}
use fastapi_sample.Exposure.Service.{
  unique_from, unique_reasons, is_nonempty, no_risk, risk_state, Row, mismatches_of, incomplete_of,
  confirmed_risk, unconfirmed_risk, service_exposure,
}

is_nonempty-append :
    (xs ys : List Reason) → is_nonempty (xs ++ ys) ≡ (is_nonempty xs || is_nonempty ys)
is_nonempty-append [] ys = refl
is_nonempty-append (x ∷ xs) ys = refl

is_nonempty-unique_reasons : (xs : List Reason) → is_nonempty (unique_reasons xs) ≡ is_nonempty xs
unfolding unique_from
is_nonempty-unique_reasons [] = refl
is_nonempty-unique_reasons (x ∷ xs) = refl

edge_reasons-quiet :
    (tunnel : Option TunnelFacts) (s : CloudflareExposureSnapshot)
    → is_nonempty (edge_reasons cloudflare tunnel s).confirmed ≡ false
    → is_nonempty (edge_reasons cloudflare tunnel s).unconfirmed ≡ false
    → (s.configured ≡ true)
      × (is_set s.tunnel_error ≡ false)
      × (s.stale ≡ false)
      × (is_there tunnel ≡ true)
unfolding edge_reasons
edge_reasons-quiet tunnel s h k = ground arith

access_reasons-quiet :
    (access : Option AccessFacts) (s : CloudflareExposureSnapshot)
    → is_nonempty (access_reasons true cloudflare access s).confirmed ≡ false
    → is_nonempty (access_reasons true cloudflare access s).unconfirmed ≡ false
    → (is_set s.access_error ≡ false)
      × ((a : AccessFacts) × (access ≡ some a)
          × (a.policy_count ≢ 0)
          × (is_access_public a ≡ false))
unfolding access_reasons observed_access_reasons
access_reasons-quiet none s h k = absurd (ground arith)
access_reasons-quiet (some a) s h k = (ground arith, (a, refl, λ e. ground arith, ground arith))

-- What the absence of a risk shows of a service that is offered.
pub record IsProtected (urlsplit : Urlsplit) (s : HomelabService) (tunnel : Option TunnelFacts)
    (access : Option AccessFacts) (snapshot : CloudflareExposureSnapshot) : Type 0 where
  pub through_tunnel : s.tunnel_secure ≡ some true
  pub requires_access : effective_cloudflare_access_required s ≡ true
  pub is_configured : snapshot.configured ≡ true
  pub is_current : snapshot.stale ≡ false
  pub has_tunnels : is_set snapshot.tunnel_error ≡ false
  pub has_access : is_set snapshot.access_error ≡ false
  pub sees_tunnel : is_there tunnel ≡ true
  pub facts : AccessFacts
  pub sees_access : access ≡ some facts
  pub has_policies : facts.policy_count ≢ 0
  pub is_private : is_access_public facts ≡ false
  pub origin_agrees : is_no (origin_matches urlsplit s tunnel) ≡ false

declared_edge_mode-cases :
    (s : HomelabService)
    → ((s.tunnel_secure ≡ some true) × (declared_edge_mode s ≡ cloudflare))
      ⊎ ((is_no s.tunnel_secure ≡ true) ⊎ (declared_edge_mode s ≡ unspecified))
unfolding declared_edge_mode
declared_edge_mode-cases s = elim (Option-cases s.tunnel_secure) [
  | inl missing ↦ inr (inr (ground arith))
  | inr (b, is) ↦ elim (Bool-cases b) [
    | inl secure ↦ inl (ground arith, ground arith)
    | inr plain ↦ inr (inl (ground arith))
  ]
]

declared_risk_reasons-direct :
    (urlsplit : Urlsplit) (s : HomelabService)
    → is_offered s ≡ true
    → is_no s.tunnel_secure ≡ true
    → is_nonempty (declared_risk_reasons urlsplit s) ≡ true
unfolding declared_risk_reasons
declared_risk_reasons-direct urlsplit s offered plain = ground arith

declared_risk_reasons-anonymous :
    (urlsplit : Urlsplit) (s : HomelabService)
    → is_offered s ≡ true
    → s.tunnel_secure ≡ some true
    → is_nonempty (declared_risk_reasons urlsplit s) ≡ false
    → effective_cloudflare_access_required s ≡ true
unfolding declared_risk_reasons
declared_risk_reasons-anonymous urlsplit s offered secure quiet = ground arith

-- The four groups of reasons that are empty where there is no risk.
record IsQuiet (urlsplit : Urlsplit) (s : HomelabService) (tunnel : Option TunnelFacts)
    (access : Option AccessFacts) (snapshot : CloudflareExposureSnapshot) : Type 0 where
  mismatches : is_nonempty (mismatches_of urlsplit s tunnel access snapshot) ≡ false
  doubts : is_nonempty (incomplete_of s tunnel access snapshot) ≡ false
  declared : is_nonempty (declared_risk_reasons urlsplit s) ≡ false

service_exposure-IsQuiet :
    (urlsplit : Urlsplit) (s : HomelabService) (row : Row) (tunnel : Option TunnelFacts)
    (access : Option AccessFacts) (snapshot : CloudflareExposureSnapshot)
    → is_offered s ≡ true
    → (service_exposure urlsplit s row tunnel access snapshot).risk ≡ no_risk
    → IsQuiet urlsplit s tunnel access snapshot
unfolding service_exposure risk_state confirmed_risk unconfirmed_risk
service_exposure-IsQuiet urlsplit s row tunnel access snapshot offered quiet =
    let ms = mismatches_of urlsplit s tunnel access snapshot in
    let ds = declared_risk_reasons urlsplit s in
    let cs = (control_plane_risk_reasons s snapshot).confirmed in
    let is = incomplete_of s tunnel access snapshot in
    let us = (control_plane_risk_reasons s snapshot).unconfirmed in
    let a = is_nonempty-unique_reasons (ms ++ ds ++ cs) in
    let b = is_nonempty-unique_reasons (is ++ us) in
    let c = is_nonempty-append (ms ++ ds) cs in
    let d = is_nonempty-append ms ds in
    let e = is_nonempty-append is us in
    record {
      mismatches = ground (arith, a, b, c, d, e);
      doubts = ground (arith, a, b, c, d, e);
      declared = ground (arith, a, b, c, d, e);
    }

unspecified-doubts :
    (s : HomelabService) (tunnel : Option TunnelFacts) (access : Option AccessFacts)
    (snapshot : CloudflareExposureSnapshot)
    → declared_edge_mode s ≡ unspecified
    → is_nonempty (incomplete_of s tunnel access snapshot) ≡ true
unfolding incomplete_of edge_reasons
unspecified-doubts s tunnel access snapshot mode = ground arith

-- An offered service is shown without risk only if it is declared behind a Tunnel and behind
-- Access, both are observed now without error, the Access applications have policies and none of
-- them is public, and the origin of the Tunnel is not another one than the topology's.
pub service_exposure-IsProtected :
    (urlsplit : Urlsplit) (s : HomelabService) (row : Row) (tunnel : Option TunnelFacts)
    (access : Option AccessFacts) (snapshot : CloudflareExposureSnapshot)
    → is_offered s ≡ true
    → (service_exposure urlsplit s row tunnel access snapshot).risk ≡ no_risk
    → IsProtected urlsplit s tunnel access snapshot
unfolding mismatches_of incomplete_of
service_exposure-IsProtected urlsplit s row tunnel access snapshot offered quiet =
    let q = service_exposure-IsQuiet urlsplit s row tunnel access snapshot offered quiet in
    elim (declared_edge_mode-cases s) [
      | inr other ↦ absurd (elim other [
        | inl plain ↦
            ground (arith, q.declared, declared_risk_reasons-direct urlsplit s offered plain)
        | inr mode ↦ ground (arith, q.doubts, unspecified-doubts s tunnel access snapshot mode)
      ])
      | inl (secure, mode) ↦
          let required = declared_risk_reasons-anonymous urlsplit s offered secure q.declared in
          let e = edge_reasons cloudflare tunnel snapshot in
          let a = access_reasons true cloudflare access snapshot in
          let o : List Reason =
            if is_no (origin_matches urlsplit s tunnel) then origin_mismatch ∷ [] else [] in
          let m : is_nonempty (e.confirmed ++ a.confirmed ++ o) ≡ false =
            let h = q.mismatches in rw (mode, required) at h in
          let n : is_nonempty (e.unconfirmed ++ a.unconfirmed) ≡ false =
            let h = q.doubts in rw (mode, required) at h in
          let u = is_nonempty-append (e.confirmed ++ a.confirmed) o in
          let v = is_nonempty-append e.confirmed a.confirmed in
          let w = is_nonempty-append e.unconfirmed a.unconfirmed in
          let edge =
            edge_reasons-quiet tunnel snapshot (ground (arith, m, u)) (ground (arith, n, w)) in
          let (error, facts) =
            access_reasons-quiet access snapshot (ground (arith, m, u, v)) (ground (arith, n, w)) in
          record {
            through_tunnel = secure;
            requires_access = required;
            is_configured = edge.0;
            is_current = edge.2;
            has_tunnels = edge.1;
            has_access = error;
            sees_tunnel = edge.3;
            facts = facts.0;
            sees_access = facts.1;
            has_policies = facts.2;
            is_private = facts.3;
            origin_agrees = ground (arith, m, u, v);
          }
    ]
