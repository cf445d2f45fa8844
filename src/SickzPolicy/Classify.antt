-- ===== src/SickzPolicy/Classify.antt =====
-- nabla/api/sickz_policy.py: the classification of one service. How the service is found in the
-- catalog and its app at TrueNAS are inputs.
use fastapi_sample.Prelude.{
  String, ℕ, Bool, true, false, not, ◌&&◌, ◌||◌, ◌==◌, List, [], ◌∷◌, any, Option, none, some, leb,
  if◌then◌else◌, strip, upper,
}
use fastapi_sample.SickzPolicy.Access.{
  Status, ok, warn, fail, AccessEvidence, HttpEvidence, TunnelEvidence, access_policy_result,
  tunnel_policy_result,
}

-- What is read of a catalog entry.
pub record Service : Type 0 where
  pub external : Bool
  pub tunnel_secure : Option Bool
  pub access_required : Bool

-- A check, with the statuses of its aliases in their order.
pub record Check : Type 0 where
  pub reachable : Bool
  pub tls_trusted : Option Bool
  pub http_status : Option ℕ
  pub alias_statuses : List (Option ℕ)

-- What the observers of Cloudflare found for the hostname; an error is one that is set.
pub record Observation : Type 0 where
  pub tunnel : Option TunnelEvidence
  pub access : Option AccessEvidence
  pub http : HttpEvidence
  pub observer_configured : Bool
  pub tunnel_observer_error : Bool
  pub access_observer_error : Bool

unfoldable pub first_status : List (Option ℕ) → Option ℕ
first_status [] = none
first_status (none ∷ rest) = first_status rest
first_status (some n ∷ rest) = some n

unfoldable pub observed_http_status : Check → Option ℕ
observed_http_status check = elim check.http_status [
  | some n ↦ some n
  | none ↦ first_status check.alias_statuses
]

abbrev pub is_set {ℓ} : {A : Type ℓ} → Option A → Bool
is_set none = false
is_set (some _) = true

abbrev pub is_untrusted : Option Bool → Bool
is_untrusted none = false
is_untrusted (some b) = not b

abbrev pub is_server_error : Option ℕ → Bool
is_server_error none = false
is_server_error (some n) = leb 500 n

abbrev pub is_fail : Status → Bool
is_fail fail = true
is_fail _ = false

abbrev pub is_warn : Status → Bool
is_warn warn = true
is_warn _ = false

unfoldable pub combine_policies : Status → Option Status → Status
combine_policies tunnel none = if is_fail tunnel then fail else tunnel
combine_policies tunnel (some access) =
    if is_fail tunnel
    then fail
    else if is_fail access
    then fail
    else if is_warn access || is_warn tunnel
    then warn
    else ok

-- `_secure_external_policy`
unfoldable pub secure_external_policy : Bool → Check → Observation → Status
secure_external_policy access_required check seen =
    if not check.reachable
    then fail
    else if is_untrusted check.tls_trusted
    then fail
    else if is_server_error (observed_http_status check)
    then fail
    else combine_policies
        (tunnel_policy_result seen.tunnel seen.observer_configured seen.tunnel_observer_error
          seen.http)
        (access_policy_result access_required seen.access seen.access_observer_error seen.http)

-- `_direct_external_policy`
unfoldable pub direct_external_policy : Check → Observation → Status
direct_external_policy check seen =
    if is_untrusted check.tls_trusted then fail else if is_set seen.tunnel then fail else warn

unfoldable pub internal_policy : Check → Observation → Status
internal_policy check seen =
    if is_set seen.tunnel
    then fail
    else if is_set seen.access
    then fail
    else if check.reachable
    then fail
    else ok

-- `_classify_service`
unfoldable pub classify_service : Service → Check → Observation → Status
classify_service service check seen =
    let declared : Status = elim service.tunnel_secure [
      | none ↦ warn
      | some secure ↦
          if secure
          then secure_external_policy service.access_required check seen
          else direct_external_policy check seen
    ] in
    if not service.external then internal_policy check seen else declared

-- The matched TrueNAS app, and whether the snapshot is reachable and stale.
pub record Runtime : Type 0 where
  pub app_state : Option String
  pub reachable : Bool
  pub stale : Bool

abbrev down_app_states : List String
down_app_states = "CRASHED" ∷ "DOWN" ∷ "ERROR" ∷ "FAILED" ∷ "STOPPED" ∷ []

-- `runtime_failed` of `_runtime_evidence`
unfoldable pub runtime_failed : Runtime → Bool
runtime_failed runtime = elim runtime.app_state [
  | none ↦ false
  | some state ↦
      any (λ s. s == upper (strip state)) down_app_states && runtime.reachable && not runtime.stale
]

-- `policy_status` and `security_policy_status` as `enrich_sickz_policy` writes them for one service.
unfoldable pub reconcile : Service → Check → Observation → Runtime → Status × Status
reconcile service check seen runtime =
    let security = classify_service service check seen in
    (if runtime_failed runtime then fail else security, security)
