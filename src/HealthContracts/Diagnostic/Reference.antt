-- ===== src/HealthContracts/Diagnostic/Reference.antt =====
-- nabla/api/health_contracts.py: the diagnostic's status in terms of the raw checks.
use fastapi_sample.Prelude.{
  String, ◌≡◌, refl, Bool, true, not, ◌&&◌, List, [], ◌∷◌, any, if◌then◌else◌, arith, eq_iff,
}
use fastapi_sample.Prelude.Dict.{lookup}
use fastapi_sample.HealthContracts.{is_false, is_required}
use fastapi_sample.HealthContracts.Diagnostic.{
  Evidence, timed_out_check, cloudflare_unconfirmed, normalize_optional_uncertainty, healthy,
  degraded, unhealthy, normalize_checks, fails_at, optional_failed, apply_diagnostic_status,
}

-- A confirmed failure of an optional check.
abbrev pub optional_outage : List String → (String × Evidence) → Bool
optional_outage required (key, check) =
    not (is_required required key)
    && is_false check.reachable
    && not (timed_out_check check)
    && not (cloudflare_unconfirmed key check)

lookup-normalize_checks :
    (required : List String) (key : String) (raw : List (String × Evidence))
    → is_required required key ≡ true
    → lookup key (normalize_checks required raw) ≡ lookup key raw
unfolding lookup normalize_checks
lookup-normalize_checks required key [] h = refl
lookup-normalize_checks required key ((k, c) ∷ raw) h =
    ground (arith, eq_iff k key, lookup-normalize_checks required key raw h)

optional_failed-normalize_checks :
    (required : List String) (raw : List (String × Evidence))
    → optional_failed required (normalize_checks required raw) ≡ any (optional_outage required) raw
unfolding optional_failed normalize_checks normalize_optional_uncertainty
optional_failed-normalize_checks required [] = refl
optional_failed-normalize_checks required ((k, c) ∷ raw) =
    ground (arith, optional_failed-normalize_checks required raw)

any_fails :
    (required keys : List String) (raw : List (String × Evidence))
    → ((key : String) → is_required keys key ≡ true → is_required required key ≡ true)
    → any (fails_at (normalize_checks required raw)) keys ≡ any (fails_at raw) keys
unfolding fails_at
any_fails required [] raw sub = refl
any_fails required (k ∷ keys) raw sub = ground (
  arith,
  eq_iff k k,
  lookup-normalize_checks required k raw (sub k (ground (arith, eq_iff k k))),
  any_fails required keys raw (λ key m. sub key (ground arith)),
)

-- The diagnostic is unhealthy exactly if a required check of the payload failed; otherwise degraded
-- exactly if an optional one failed that neither ran out of time nor is Cloudflare evidence that is
-- not confirmed; and otherwise healthy.
pub apply_diagnostic_status-lem :
    (required : List String) (raw : List (String × Evidence))
    → (apply_diagnostic_status required raw).0 ≡ (
        if any (fails_at raw) required
        then unhealthy
        else if any (optional_outage required) raw
        then degraded
        else healthy)
unfolding apply_diagnostic_status
apply_diagnostic_status-lem required raw =
    rw (any_fails required required raw (λ key h. h), optional_failed-normalize_checks required raw)
      refl
