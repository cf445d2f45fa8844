-- ===== src/HealthContracts/Tests.antt =====
-- nabla/api/health_contracts.py: readiness and the diagnostic on concrete checks.
use fastapi_sample.Prelude.{
  ◌≡◌, refl, true, false, any, none, some, [], ◌∷◌, if◌then◌else◌, lower, strip, lstrip, rstrip,
  contains,
}
use fastapi_sample.Prelude.Dict.{lookup}
use fastapi_sample.HealthContracts.{
  Check, AppFeatures, homelab, required_by_mode, required_dependencies, readiness_failure_stage,
  mark_check, mark_checks, is_shared, probed, build_readiness,
}
use fastapi_sample.HealthContracts.Diagnostic.{
  Evidence, DiagnosticStatus, healthy, unhealthy, fails_at, timed_out_check, cloudflare_unconfirmed,
  normalize_optional_uncertainty, normalize_checks, optional_failed, apply_diagnostic_status,
}
use fastapi_sample.HealthContracts.Diagnostic as Diagnostic
use fastapi_sample.HealthContracts.Diagnostic.Reference.{
  optional_outage, apply_diagnostic_status-lem,
}

abbrev only_redis : AppFeatures
only_redis = record { database = false; redis = true }

abbrev refused : Check
refused = record {
  reachable = some false;
  skipped = false;
  error = some "Connection refused";
  reason = none;
  failure_stage = none;
  required = none;
}

-- A Redis without an address is skipped, and its probe counts as fine although it is required.
abbrev unconfigured : Check
unconfigured = record refused { reachable = none; skipped = true }

skipped_is_ready :
    (build_readiness only_redis ("redis" ∷ []) (some (refused, unconfigured))).is_ready ≡ true
unfolding build_readiness is_shared mark_checks mark_check probed
skipped_is_ready = refl

the_stage : readiness_failure_stage refused ≡ some "connection_refused"
unfolding readiness_failure_stage lower contains
the_stage = refl

the_required : required_dependencies homelab (λ name. none) ≡ "postgres" ∷ "redis" ∷ []
unfolding required_dependencies required_by_mode
the_required = refl

-- After the deadline the two checks are one dictionary: PostgreSQL shows the mark of Redis.
late :
    (build_readiness
      (record { database = true; redis = true })
      ("redis" ∷ [])
      none).postgres.required
    ≡ some true
unfolding build_readiness is_shared mark_checks mark_check probed
late = refl

abbrev late_evidence : Evidence
late_evidence = record {
  reachable = some false;
  timed_out = true;
  error_kind = none;
  stale = false;
  refresh_error = none;
  inventory_observed = false;
  last_known_reachable = none;
  is_degraded = none;
  status_confirmed = none;
  severity = none;
  effective_state = none;
}

late_is_no_outage :
    (apply_diagnostic_status ("redis" ∷ []) (("sentry", late_evidence) ∷ [])).0 ≡ healthy
unfolding apply_diagnostic_status normalize_checks optional_failed normalize_optional_uncertainty
    timed_out_check fails_at lookup cloudflare_unconfirmed strip lstrip rstrip
late_is_no_outage = refl

apply_diagnostic_status-lem_example :
    (apply_diagnostic_status ("redis" ∷ []) (("sentry", late_evidence) ∷ [])).0 ≡ (
      if any (fails_at (("sentry", late_evidence) ∷ [])) ("redis" ∷ [])
      then unhealthy
      else if any (optional_outage ("redis" ∷ [])) (("sentry", late_evidence) ∷ [])
      then Diagnostic.degraded
      else healthy)
apply_diagnostic_status-lem_example =
    apply_diagnostic_status-lem ("redis" ∷ []) (("sentry", late_evidence) ∷ [])
