-- ===== src/HealthContracts/Diagnostic.antt =====
-- nabla/api/health_contracts.py: `apply_diagnostic_status`, for a payload whose checks are
-- dictionaries. The texts of the warnings are left out.
pub mod Reference
use fastapi_sample.Prelude.{
  String, Bool, true, false, not, ◌&&◌, ◌||◌, ◌==◌, List, [], ◌∷◌, any, map, Option, none, some,
  strip, if◌then◌else◌,
}
use fastapi_sample.Prelude.Dict.{lookup}
use fastapi_sample.HealthContracts.{is_true, is_false, text_of, is_required}

-- `inventory_observed`: one of the fields of `_CLOUDFLARE_INVENTORY_FIELDS` is there.
pub record Evidence : Type 0 where
  pub reachable : Option Bool
  pub timed_out : Bool
  pub error_kind : Option String
  pub stale : Bool
  pub refresh_error : Option String
  pub inventory_observed : Bool
  pub last_known_reachable : Option (Option Bool)
  pub is_degraded : Option Bool
  pub status_confirmed : Option Bool
  pub severity : Option String
  pub effective_state : Option String

unfoldable pub timed_out_check : Evidence → Bool
timed_out_check check =
    check.timed_out || elim check.error_kind [ none ↦ false | some k ↦ k == "deadline" ]

unfoldable pub cloudflare_unconfirmed : String → Evidence → Bool
cloudflare_unconfirmed name check =
    let refresh = check.stale || not (strip (text_of check.refresh_error) == "") in
    name == "cloudflare"
    && (refresh || (not (is_true check.reachable) && not check.inventory_observed))

-- `_normalize_optional_uncertainty`
unfoldable pub normalize_optional_uncertainty : String → Evidence → Evidence
normalize_optional_uncertainty name check =
    if not (timed_out_check check) && not (cloudflare_unconfirmed name check)
    then check
    else record {
      reachable = none;
      timed_out = check.timed_out;
      error_kind = check.error_kind;
      stale = check.stale;
      refresh_error = check.refresh_error;
      inventory_observed = check.inventory_observed;
      last_known_reachable =
          if name == "cloudflare" && check.inventory_observed
          then some check.reachable
          else check.last_known_reachable;
      is_degraded = some false;
      status_confirmed = some false;
      severity = some "warning";
      effective_state = some "warn";
    }

pub data DiagnosticStatus : Type 0 where
  healthy degraded unhealthy : DiagnosticStatus

unfoldable pub normalize_checks : List String → List (String × Evidence) → List (String × Evidence)
normalize_checks required [] = []
normalize_checks required ((key, check) ∷ checks) =
    let rest = normalize_checks required checks in
    if is_required required key
    then (key, check) ∷ rest
    else (key, normalize_optional_uncertainty key check) ∷ rest

unfoldable pub fails_at : List (String × Evidence) → String → Bool
fails_at checks key = elim (lookup key checks) [ none ↦ false | some c ↦ is_false c.reachable ]

unfoldable pub optional_failed : List String → List (String × Evidence) → Bool
optional_failed required [] = false
optional_failed required ((key, check) ∷ checks) =
    let rest = optional_failed required checks in
    if not (is_required required key) && is_false check.reachable then true else rest

unfoldable pub apply_diagnostic_status :
    List String → List (String × Evidence) → DiagnosticStatus × List (String × Evidence)
apply_diagnostic_status required raw =
    let checks = normalize_checks required raw in
    (
      if any (fails_at checks) required
          then unhealthy
          else if optional_failed required checks
          then degraded
          else healthy,
      checks,
    )
