-- ===== src/HealthContracts.antt =====
-- nabla/api/health_contracts.py: readiness and the status of the deep diagnostic. A check is a
-- dictionary of which only the modelled fields are read; the probes' results are inputs.
pub mod Readiness
pub mod Diagnostic
mod Tests
use Prim.Native.String
use fastapi_sample.Prelude.{
  String, Bool, true, false, not, ◌&&◌, ◌||◌, ◌==◌, List, [], ◌∷◌, any, all, keep, Option, none,
  some, lower, strip, contains, if◌then◌else◌,
}

pub record Check : Type 0 where
  pub reachable : Option Bool
  pub skipped : Bool
  pub error : Option String
  pub reason : Option String
  pub failure_stage : Option String
  pub required : Option Bool

-- `check.get("reachable") is True` and `is False`
abbrev pub is_true : Option Bool → Bool
is_true none = false
is_true (some b) = b

abbrev pub is_false : Option Bool → Bool
is_false none = false
is_false (some b) = not b

-- `a or b` for texts, with the empty text for None
abbrev pub text_of : Option String → String
text_of none = ""
text_of (some s) = s

abbrev pub or_else : String → String → String
or_else s t = if s == "" then t else s

-- `runtime_mode`, of which two values have required checks.
pub data RuntimeMode : Type 0 where
  fastapi_cloud homelab other_mode : RuntimeMode

unfoldable pub required_by_mode : RuntimeMode → String → Bool
required_by_mode fastapi_cloud name = name == "redis" || name == "supabase"
required_by_mode homelab name = name == "redis" || name == "postgres"
required_by_mode other_mode name = false

-- `env_bool` of the variable of the name: `none` where it is not set.
unfoldable pub required_dependencies : RuntimeMode → (String → Option Bool) → List String
required_dependencies mode override =
    keep (λ name. elim (override name) [ none ↦ required_by_mode mode name | some b ↦ b ])
      ("postgres" ∷ "redis" ∷ "supabase" ∷ [])

abbrev pub is_required : List String → String → Bool
is_required required name = any (λ r. r == name) required

-- `_readiness_failure_stage`
unfoldable pub readiness_failure_stage : Check → Option String
readiness_failure_stage check =
    let message = lower (or_else (text_of check.error) (text_of check.reason)) in
    if not (is_false check.reachable)
    then none
    else if contains message "temporary failure in name resolution"
        || contains message "name or service not known"
        || contains message "getaddrinfo"
    then some "dns"
    else if contains message "authentication" || contains message "password"
    then some "authentication"
    else if contains message "connection refused"
    then some "connection_refused"
    else if contains message "timeout" || contains message "budget exceeded"
    then some "timeout"
    else if contains message "ssl" || contains message "certificate"
    then some "tls"
    else some "dependency"

pub record AppFeatures : Type 0 where
  pub database : Bool
  pub redis : Bool

-- `disabled_subsystem_check` of nabla/app_features.py
abbrev pub disabled_check : String → Check
disabled_check subsystem = record {
  reachable = none;
  skipped = true;
  error = none;
  reason = some (String.◌++◌ subsystem " subsystem disabled by application features");
  failure_stage = none;
  required = none;
}

abbrev pub budget_exceeded : Check
budget_exceeded = record {
  reachable = some false;
  skipped = false;
  error = some "readiness budget exceeded (3s)";
  reason = none;
  failure_stage = none;
  required = none;
}

-- The turn of the loop that marks a check.
unfoldable pub mark_check : List String → String → Check → Check
mark_check required name check =
    let stage : Option String = elim (readiness_failure_stage check) [
      | none ↦ check.failure_stage
      | some s ↦ elim check.failure_stage [ none ↦ some s | some t ↦ some t ]
    ] in
    record {
      reachable = check.reachable;
      skipped = check.skipped;
      error = check.error;
      reason = check.reason;
      failure_stage = stage;
      required = some (is_required required name);
    }

abbrev pub usable : Check → Bool
usable check = check.skipped || is_true check.reachable

pub data ReadinessStatus : Type 0 where
  ready degraded not_ready : ReadinessStatus

pub record ReadinessPayload : Type 0 where
  pub status : ReadinessStatus
  pub postgres : Check
  pub redis : Check
  pub is_ready : Bool

-- What the two probes give: what a probe of an enabled subsystem observed, or the deadline.
unfoldable pub probed : Bool → String → Option Check → Check
probed enabled name none = if enabled then budget_exceeded else disabled_check name
probed enabled name (some observed) = if enabled then observed else disabled_check name

-- After the deadline the two checks of enabled subsystems are one dictionary.
unfoldable pub is_shared : AppFeatures → Option (Check × Check) → Bool
is_shared features none = features.database && features.redis
is_shared features (some probes) = false

-- The loop over the checks; what it writes into a shared dictionary, both checks show.
unfoldable pub mark_checks : List String → Bool → Check → Check → Check × Check
mark_checks required shared postgres redis =
    let both = mark_check required "redis" (mark_check required "postgres" postgres) in
    if shared
    then (both, both)
    else (mark_check required "postgres" postgres, mark_check required "redis" redis)

-- `probes` is `none` if the deadline passed before both probes were done.
unfoldable pub build_readiness :
    AppFeatures → List String → Option (Check × Check) → ReadinessPayload
build_readiness features required probes =
    let (postgres, redis) =
      mark_checks required (is_shared features probes)
        (probed features.database "database" (elim probes [ none ↦ none | some p ↦ some p.0 ]))
        (probed features.redis "redis" (elim probes [ none ↦ none | some p ↦ some p.1 ])) in
    let fine =
      (not (is_required required "postgres") || usable postgres)
      && (not (is_required required "redis") || usable redis) in
    let worse = fine && not (usable postgres && usable redis) in
    record {
      status = if worse then degraded else if fine then ready else not_ready;
      postgres = postgres;
      redis = redis;
      is_ready = fine;
    }
