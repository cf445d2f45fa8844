-- ===== src/HealthContracts/Readiness.antt =====
-- nabla/api/health_contracts.py: what readiness says of the dependencies.
use fastapi_sample.Prelude.{Bool, not, ◌||◌, Option, none, some}
use fastapi_sample.HealthContracts.{Check, is_true}

-- A subsystem as readiness sees it: fine where it is disabled, or its probe ended in time and either
-- reached it or was skipped.
abbrev pub is_fine : Bool → Option Check → Bool
is_fine enabled none = not enabled
is_fine enabled (some check) = not enabled || check.skipped || is_true check.reachable

abbrev pub first {ℓ} : {A : Type ℓ} → Option (A × A) → Option A
first none = none
first (some p) = some p.0

abbrev pub second {ℓ} : {A : Type ℓ} → Option (A × A) → Option A
second none = none
second (some p) = some p.1
