-- ===== src/ProviderCircuit/Suppression.antt =====
-- nabla/api/provider_circuit.py: when a probe may run, and the state that a recorded failure leaves in
-- the process.
use fastapi_sample.Prelude.{
  String, ℕ, ◌+◌, ◌≤◌, ◌<◌, ◌≡◌, refl, ◌∙◌, max, Bool, true, false, not, List, ◌&&◌, ◌||◌, Option,
  none, some, ltb, leb, arith, eq_refl,
}
use fastapi_sample.Prelude.Dict.{insert, lookup-insert}
use fastapi_sample.ProviderCircuit.State.{
  CircuitBreakerPolicy, ProviderCircuitState, is_valid_policy, policy_of, provider_name,
  encode_state, World, Link, Raw, put_local, emit, provider_outcome, failed,
}
use fastapi_sample.ProviderCircuit.Gate.{
  local_state, load_state, claim_half_open, lock_half_open, decide_probe, before_provider_probe,
}
use fastapi_sample.ProviderCircuit.Outcome.{failed_state, mirror, record_failure}
use fastapi_sample.ProviderCircuit.Backoff.{backoff-bounds}

pub lock_half_open-owns :
    (provider : String) (policy : CircuitBreakerPolicy) (state : ProviderCircuitState)
    (available : Bool) (link : Option Link) (token : String) (w : World)
    → (let d = (lock_half_open provider policy state available link token w).0 in
        d.owns_half_open ≡ d.allowed)
unfolding lock_half_open
lock_half_open-owns provider policy state available none token w = refl
lock_half_open-owns provider policy state available (some link) token w = ground arith

-- A probe is allowed exactly if the circuit is not open and, once the failures have reached the
-- threshold, this task holds the half-open probe.
decide_probe-allowed :
    (provider : String) (policy : CircuitBreakerPolicy) (state : ProviderCircuitState)
    (available : Bool) (link : Option Link) (now : ℕ) (token : String) (w : World)
    → (let d = (decide_probe provider policy state available link now token w).0 in
        d.allowed ≡ (
          not (ltb now state.open_until)
          && (not (leb policy.failure_threshold state.failures) || d.owns_half_open)))
unfolding decide_probe
decide_probe-allowed provider policy state available link now token w = ground (
  arith,
  lock_half_open-owns provider policy state available link token (claim_half_open provider w).1,
)

-- The guard of a probe of a declared provider, in the state that is loaded: the probe runs exactly
-- if the circuit is not open and either the failures are below the threshold or the task holds the
-- half-open probe.
pub before_provider_probe-allowed :
    (key : String) (policy : CircuitBreakerPolicy) (link : Option Link) (now : ℕ) (token : String)
    (w : World)
    → policy_of (provider_name key) ≡ some policy
    → (let d = (before_provider_probe key link now token w).0 in
        let state = (load_state (provider_name key) link w).0.0 in
        d.allowed ≡ (
          not (ltb now state.open_until)
          && (not (leb policy.failure_threshold state.failures) || d.owns_half_open)))
unfolding before_provider_probe
before_provider_probe-allowed key policy link now token w known =
    rw (known, before_provider_probe)
      (decide_probe-allowed (provider_name key) policy (load_state (provider_name key) link w).0.0
        (load_state (provider_name key) link w).0.1 link now token
        (load_state (provider_name key) link w).1)

pub mirror-local_states :
    (link : Option Link) (available : Bool) (circuits : List (String × Raw)) (w : World)
    → (mirror link available circuits w).1.local_states ≡ w.local_states
unfolding mirror
mirror-local_states none available circuits w = refl
mirror-local_states (some link) available circuits w = ground arith

pub local_state-same :
    (provider : String) (v w : World)
    → v.local_states ≡ w.local_states
    → local_state provider v ≡ local_state provider w
unfolding local_state
local_state-same provider v w same = rw (same, local_state) refl

pub local_state-put_local :
    (provider : String) (state : ProviderCircuitState) (w : World)
    → local_state provider (put_local provider state w) ≡ state
unfolding local_state
local_state-put_local provider state w =
    rw (local_state, lookup-insert provider provider state w.local_states, eq_refl provider) refl

-- A recorded failure is what this process next reads.
pub local_state-record_failure :
    (provider : String) (policy : CircuitBreakerPolicy) (decided : ProviderCircuitState)
    (link : Option Link) (now later fraction : ℕ) (w : World)
    → (let (result, v) = record_failure provider policy decided link now later fraction w in
        local_state provider v ≡ result.0)
unfolding record_failure
local_state-record_failure provider policy decided link now later fraction w =
    let ((state, available), v) = load_state provider link w in
    let next = failed_state policy state decided now fraction in
    let u = put_local provider next (emit (provider_outcome provider failed) v) in
    let circuits = insert provider (encode_state next) v.redis.circuits in
    local_state-same provider (record_failure provider policy decided link now later fraction w).1 u
      (mirror-local_states link available circuits u)
    ∙ local_state-put_local provider next (emit (provider_outcome provider failed) v)

-- A failure that reaches the threshold opens the circuit for the base backoff at least.
open_until-failed_state :
    (policy : CircuitBreakerPolicy) (state decided : ProviderCircuitState) (now fraction : ℕ)
    → is_valid_policy policy ≡ true
    → policy.failure_threshold ≤ (failed_state policy state decided now fraction).failures
    → now + policy.base_backoff ≤ (failed_state policy state decided now fraction).open_until
unfolding failed_state
open_until-failed_state policy state decided now fraction valid reached =
    ground (arith, backoff-bounds policy fraction (max state.failures decided.failures + 1) valid)

pub open_until-record_failure :
    (provider : String) (policy : CircuitBreakerPolicy) (decided : ProviderCircuitState)
    (link : Option Link) (now later fraction : ℕ) (w : World)
    → is_valid_policy policy ≡ true
    → policy.failure_threshold
      ≤ (record_failure provider policy decided link now later fraction w).0.0.failures
    → now + policy.base_backoff
      ≤ (record_failure provider policy decided link now later fraction w).0.0.open_until
unfolding record_failure
open_until-record_failure provider policy decided link now later fraction w valid reached =
    open_until-failed_state policy (load_state provider link w).0.0 decided now fraction valid
      reached

-- A probe is not allowed while the loaded state is open.
pub suppressed_while_open :
    (key : String) (policy : CircuitBreakerPolicy) (link : Option Link) (now : ℕ) (token : String)
    (w : World)
    → policy_of (provider_name key) ≡ some policy
    → now < (load_state (provider_name key) link w).0.0.open_until
    → (before_provider_probe key link now token w).0.allowed ≡ false
suppressed_while_open key policy link now token w known still =
    ground (arith, before_provider_probe-allowed key policy link now token w known)
