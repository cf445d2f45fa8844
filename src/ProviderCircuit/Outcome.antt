-- ===== src/ProviderCircuit/Outcome.antt =====
-- nabla/api/provider_circuit.py: what a probe's result does to the breaker, its release and resets.
use fastapi_sample.Prelude.{
  String, ℕ, ◌+◌, max, Bool, true, false, not, List, [], Option, none, some, ltb, leb,
  if◌then◌else◌,
}
use fastapi_sample.Prelude.Dict.{insert, delete}
use fastapi_sample.ProviderCircuit.State.{
  CircuitBreakerPolicy, ProviderCircuitState, fresh_state, policy_of, provider_name, Raw,
  encode_state, StateName, opened, half_opened, closed, succeeded, failed, circuit_state,
  provider_outcome, Redis, World, Link, put_local, drop_local, set_redis, emit, discard_half_open,
  backoff,
}
use fastapi_sample.ProviderCircuit.Gate.{CircuitDecision, load_state, release_lock}

unfoldable pub state_name : CircuitBreakerPolicy → ProviderCircuitState → ℕ → StateName
state_name policy state now =
    if ltb now state.open_until
    then opened
    else if leb policy.failure_threshold state.failures
    then half_opened
    else closed

-- `_write_remote_state` and the deletion of a key, if Redis can be reached.
abbrev pub write_circuits : List (String × Raw) → Redis → Redis
write_circuits circuits r = record { circuits = circuits; locks = r.locks }

unfoldable pub mirror : Option Link → Bool → List (String × Raw) → World → Bool × World
mirror none available circuits w = (available, w)
mirror (some link) available circuits w =
    if not available
    then (available, w)
    else if link.write_up
    then (true, set_redis (write_circuits circuits w.redis) w)
    else (false, w)

unfoldable pub failed_state :
    CircuitBreakerPolicy
    → ProviderCircuitState
    → ProviderCircuitState
    → ℕ
    → ℕ
    → ProviderCircuitState
failed_state policy state decided now fraction =
    let failures = max state.failures decided.failures + 1 in
    record {
      failures = failures;
      open_until =
          if leb policy.failure_threshold failures
          then now + backoff policy fraction failures
          else 0;
    }

abbrev pub report_state : String → ProviderCircuitState → ℕ → World → World
report_state provider state later w =
    emit (circuit_state provider (if ltb later state.open_until then opened else closed)) w

-- `record_provider_probe_outcome` up to the metadata: the new state and whether Redis is shared.
-- `now` is the time of the failure, `later` that of the report; `link` is the decision's client.
unfoldable pub record_failure :
    String
    → CircuitBreakerPolicy
    → ProviderCircuitState
    → Option Link
    → ℕ
    → ℕ
    → ℕ
    → World
    → (ProviderCircuitState × Bool) × World
record_failure provider policy decided link now later fraction w =
    let ((state, available), v) = load_state provider link w in
    let next = failed_state policy state decided now fraction in
    let (shared, u) =
      mirror link available (insert provider (encode_state next) v.redis.circuits)
        (put_local provider next (emit (provider_outcome provider failed) v)) in
    ((next, shared), report_state provider next later u)

unfoldable pub record_success :
    String → Option Link → ℕ → World → (ProviderCircuitState × Bool) × World
record_success provider link later w =
    let ((state, available), v) = load_state provider link w in
    let (shared, u) =
      mirror link available (delete provider v.redis.circuits)
        (drop_local provider (emit (provider_outcome provider succeeded) v)) in
    ((fresh_state, shared), report_state provider fresh_state later u)

unfoldable pub record_provider_probe_outcome :
    CircuitDecision
    → Bool
    → Option Link
    → ℕ
    → ℕ
    → ℕ
    → World
    → Option (ProviderCircuitState × Bool) × World
record_provider_probe_outcome decision success link now later fraction w = elim decision.provider [
  | none ↦ (none, w)
  | some (provider, policy) ↦
      let (good, v) = record_success provider link later w in
      let (bad, u) = record_failure provider policy decision.state link now later fraction w in
      if success then (some good, v) else (some bad, u)
]

-- `release_provider_probe`; a lock command that raises leaves the lock to its expiry.
unfoldable pub release_provider_probe : CircuitDecision → Option Link → World → World
release_provider_probe decision link w = elim decision.provider [
  | none ↦ w
  | some (provider, _) ↦
      let v = discard_half_open provider w in
      if not decision.owns_half_open then w else elim link [
        | none ↦ v
        | some l ↦ elim decision.lock_token [
          | none ↦ v
          | some token ↦ if l.lock_up then set_redis (release_lock provider token v.redis) v else v
        ]
      ]
]

-- `reset_provider_circuit_for_probe_key`; the deletion is not caught, so it is taken to succeed.
unfoldable pub reset_provider_circuit_for_probe_key : String → Bool → World → World
reset_provider_circuit_for_probe_key key client w =
    let provider = provider_name key in
    let v = discard_half_open provider (drop_local provider w) in
    elim (policy_of provider) [
      | none ↦ w
      | some _ ↦
          if client
          then set_redis
              (record {
                circuits = delete provider v.redis.circuits;
                locks = delete provider v.redis.locks;
              })
              v
          else v
    ]

unfoldable pub reset_provider_circuits : World → World
reset_provider_circuits w = record {
  local_states = [];
  half_open_in_progress = [];
  redis = w.redis;
  metrics = w.metrics;
}
