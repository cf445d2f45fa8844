-- ===== src/ProviderCircuit/Metadata.antt =====
-- nabla/api/provider_circuit.py: `CircuitDecision.metadata`, and that of a recorded outcome.
use fastapi_sample.Prelude.{String, ℕ, ◌+◌, ◌-◌, ◌/◌, Bool, false, Option, none, some}
use fastapi_sample.ProviderCircuit.State.{StateName, ProviderCircuitState}
use fastapi_sample.ProviderCircuit.Gate.{CircuitDecision}
use fastapi_sample.ProviderCircuit.Outcome.{state_name}

pub record CircuitMetadata : Type 0 where
  pub provider : String
  pub state : StateName
  pub failures : ℕ
  pub retry_after_seconds : ℕ
  pub origin_suppressed : Bool
  pub redis_shared : Bool

-- `math.ceil` of a time that is left, in seconds.
abbrev pub retry_after : ℕ → ℕ → ℕ
retry_after open_until now = (open_until - now + 999_999) / 1_000_000

-- The empty dictionary is none.
unfoldable pub circuit_metadata : CircuitDecision → Bool → ℕ → Option CircuitMetadata
circuit_metadata d suppressed now = elim d.provider [
  | none ↦ none
  | some (provider, policy) ↦ some (record {
    provider = provider;
    state = state_name policy d.state now;
    failures = d.state.failures;
    retry_after_seconds = retry_after d.state.open_until now;
    origin_suppressed = suppressed;
    redis_shared = d.redis_available;
  })
]

-- The end of `record_provider_probe_outcome`: the decision with the new state.
unfoldable pub outcome_metadata :
    CircuitDecision → Option (ProviderCircuitState × Bool) → ℕ → Option CircuitMetadata
outcome_metadata d none now = none
outcome_metadata d (some (state, shared)) now =
    let final : CircuitDecision = record {
      provider = d.provider;
      state = state;
      allowed = d.allowed;
      half_open = d.half_open;
      owns_half_open = d.owns_half_open;
      redis_available = shared;
      client = d.client;
      lock_token = d.lock_token;
    } in
    circuit_metadata final false now
