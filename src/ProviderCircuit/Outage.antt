-- ===== src/ProviderCircuit/Outage.antt =====
-- nabla/api/provider_circuit.py: what happens after a failure has opened a circuit, in the process
-- that recorded it and in the Redis that the replicas share.
use fastapi_sample.Prelude.{String, ℕ, ◌+◌, ◌≤◌, ◌≡◌, max, true, Option, none, some, arith}
use fastapi_sample.ProviderCircuit.State.{
  CircuitBreakerPolicy, ProviderCircuitState, is_valid_policy, provider_name, merge_states, World,
  Link,
}
use fastapi_sample.ProviderCircuit.Gate.{local_state, before_provider_probe}
use fastapi_sample.ProviderCircuit.Outcome.{failed_state, record_failure}
use fastapi_sample.ProviderCircuit.Backoff.{backoff-bounds}

-- The failures have reached the threshold, and the circuit is open until a time at least.
abbrev pub IsOpenUntil : CircuitBreakerPolicy → ℕ → ProviderCircuitState → Type 0
IsOpenUntil policy until state =
    (policy.failure_threshold ≤ state.failures) × (until ≤ state.open_until)

pub merge_states-IsOpenUntil :
    (policy : CircuitBreakerPolicy) (until : ℕ) (local : ProviderCircuitState)
    (remote : Option ProviderCircuitState)
    → IsOpenUntil policy until local
    → IsOpenUntil policy until (merge_states local remote)
unfolding merge_states
merge_states-IsOpenUntil policy until local none h = h
merge_states-IsOpenUntil policy until local (some remote) h = ground arith

pub failed_state-IsOpenUntil :
    (policy : CircuitBreakerPolicy) (until : ℕ) (state decided : ProviderCircuitState)
    (from now fraction : ℕ)
    → is_valid_policy policy ≡ true
    → from ≤ now
    → policy.failure_threshold ≤ state.failures
    → IsOpenUntil policy
        (from + policy.base_backoff)
        (failed_state policy state decided now fraction)
unfolding failed_state
failed_state-IsOpenUntil policy until state decided from now fraction valid later reached =
    ground (arith, backoff-bounds policy fraction (max state.failures decided.failures + 1) valid)

-- What the process does after a failure that it recorded at a time: its gates of the provider's
-- probes and the recording of their failures, in any order and number, with Redis up or down; and all
-- that leaves its own state of the provider as it is, whatever it does to Redis, to other providers,
-- or by other replicas. A recorded success of the provider and the resets, for tests, are no such
-- steps.
pub data Later (provider : String) (policy : CircuitBreakerPolicy) (from : ℕ)
    : World → World → Type 0 where
  stays : (w : World) → Later provider policy from w w
  gates :
      (key : String) (link : Option Link) (now : ℕ) (token : String) (w v : World)
      → provider_name key ≡ provider
      → Later provider policy from w v
      → Later provider policy from w (before_provider_probe key link now token v).1
  fails :
      (decided : ProviderCircuitState) (link : Option Link) (now reported fraction : ℕ)
      (w v : World)
      → from ≤ now
      → Later provider policy from w v
      → Later provider policy from w
          (record_failure provider policy decided link now reported fraction v).1
  elsewhere :
      (w v u : World)
      → local_state provider u ≡ local_state provider v
      → Later provider policy from w v
      → Later provider policy from w u
