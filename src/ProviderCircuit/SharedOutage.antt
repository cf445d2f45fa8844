-- ===== src/ProviderCircuit/SharedOutage.antt =====
-- nabla/api/provider_circuit.py: what happens in the Redis that the replicas share after a failure has
-- opened a circuit.
use fastapi_sample.Prelude.{String, ℕ, ◌≤◌, ◌≡◌, Option, some}
use fastapi_sample.ProviderCircuit.State.{
  CircuitBreakerPolicy, ProviderCircuitState, Redis, World, Link, set_redis,
}
use fastapi_sample.ProviderCircuit.Gate.{remote_state, before_provider_probe}
use fastapi_sample.ProviderCircuit.Outcome.{record_failure}
use fastapi_sample.ProviderCircuit.Outage.{IsOpenUntil}

-- Redis holds a state of the provider that is open until a time at least.
pub data IsSharedUntil (provider : String) (policy : CircuitBreakerPolicy) (until : ℕ) (r : Redis)
    : Type 0 where
  shared :
      (state : ProviderCircuitState)
      → remote_state provider r ≡ some state
      → IsOpenUntil policy until state
      → IsSharedUntil provider policy until r

-- What the replicas do to Redis after a failure that one recorded there at a time: the gates of any
-- probe and the recording of the provider's failures, by any replica in any state, with Redis up or
-- down; and all that leaves the record of the provider in Redis as it is. Its deletion by a success
-- that is recorded, and its expiry, are no such steps.
pub data Shared (provider : String) (policy : CircuitBreakerPolicy) (from : ℕ)
    : Redis → Redis → Type 0 where
  stays : (r : Redis) → Shared provider policy from r r
  gates :
      (key : String) (link : Option Link) (now : ℕ) (token : String) (replica : World) (r q : Redis)
      → Shared provider policy from r q
      → Shared provider policy from r
          (before_provider_probe key link now token (set_redis q replica)).1.redis
  fails :
      (decided : ProviderCircuitState) (link : Option Link) (now reported fraction : ℕ)
      (replica : World) (r q : Redis)
      → from ≤ now
      → Shared provider policy from r q
      → Shared provider policy from r
          (record_failure provider policy decided link now reported fraction
            (set_redis q replica)).1.redis
  elsewhere :
      (r q p : Redis)
      → remote_state provider p ≡ remote_state provider q
      → Shared provider policy from r q
      → Shared provider policy from r p
