-- ===== src/ProviderCircuit/Tests.antt =====
-- nabla/api/provider_circuit.py: the breaker on concrete probes.
use fastapi_sample.Prelude.{
  ◌≡◌, refl, ℕ, true, false, none, some, [], ◌∷◌, lower, strip, lstrip, rstrip, before,
}
use fastapi_sample.Prelude.Dict.{lookup}
use fastapi_sample.ProviderCircuit.State.{
  CircuitBreakerPolicy, ProviderCircuitState, fresh_state, policy_of, provider_name, Redis, World,
  Link, set_redis,
}
use fastapi_sample.ProviderCircuit.Gate.{
  local_state, load_state, claim_half_open, lock_half_open, decide_probe, before_provider_probe,
}
use fastapi_sample.ProviderCircuit.Outcome.{record_failure, record_success, release_provider_probe}
use fastapi_sample.ProviderCircuit.Sharing.{record_success-before_provider_probe}
use fastapi_sample.ProviderCircuit.Ownership.{Tasks, probing, holds, owners}

abbrev truenas : CircuitBreakerPolicy
truenas = record {
  failure_threshold = 2;
  base_backoff = 180_000_000;
  max_backoff = 900_000_000;
  jitter_ratio = 10;
  half_open_lock_ttl = 20;
}

abbrev good : Link
good = record { read_up = true; write_up = true; lock_up = true }

abbrev broken : Link
broken = record { read_up = false; write_up = false; lock_up = false }

abbrev state : ℕ → ℕ → ProviderCircuitState
state n t = record { failures = n; open_until = t }

abbrev empty_redis : Redis
empty_redis = record { circuits = []; locks = [] }

abbrev once_failed : World
once_failed = record {
  local_states = ("truenas", state 1 0) ∷ [];
  half_open_in_progress = [];
  redis = empty_redis;
  metrics = [];
}

known : policy_of (provider_name "truenas:api") ≡ some truenas
unfolding policy_of lower strip lstrip rstrip before
known = refl

-- The process after the failure, without Redis.
abbrev failed_alone : World
failed_alone =
    (record_failure (provider_name "truenas:api") truenas fresh_state (some broken) 1_000_000
      1_000_000 0 once_failed).1

-- ... and after a gate that was shut, and a late failure of a probe that was in flight.
abbrev later_alone : World
later_alone =
    (record_failure (provider_name "truenas:api") truenas fresh_state none 3_000_000 3_000_000 0
      (before_provider_probe "truenas:x" none 2_000_000 "t" failed_alone).1).1

abbrev new_replica : World
new_replica = record {
  local_states = [];
  half_open_in_progress = [];
  redis = empty_redis;
  metrics = [];
}

abbrev failed_shared : Redis
failed_shared =
    (record_failure (provider_name "truenas:api") truenas fresh_state (some good) 1_000_000
      1_000_000 0 once_failed).1.redis

abbrev later_shared : Redis
later_shared =
    (before_provider_probe "truenas:x" (some good) 2_000_000 "t"
      (set_redis failed_shared once_failed)).1.redis

record_success-before_provider_probe_example :
    (let v = (record_success (provider_name "truenas:api") (some good) 9 once_failed).1 in
      let d = (before_provider_probe "truenas:api" none 10 "t" v).0 in
      (d.allowed ≡ true) × (d.half_open ≡ false))
record_success-before_provider_probe_example =
    record_success-before_provider_probe "truenas:api" truenas good none 9 10 "t" once_failed known
      refl refl

abbrev twice_failed : World
twice_failed = record {
  local_states = ("truenas", state 2 0) ∷ [];
  half_open_in_progress = [];
  redis = empty_redis;
  metrics = [];
}

-- Two tasks pass the gate one after the other: the second one is turned away, and leaves first.
abbrev first_gate : World
first_gate = (before_provider_probe "truenas:api" none 5 "a" twice_failed).1

abbrev two_tasks : Tasks
two_tasks = record {
  world = (before_provider_probe "truenas:api" none 6 "b" first_gate).1;
  tasks =
      probing (before_provider_probe "truenas:api" none 6 "b" first_gate).0
      ∷ probing (before_provider_probe "truenas:api" none 5 "a" twice_failed).0
      ∷ [];
}

abbrev one_left : Tasks
one_left = record {
  world =
      release_provider_probe (before_provider_probe "truenas:api" none 6 "b" first_gate).0 none
        (before_provider_probe "truenas:api" none 6 "b" first_gate).1;
  tasks = probing (before_provider_probe "truenas:api" none 5 "a" twice_failed).0 ∷ [];
}

-- The first task still holds the probe.
still_held : owners "truenas" one_left.tasks ≡ 1
unfolding holds before_provider_probe policy_of lower strip lstrip rstrip before load_state
    local_state lookup decide_probe claim_half_open lock_half_open
still_held = refl

-- A claim whose task was cancelled while it waited for Redis shuts the gate for good.
abbrev claimed_for_good : World
claimed_for_good = (claim_half_open "truenas" twice_failed).1

shut_for_good :
    (before_provider_probe "truenas:api" none 900_000_000_000 "t" claimed_for_good).0.allowed
    ≡ false
unfolding before_provider_probe policy_of lower strip lstrip rstrip before load_state local_state
    lookup decide_probe claim_half_open lock_half_open
shut_for_good = refl
