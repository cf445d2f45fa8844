-- ===== src/ProviderCircuit/Backoff.antt =====
-- nabla/api/provider_circuit.py: the bounds of the backoff, and what Redis gives back.
use fastapi_sample.Prelude.{String, ℕ, zero, suc, ◌-◌, ◌*◌, ◌^◌, ◌≤◌, ◌≡◌, refl, true, some, arith}
use fastapi_sample.Prelude.Dict.{lookup}
use fastapi_sample.ProviderCircuit.State.{
  CircuitBreakerPolicy, ProviderCircuitState, is_valid_policy, backoff, policy_of, decode_state,
  encode_state, is_schema, failures_field, open_until_field, state_of,
}

power_pos : (n : ℕ) → 1 ≤ 2 ^ n
power_pos zero = omega arith
power_pos (suc n) = omega (arith, power_pos n)

base_le : (a b : ℕ) → 1 ≤ b → a ≤ a * b
base_le a zero h = elim h [ ]
base_le a (suc b) h = omega arith

-- The backoff of a policy that its constructor accepts is between the base and the maximum,
-- whatever the number of failures and the jitter.
pub backoff-bounds :
    (policy : CircuitBreakerPolicy) (fraction failures : ℕ)
    → is_valid_policy policy ≡ true
    → (policy.base_backoff ≤ backoff policy fraction failures)
      × (backoff policy fraction failures ≤ policy.max_backoff)
unfolding backoff is_valid_policy
backoff-bounds policy fraction failures h = ground (
  arith,
  base_le policy.base_backoff (2 ^ (failures - policy.failure_threshold))
      (power_pos (failures - policy.failure_threshold)),
)

-- What `_write_remote_state` stores, `_read_remote_state` gives back.
pub decode_state-encode_state :
    (state : ProviderCircuitState) → decode_state (encode_state state) ≡ some state
unfolding decode_state encode_state lookup is_schema failures_field open_until_field state_of
decode_state-encode_state state = refl

-- The declared policies are ones that the constructor accepts.
pub policy_of-is_valid_policy :
    (provider : String) (policy : CircuitBreakerPolicy)
    → policy_of provider ≡ some policy
    → is_valid_policy policy ≡ true
unfolding policy_of is_valid_policy
policy_of-is_valid_policy provider policy h = ground arith
