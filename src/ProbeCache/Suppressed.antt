-- ===== src/ProbeCache/Suppressed.antt =====
-- nabla/api/external_probe_cache.py: the results of the two suppressions.
use fastapi_sample.Prelude.{
  String, ℕ, ◌≡◌, refl, inl, inr, Bool, true, false, Option, none, some, Option-cases, arith,
}
use fastapi_sample.ProviderCircuit.State.{
  Link, World, policy_of, provider_name, ProviderCircuitState, CircuitBreakerPolicy,
}
use fastapi_sample.ProviderCircuit.Gate.{
  CircuitDecision, claim_half_open, load_state, before_provider_probe, decide_probe, lock_half_open,
}
use fastapi_sample.ProviderCircuit.Metadata.{CircuitMetadata, circuit_metadata}
use fastapi_sample.ProbeRate.{ProviderProbeBudgetDecision}
use fastapi_sample.ProbeCache.Envelope.{
  ProbeCachePolicy, Envelope, metadata, ProbeCacheResult, result_from_envelope, valid_last_good,
  is_some, failed_with_last_good,
}
use fastapi_sample.ProbeCache.Calls.{
  from_cache, with_circuit, with_budget, circuit_suppressed_result, rate_suppressed_result,
}
use fastapi_sample.ProbeCache.Freshness.{result_from_envelope-fields}

lock_half_open-provider :
    (provider : String) (policy : CircuitBreakerPolicy) (state : ProviderCircuitState)
    (available : Bool) (link : Option Link) (token : String) (w : World)
    → (lock_half_open provider policy state available link token w).0.provider
      ≡ some (provider, policy)
unfolding lock_half_open
lock_half_open-provider provider policy state available none token w = refl
lock_half_open-provider provider policy state available (some link) token w = ground arith

decide_probe-provider :
    (provider : String) (policy : CircuitBreakerPolicy) (state : ProviderCircuitState)
    (available : Bool) (link : Option Link) (now : ℕ) (token : String) (w : World)
    → (decide_probe provider policy state available link now token w).0.provider
      ≡ some (provider, policy)
unfolding decide_probe
decide_probe-provider provider policy state available link now token w = ground (
  arith,
  lock_half_open-provider provider policy state available link token (claim_half_open provider w).1,
)

circuit_metadata-suppressed :
    (d : CircuitDecision) (now : ℕ) (provider : String × CircuitBreakerPolicy)
    → d.provider ≡ some provider
    → (m : CircuitMetadata) × (circuit_metadata d true now ≡ some m) × (m.origin_suppressed ≡ true)
unfolding circuit_metadata
circuit_metadata-suppressed d now provider h = rw (h, circuit_metadata) (_, refl, refl)

-- A decision that forbids the probe has a provider.
pub before_provider_probe-suppressed :
    (key : String) (link : Option Link) (now at : ℕ) (token : String) (w : World)
    → (before_provider_probe key link now token w).0.allowed ≡ false
    → (m : CircuitMetadata) × (circuit_metadata
          (before_provider_probe key link now token w).0
          true
          at
        ≡ some m)
      × (m.origin_suppressed ≡ true)
unfolding before_provider_probe
before_provider_probe-suppressed key link now at token w h =
    elim (Option-cases (policy_of (provider_name key))) [
      | inl unknown ↦ absurd (ground arith)
      | inr (policy, known) ↦
          let ((state, available), v) = load_state (provider_name key) link w in
          circuit_metadata-suppressed (before_provider_probe key link now token w).0 at
            (provider_name key, policy)
            (ground (
              arith,
              decide_probe-provider (provider_name key) policy state available link now token v,
            ))
    ]

-- What the circuit suppresses is from the cache, and shows its breaker.
pub circuit_suppressed_result-fields :
    (d : CircuitDecision) (last : Envelope) (policy : ProbeCachePolicy) (available : Bool) (now : ℕ)
    (r : ProbeCacheResult)
    → circuit_suppressed_result d last policy available now ≡ some r
    → (d.allowed ≡ false)
      × (r.metadata.circuit_breaker ≡ circuit_metadata d true now)
      × (r.metadata.cached ≡ true)
unfolding circuit_suppressed_result with_circuit metadata
circuit_suppressed_result-fields d last policy available now r e =
    let failed = failed_with_last_good last policy now in
    let served = from_cache available failed failed in
    elim (Option-cases (result_from_envelope last policy served now)) [
      | inl missing ↦ absurd (ground arith)
      | inr (s, is) ↦ ground (arith, result_from_envelope-fields last policy served now s is)
    ]

pub rate_suppressed_result-fields :
    (d : ProviderProbeBudgetDecision) (last : Envelope) (policy : ProbeCachePolicy)
    (available : Bool) (now : ℕ) (r : ProbeCacheResult)
    → rate_suppressed_result d last policy available now ≡ some r
    → (d.allowed ≡ false) × (r.metadata.cached ≡ true) × (r.metadata.stale ≡ true)
unfolding rate_suppressed_result with_budget metadata
rate_suppressed_result-fields d last policy available now r e =
    let good = is_some (valid_last_good last now policy.stale_ttl) in
    let served = from_cache available true good in
    elim (Option-cases (result_from_envelope last policy served now)) [
      | inl missing ↦ absurd (ground arith)
      | inr (s, is) ↦ ground (arith, result_from_envelope-fields last policy served now s is)
    ]
