-- ===== src/ProbeCache/Admission.antt =====
-- nabla/api/external_probe_cache.py: when the loader is not asked.
use fastapi_sample.Prelude.{
  String, ℕ, ◌≡◌, refl, inl, inr, Bool, true, false, ◌&&◌, Option, none, some, Option-cases,
  Bool-cases, arith,
}
use fastapi_sample.ProviderCircuit.Gate.{CircuitDecision, before_provider_probe}
use fastapi_sample.ProbeRate.{ProviderProbeBudgetDecision, admit_provider_probe}
use fastapi_sample.ProbeCache.Envelope.{
  ProbeCachePolicy, Envelope, value_of, served_value, valid_last_good, is_some,
  failed_with_last_good, Served, ProbeCacheResult, result_from_envelope,
}
use fastapi_sample.ProbeCache.Store.{CacheWorld, Client, set_circuit, emit, cache_outcome, miss}
use fastapi_sample.ProbeCache.Calls.{
  Call, answered, from_cache, with_circuit, with_budget, circuit_suppressed_result,
  rate_suppressed_result,
}
use fastapi_sample.ProbeCache.Refresh.{
  counter_link, refresh_from_origin, link_before, guarded_refresh,
}
use fastapi_sample.ProbeCache.Suppressed.{
  circuit_suppressed_result-fields, rate_suppressed_result-fields,
}

served_value-some :
    (serve : Bool) (good : Option String) (v : String)
    → (u : String) × (served_value serve good (some v) ≡ some u)
unfolding served_value
served_value-some serve none v = (v, refl)
served_value-some true (some g) v = (g, refl)
served_value-some false (some g) v = (v, refl)

-- An envelope with a current value always gives a result.
pub result_from_envelope-some :
    (envelope : Envelope) (policy : ProbeCachePolicy) (s : Served) (now : ℕ) (v : String)
    → value_of envelope.current ≡ some v
    → (r : ProbeCacheResult) × (result_from_envelope envelope policy s now ≡ some r)
unfolding result_from_envelope
result_from_envelope-some envelope policy s now v h =
    let good = value_of (valid_last_good envelope now policy.stale_ttl) in
    let (u, is) = served_value-some s.serve_last_good good v in
    rw (h, is, result_from_envelope) (_, refl)

circuit_suppressed_result-some :
    (d : CircuitDecision) (last : Envelope) (policy : ProbeCachePolicy) (available : Bool) (now : ℕ)
    (v : String)
    → value_of last.current ≡ some v
    → d.allowed ≡ false
    → (r : ProbeCacheResult) × (circuit_suppressed_result d last policy available now ≡ some r)
unfolding circuit_suppressed_result
circuit_suppressed_result-some d last policy available now v h forbidden =
    let failed = failed_with_last_good last policy now in
    let (r, is) =
      result_from_envelope-some last policy (from_cache available failed failed) now v h in
    (with_circuit d now r, ground arith)

rate_suppressed_result-some :
    (d : ProviderProbeBudgetDecision) (last : Envelope) (policy : ProbeCachePolicy)
    (available : Bool) (now : ℕ) (v : String)
    → value_of last.current ≡ some v
    → d.allowed ≡ false
    → (r : ProbeCacheResult) × (rate_suppressed_result d last policy available now ≡ some r)
unfolding rate_suppressed_result
rate_suppressed_result-some d last policy available now v h forbidden =
    let good = is_some (valid_last_good last now policy.stale_ttl) in
    let (r, is) = result_from_envelope-some last policy (from_cache available true good) now v h in
    (with_budget d r, ground arith)

refresh_from_origin-forbidden :
    (c : Call) (client : Option Client) (available : Bool) (last : Envelope) (d : CircuitDecision)
    (w : CacheWorld) (v : String)
    → value_of last.current ≡ some v
    → (admit_provider_probe c.key
        (counter_link client)
        none
        available
        c.admitted
        w.counters).0.allowed
      ≡ false
    → (r : ProbeCacheResult) × ((refresh_from_origin c client available last d w).0 ≡ answered r)
      × (r.metadata.cached ≡ true)
unfolding refresh_from_origin
refresh_from_origin-forbidden c client available last d w v h forbidden =
    let rate =
      (admit_provider_probe c.key (counter_link client) none available c.admitted w.counters).0 in
    let (r, is) =
      rate_suppressed_result-some rate last c.policy available c.admitted v h forbidden in
    (
      r,
      ground arith,
      (rate_suppressed_result-fields rate last c.policy available c.admitted r is).1,
    )

-- While the cache has a current value, a refresh that the provider's circuit or its rate budget
-- forbids is answered from the cache.
pub guarded_refresh-forbidden :
    (c : Call) (client : Option Client) (acquired available : Bool) (last : Envelope)
    (w : CacheWorld) (v : String)
    → value_of last.current ≡ some v
    → ((before_provider_probe c.key
          (link_before client)
          c.decided
          c.circuit_token
          w.circuit).0.allowed
        && (admit_provider_probe c.key
            (counter_link client)
            none
            available
            c.admitted
            w.counters).0.allowed)
      ≡ false
    → (r : ProbeCacheResult) × ((guarded_refresh c client acquired available last w).0 ≡ answered r)
      × (r.metadata.cached ≡ true)
unfolding guarded_refresh
guarded_refresh-forbidden c client acquired available last w v h forbidden =
    let (d, circuit) =
      before_provider_probe c.key (link_before client) c.decided c.circuit_token w.circuit in
    let u = emit (cache_outcome miss) (set_circuit circuit w) in
    elim (Option-cases (circuit_suppressed_result d last c.policy available c.decided)) [
      | inr (s, is) ↦ (
        s,
        ground arith,
        (circuit_suppressed_result-fields d last c.policy available c.decided s is).2,
      )
      | inl passed ↦ elim (Bool-cases d.allowed) [
        | inl allowed ↦
            let (r, is, cached) =
              refresh_from_origin-forbidden c client available last d u v h (ground arith) in
            (r, ground arith, cached)
        | inr closed ↦
            let (r, is) =
              circuit_suppressed_result-some d last c.policy available c.decided v h closed in
            absurd (ground arith)
      ]
    ]
