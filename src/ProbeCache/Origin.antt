-- ===== src/ProbeCache/Origin.antt =====
-- nabla/api/external_probe_cache.py: the call of the loader and what is stored of its answer.
use fastapi_sample.Prelude.{String, ℕ, Bool, true, false, not, Option, none, some, if◌then◌else◌}
use fastapi_sample.Prelude.Dict.{insert}
use fastapi_sample.ProviderCircuit.State.{Link}
use fastapi_sample.ProviderCircuit.Gate.{CircuitDecision}
use fastapi_sample.ProviderCircuit.Outcome.{record_provider_probe_outcome}
use fastapi_sample.ProviderCircuit.Metadata.{CircuitMetadata, outcome_metadata}
use fastapi_sample.ProbeRate.{ProviderProbeBudgetDecision}
use fastapi_sample.ProbeCache.Envelope.{ProbeCachePolicy, Envelope, new_record, valid_last_good}
use fastapi_sample.ProbeCache.Store.{
  Instant, write_envelope, CacheWorld, Client, cache_outcome, redis_degraded, origin_refresh,
  origin_started, origin_finished, origin_duration, set_circuit, set_probes, emit, l1_put,
}

-- The loader: none is an exception. It is given the state and returns the one it leaves, with all
-- that the other tasks and replicas do meanwhile.
abbrev pub Loader : Type 0
Loader = CacheWorld → Option String × CacheWorld

-- The times of an outcome's recording, and the draw of the backoff.
pub record Recording : Type 0 where
  pub failed_at : ℕ
  pub reported_at : ℕ
  pub fraction : ℕ

unfoldable pub provider_success : Option (String → Bool) → (String → Bool) → String → Bool
provider_success none is_success value = is_success value
provider_success (some f) is_success value = f value

abbrev pub link_after : Option Client → Option Link
link_after none = none
link_after (some client) = some client.circuit_after

-- The provider's outcome: its duration's metric, the circuit, and the end of the metric's count.
unfoldable pub finish_origin :
    CircuitDecision
    → ProviderProbeBudgetDecision
    → Option Client
    → Recording
    → Bool
    → CacheWorld
    → Option CircuitMetadata × CacheWorld
finish_origin decision rate client times success w =
    let v = emit (origin_duration rate.provider success) w in
    let (outcome, circuit) =
      record_provider_probe_outcome decision success (link_after client) times.failed_at
        times.reported_at times.fraction v.circuit in
    (
      outcome_metadata decision outcome times.reported_at,
      emit (origin_finished rate.provider) (set_circuit circuit v),
    )

-- An answer, whether it is a success, and the metadata of the circuit.
pub record Origin : Type 0 where
  pub value : String
  pub success : Bool
  pub circuit_metadata : Option CircuitMetadata

-- `_load_origin`; none is the loader's exception, which is raised again.
unfoldable pub load_origin :
    Loader
    → ProviderProbeBudgetDecision
    → CircuitDecision
    → (String → Bool)
    → Option (String → Bool)
    → Option Client
    → Recording
    → CacheWorld
    → Option Origin × CacheWorld
load_origin loader rate decision is_success is_provider_success client times w =
    let (answer, v) = loader (emit (origin_started rate.provider) (emit origin_refresh w)) in
    elim answer [
      | none ↦ (none, (finish_origin decision rate client times false v).1)
      | some value ↦
          let ok = provider_success is_provider_success is_success value in
          let (metadata, u) = finish_origin decision rate client times ok v in
          (
            some
                (record { value = value; success = is_success value; circuit_metadata = metadata }),
            u,
          )
    ]

unfoldable pub new_envelope : Envelope → Origin → ProbeCachePolicy → ℕ → Envelope
new_envelope last origin policy fetched_at =
    let current = new_record origin.value origin.success fetched_at in
    record {
      current = some current;
      last_good =
          if origin.success then some current else valid_last_good last fetched_at policy.stale_ttl;
      circuit_breaker = origin.circuit_metadata;
    }

-- `_store_refreshed_envelope`: whether Redis is still available.
unfoldable pub store_refreshed_envelope :
    String → Option Client → Bool → Envelope → Instant → CacheWorld → Bool × CacheWorld
store_refreshed_envelope key none available envelope at w =
    (available, l1_put key envelope at.mono w)
store_refreshed_envelope key (some client) available envelope at w =
    let v = l1_put key envelope at.mono w in
    if not available
    then (available, v)
    else if client.write_up
    then (true, set_probes (insert key (write_envelope envelope) v.probes) v)
    else (false, emit (cache_outcome redis_degraded) v)
