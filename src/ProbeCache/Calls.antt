-- ===== src/ProbeCache/Calls.antt =====
-- nabla/api/external_probe_cache.py: the calls, their replies, and the suppressed results.
use fastapi_sample.Prelude.{String, ℕ, Bool, true, false, Option, none, some, if◌then◌else◌}
use fastapi_sample.ProviderCircuit.Gate.{CircuitDecision}
use fastapi_sample.ProviderCircuit.Metadata.{circuit_metadata}
use fastapi_sample.ProbeRate.{ProviderProbeBudgetDecision}
use fastapi_sample.ProbeCache.Envelope.{
  ProbeCachePolicy, Envelope, valid_last_good, is_some, failed_with_last_good, Layer, redis,
  local_fallback, budget_metadata, ProbeCacheResult, Served, result_from_envelope,
}
use fastapi_sample.ProbeCache.Store.{Instant, CacheWorld, Client}
use fastapi_sample.ProbeCache.Peer.{Poll}
use fastapi_sample.ProbeCache.Origin.{Loader, Recording}

-- One call of `get_or_refresh_probe`: its arguments, the client it is given or resolves, the token
-- of `secrets.token_hex(12)` and the circuit's, and what the call reads of the world around it.
-- Between two suspensions, the clocks are read once: `stored` is the time of the new record, `replied`
-- that of the reply, once Redis has taken the record or not. `waiting` is what the other tasks do while the
-- call waits for the process's lock of the key; the rounds of the wait for a peer are `polls`.
pub record Call : Type 0 where
  pub key : String
  pub policy : ProbeCachePolicy
  pub is_success : String → Bool
  pub is_provider_success : Option (String → Bool)
  pub loader : Loader
  pub client : Option Client
  pub token : String
  pub circuit_token : String
  pub entered : Instant
  pub waiting : CacheWorld → CacheWorld
  pub locked : Instant
  pub read : Instant
  pub polls : ℕ → Poll
  pub polled : Instant
  pub decided : ℕ
  pub admitted : ℕ
  pub recording : Recording
  pub stored : Instant
  pub replied : ℕ

-- The loader's exception, raised again, or the `RuntimeError` of a call without a result.
pub data Reply : Type 0 where
  answered : ProbeCacheResult → Reply
  loader_raised : Reply
  no_result : Reply

abbrev layer_of : Bool → Layer
layer_of available = if available then redis else local_fallback

abbrev pub from_cache : Bool → Bool → Bool → Served
from_cache available stale serve = record {
  layer = layer_of available;
  cached = true;
  stale = stale;
  serve_last_good = serve;
  refresh_in_progress = false;
  redis_available = available;
}

abbrev pub from_origin : Bool → Bool → Served
from_origin shared stale = record {
  layer = if shared then Layer.origin else local_fallback;
  cached = false;
  stale = stale;
  serve_last_good = false;
  refresh_in_progress = false;
  redis_available = shared;
}

unfoldable pub with_circuit : CircuitDecision → ℕ → ProbeCacheResult → ProbeCacheResult
with_circuit decision now r = record {
  value = r.value;
  metadata = record {
    cache_layer = r.metadata.cache_layer;
    cached = r.metadata.cached;
    stale = r.metadata.stale;
    refresh_in_progress = r.metadata.refresh_in_progress;
    redis_available = r.metadata.redis_available;
    cache_age = r.metadata.cache_age;
    circuit_breaker = circuit_metadata decision true now;
    provider_rate_budget = r.metadata.provider_rate_budget;
  };
  last_good = r.last_good;
}

unfoldable pub with_budget : ProviderProbeBudgetDecision → ProbeCacheResult → ProbeCacheResult
with_budget decision r = record {
  value = r.value;
  metadata = record {
    cache_layer = r.metadata.cache_layer;
    cached = r.metadata.cached;
    stale = r.metadata.stale;
    refresh_in_progress = r.metadata.refresh_in_progress;
    redis_available = r.metadata.redis_available;
    cache_age = r.metadata.cache_age;
    circuit_breaker = r.metadata.circuit_breaker;
    provider_rate_budget = budget_metadata decision true;
  };
  last_good = r.last_good;
}

unfoldable pub circuit_suppressed_result :
    CircuitDecision → Envelope → ProbeCachePolicy → Bool → ℕ → Option ProbeCacheResult
circuit_suppressed_result decision last policy available now =
    let failed = failed_with_last_good last policy now in
    if decision.allowed
    then none
    else elim (result_from_envelope last policy (from_cache available failed failed) now) [
      | none ↦ none
      | some r ↦ some (with_circuit decision now r)
    ]

unfoldable pub rate_suppressed_result :
    ProviderProbeBudgetDecision → Envelope → ProbeCachePolicy → Bool → ℕ → Option ProbeCacheResult
rate_suppressed_result decision last policy available now =
    let good = is_some (valid_last_good last now policy.stale_ttl) in
    if decision.allowed
    then none
    else elim (result_from_envelope last policy (from_cache available true good) now) [
      | none ↦ none
      | some r ↦ some (with_budget decision r)
    ]
