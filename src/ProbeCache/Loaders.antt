-- ===== src/ProbeCache/Loaders.antt =====
-- nabla/api/external_probe_cache.py: a cached answer does not depend on the loader.
use fastapi_sample.Prelude.{◌≡◌, Bool, true, false, Option, none, some, Option-cases, arith}
use fastapi_sample.ProviderCircuit.Gate.{CircuitDecision, before_provider_probe}
use fastapi_sample.ProbeRate.{admit_provider_probe}
use fastapi_sample.ProbeCache.Envelope.{Envelope, ProbeCacheResult}
use fastapi_sample.ProbeCache.Store.{
  CacheWorld, Client, set_circuit, set_counters, emit, cache_outcome, miss, budget_utilization,
}
use fastapi_sample.ProbeCache.Lookup.{l1_hot_result, cached_lookup}
use fastapi_sample.ProbeCache.Peer.{acquire_refresh_lock}
use fastapi_sample.ProbeCache.Origin.{Loader}
use fastapi_sample.ProbeCache.Calls.{
  Call, answered, circuit_suppressed_result, rate_suppressed_result,
}
use fastapi_sample.ProbeCache.Refresh.{
  counter_link, refresh_from_origin, link_before, guarded_refresh, locked_refresh, last_envelope,
  release_all, get_or_refresh_probe,
}
use fastapi_sample.ProbeCache.Answers.{ask_origin-cached}

-- The same call with another loader.
abbrev pub with_loader : Loader → Call → Call
with_loader loader c = record {
  key = c.key;
  policy = c.policy;
  is_success = c.is_success;
  is_provider_success = c.is_provider_success;
  loader = loader;
  client = c.client;
  token = c.token;
  circuit_token = c.circuit_token;
  entered = c.entered;
  waiting = c.waiting;
  locked = c.locked;
  read = c.read;
  polls = c.polls;
  polled = c.polled;
  decided = c.decided;
  admitted = c.admitted;
  recording = c.recording;
  stored = c.stored;
  replied = c.replied;
}

refresh_from_origin-with_loader :
    (loader : Loader) (c : Call) (client : Option Client) (available : Bool) (last : Envelope)
    (d : CircuitDecision) (w : CacheWorld) (r : ProbeCacheResult)
    → (refresh_from_origin c client available last d w).0 ≡ answered r
    → r.metadata.cached ≡ true
    → refresh_from_origin (with_loader loader c) client available last d w
      ≡ refresh_from_origin c client available last d w
unfolding refresh_from_origin
refresh_from_origin-with_loader loader c client available last d w r e cached =
    let (rate, counters) =
      admit_provider_probe c.key (counter_link client) none available c.admitted w.counters in
    let v =
      emit (budget_utilization rate.provider rate.count rate.max_requests)
        (set_counters counters w) in
    ground (
      arith,
      Option-cases (rate_suppressed_result rate last c.policy available c.admitted),
      ask_origin-cached c client available last d rate v r,
    )

guarded_refresh-with_loader :
    (loader : Loader) (c : Call) (client : Option Client) (acquired available : Bool)
    (last : Envelope) (w : CacheWorld) (r : ProbeCacheResult)
    → (guarded_refresh c client acquired available last w).0 ≡ answered r
    → r.metadata.cached ≡ true
    → guarded_refresh (with_loader loader c) client acquired available last w
      ≡ guarded_refresh c client acquired available last w
unfolding guarded_refresh release_all
guarded_refresh-with_loader loader c client acquired available last w r e cached =
    let (d, circuit) =
      before_provider_probe c.key (link_before client) c.decided c.circuit_token w.circuit in
    let u = emit (cache_outcome miss) (set_circuit circuit w) in
    ground (
      arith,
      Option-cases (circuit_suppressed_result d last c.policy available c.decided),
      refresh_from_origin-with_loader loader c client available last d u r,
    )

locked_refresh-with_loader :
    (loader : Loader) (c : Call) (client : Option Client) (available : Bool) (last : Envelope)
    (w : CacheWorld) (r : ProbeCacheResult)
    → (locked_refresh c client available last w).0 ≡ answered r
    → r.metadata.cached ≡ true
    → locked_refresh (with_loader loader c) client available last w
      ≡ locked_refresh c client available last w
unfolding locked_refresh
locked_refresh-with_loader loader c none available last w r e cached =
    guarded_refresh-with_loader loader c none false available last w r e cached
locked_refresh-with_loader loader c (some client) false last w r e cached =
    guarded_refresh-with_loader loader c (some client) false false last w r e cached
locked_refresh-with_loader loader c (some client) true last w r e cached =
    let (a, v) =
      acquire_refresh_lock client c.key c.token last c.policy c.read c.polls c.polled w in
    ground (
      arith,
      Option-cases a.result,
      guarded_refresh-with_loader loader c (some client) a.acquired a.redis_available last v r,
    )

-- A cached answer never asks the loader: with any other loader the call gives the same reply and
-- leaves the same state.
pub get_or_refresh_probe-with_loader :
    (loader : Loader) (c : Call) (w : CacheWorld) (r : ProbeCacheResult)
    → (get_or_refresh_probe c w).0 ≡ answered r
    → r.metadata.cached ≡ true
    → get_or_refresh_probe (with_loader loader c) w ≡ get_or_refresh_probe c w
unfolding get_or_refresh_probe
get_or_refresh_probe-with_loader loader c w r e cached =
    let ((envelope, hot), v) = l1_hot_result c.key c.policy c.entered w in
    let (f, u) = cached_lookup c.key c.policy c.client c.locked c.read (c.waiting v) in
    ground (
      arith,
      Option-cases (l1_hot_result c.key c.policy c.entered w).0.1,
      Option-cases f.result,
      locked_refresh-with_loader loader c c.client f.redis_available (last_envelope f.envelope) u r,
    )
