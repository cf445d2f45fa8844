-- ===== src/ProbeCache/Refresh.antt =====
-- nabla/api/external_probe_cache.py: `get_or_refresh_probe`, the suppressions and the reset.
use fastapi_sample.Prelude.{String, Bool, false, [], Option, none, some, if◌then◌else◌}
use fastapi_sample.Prelude.Dict.{delete}
use fastapi_sample.ProviderCircuit.State.{Link}
use fastapi_sample.ProviderCircuit.Gate.{CircuitDecision, before_provider_probe}
use fastapi_sample.ProviderCircuit.Outcome.{
  release_provider_probe, reset_provider_circuit_for_probe_key, reset_provider_circuits,
}
use fastapi_sample.ProbeRate.{
  ProviderProbeBudgetDecision, admit_provider_probe, reset_provider_probe_budgets,
  reset_provider_probe_budget_for_probe_key,
}
use fastapi_sample.ProbeCache.Envelope.{
  Envelope, empty_envelope, valid_last_good, is_some, result_from_envelope,
}
use fastapi_sample.ProbeCache.Store.{
  CacheWorld, Client, cache_outcome, miss, budget_rejection, budget_utilization, set_circuit,
  set_counters, emit, observe,
}
use fastapi_sample.ProbeCache.Lookup.{l1_hot_result, cached_lookup}
use fastapi_sample.ProbeCache.Peer.{acquire_refresh_lock, release_refresh_lock}
use fastapi_sample.ProbeCache.Origin.{Origin, load_origin, new_envelope, store_refreshed_envelope}
use fastapi_sample.ProbeCache.Calls.{
  Call, Reply, answered, loader_raised, no_result, from_origin, circuit_suppressed_result,
  rate_suppressed_result,
}

abbrev pub counter_link : Option Client → Option Bool
counter_link none = none
counter_link (some client) = some client.counter_up

-- The end of `_refresh_from_origin`, once the loader has answered.
unfoldable pub answer_origin :
    Call → Option Client → Bool → Envelope → Origin → CacheWorld → Reply × CacheWorld
answer_origin c client available last got w =
    let envelope = new_envelope last got c.policy c.stored.wall in
    let previous_good = valid_last_good last c.stored.wall c.policy.stale_ttl in
    let (shared, v) = store_refreshed_envelope c.key client available envelope c.stored w in
    elim (result_from_envelope envelope c.policy
      (from_origin shared (if got.success then false else is_some previous_good)) c.replied) [
        | none ↦ (no_result, v)
        | some r ↦ (answered r, observe r v)
      ]

unfoldable pub ask_origin :
    Call
    → Option Client
    → Bool
    → Envelope
    → CircuitDecision
    → ProviderProbeBudgetDecision
    → CacheWorld
    → Reply × CacheWorld
ask_origin c client available last decision rate w =
    let (got, v) =
      load_origin c.loader rate decision c.is_success c.is_provider_success client c.recording w in
    elim got [ none ↦ (loader_raised, v) | some o ↦ answer_origin c client available last o v ]

-- `_refresh_from_origin`; a client that the cache has none of is not resolved here either.
unfoldable pub refresh_from_origin :
    Call → Option Client → Bool → Envelope → CircuitDecision → CacheWorld → Reply × CacheWorld
refresh_from_origin c client available last decision w =
    let (rate, counters) =
      admit_provider_probe c.key (counter_link client) none available c.admitted w.counters in
    let v =
      emit (budget_utilization rate.provider rate.count rate.max_requests)
        (set_counters counters w) in
    elim (rate_suppressed_result rate last c.policy available c.admitted) [
      | some r ↦ (answered r, observe r (emit (budget_rejection rate.provider) v))
      | none ↦ ask_origin c client available last decision rate v
    ]

abbrev pub link_before : Option Client → Option Link
link_before none = none
link_before (some client) = some client.circuit_before

abbrev pub link_release : Option Client → Option Link
link_release none = none
link_release (some client) = some client.circuit_release

-- The `finally` of `get_or_refresh_probe`
unfoldable pub release_all : Call → Option Client → Bool → CircuitDecision → CacheWorld → CacheWorld
release_all c client acquired decision w =
    release_refresh_lock client c.key c.token acquired
      (set_circuit (release_provider_probe decision (link_release client) w.circuit) w)

-- `get_or_refresh_probe` once the cache and the peers have given no result: the circuit, and the
-- refresh.
unfoldable pub guarded_refresh :
    Call → Option Client → Bool → Bool → Envelope → CacheWorld → Reply × CacheWorld
guarded_refresh c client acquired available last w =
    let (decision, circuit) =
      before_provider_probe c.key (link_before client) c.decided c.circuit_token w.circuit in
    let v = set_circuit circuit w in
    let (reply, u) =
      refresh_from_origin c client available last decision (emit (cache_outcome miss) v) in
    elim (circuit_suppressed_result decision last c.policy available c.decided) [
      | some r ↦ (answered r, observe r (release_refresh_lock client c.key c.token acquired v))
      | none ↦ (reply, release_all c client acquired decision u)
    ]

-- The refresh lock, when Redis answered the lookup.
unfoldable pub locked_refresh :
    Call → Option Client → Bool → Envelope → CacheWorld → Reply × CacheWorld
locked_refresh c none available last w = guarded_refresh c none false available last w
locked_refresh c (some client) available last w =
    let (attempt, v) =
      acquire_refresh_lock client c.key c.token last c.policy c.read c.polls c.polled w in
    let alone = guarded_refresh c (some client) false false last w in
    let next = guarded_refresh c (some client) attempt.acquired attempt.redis_available last v in
    if available then elim attempt.result [ some r ↦ (answered r, v) | none ↦ next ] else alone

abbrev pub last_envelope : Option Envelope → Envelope
last_envelope none = empty_envelope
last_envelope (some e) = e

unfoldable pub get_or_refresh_probe : Call → CacheWorld → Reply × CacheWorld
get_or_refresh_probe c w =
    let ((envelope, hot), v) = l1_hot_result c.key c.policy c.entered w in
    let (f, u) = cached_lookup c.key c.policy c.client c.locked c.read (c.waiting v) in
    elim hot [
      | some r ↦ (answered r, v)
      | none ↦ elim f.result [
        | some r ↦ (answered r, u)
        | none ↦ locked_refresh c c.client f.redis_available (last_envelope f.envelope) u
      ]
    ]

-- `reset_probe_cache`, of one key or of all; the locks of the process hold nothing here.
unfoldable pub reset_probe_cache : Option String → Bool → CacheWorld → CacheWorld
reset_probe_cache none client w = record {
  circuit = reset_provider_circuits w.circuit;
  counters = reset_provider_probe_budgets none w.counters;
  l1_entries = [];
  probes = w.probes;
  refresh_locks = w.refresh_locks;
  metrics = w.metrics;
}
reset_probe_cache (some key) client w = record {
  circuit = reset_provider_circuit_for_probe_key key client w.circuit;
  counters = reset_provider_probe_budget_for_probe_key key w.counters;
  l1_entries = delete key w.l1_entries;
  probes = if client then delete key w.probes else w.probes;
  refresh_locks = if client then delete key w.refresh_locks else w.refresh_locks;
  metrics = w.metrics;
}
