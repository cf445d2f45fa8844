-- ===== src/ProbeCache/Store.antt =====
-- nabla/api/external_probe_cache.py: the state of the process and what it shares through Redis;
-- `read_envelope`, `write_envelope`, `acquire_lock` and `release_lock` of
-- nabla/api/external_probe_cache_redis.py. The expiry of a key in Redis is left out: every reader
-- tests the windows again, and a lock's expiry only lets another replica in.
use fastapi_sample.Prelude.{
  String, ℕ, ◌-◌, max, Bool, true, false, ◌==◌, List, ◌∷◌, Option, none, some, ltb, leb,
  if◌then◌else◌,
}
use fastapi_sample.Prelude.Dict.{lookup, insert, delete}
use fastapi_sample.ProviderCircuit.State.{World, Link, Value, whole, is_schema}
use fastapi_sample.ProbeRate.{Counters}
use fastapi_sample.ProbeCache.Envelope.{
  ProbeCachePolicy, Envelope, l1_hot_ttl, Layer, l1, redis, local_fallback, ProbeCacheResult,
}

-- The two clocks: `time.time()` and `time.monotonic()`.
pub record Instant : Type 0 where
  pub wall : ℕ
  pub mono : ℕ

-- What Redis returns for the key of a probe; `json` is the third party's parser.
pub data Document : Type 0 where
  not_text not_json not_object : Document
  document : Option Value → Envelope → Document

unfoldable pub read_envelope : Document → Option Envelope
read_envelope (document schema envelope) = if is_schema schema then some envelope else none
read_envelope _ = none

-- The text of `write_envelope`
unfoldable pub write_envelope : Envelope → Document
write_envelope envelope = document (some (whole 1)) envelope

pub data CacheOutcome : Type 0 where
  l1_hit redis_hit local_hit stale_served miss redis_degraded : CacheOutcome

-- The calls of probe_metrics.
pub data CacheMetric : Type 0 where
  cache_outcome : CacheOutcome → CacheMetric
  origin_refresh : CacheMetric
  origin_started origin_finished budget_rejection : Option String → CacheMetric
  origin_duration : Option String → Bool → CacheMetric
  budget_utilization : Option String → ℕ → ℕ → CacheMetric

-- A process: its circuits, its budgets, its L1 with the monotonic time of each entry, its metrics;
-- and what the replicas share beside the circuits and the counters: the envelopes and the locks.
pub record CacheWorld : Type 0 where
  pub circuit : World
  pub counters : Counters
  pub l1_entries : List (String × (Envelope × ℕ))
  pub probes : List (String × Document)
  pub refresh_locks : List (String × String)
  pub metrics : List CacheMetric

-- A client, with the commands of one call that get through.
pub record Client : Type 0 where
  pub read_up : Bool
  pub write_up : Bool
  pub lock_up : Bool
  pub release_up : Bool
  pub counter_up : Bool
  pub circuit_before : Link
  pub circuit_after : Link
  pub circuit_release : Link

abbrev pub set_circuit : World → CacheWorld → CacheWorld
set_circuit c w = record {
  circuit = c;
  counters = w.counters;
  l1_entries = w.l1_entries;
  probes = w.probes;
  refresh_locks = w.refresh_locks;
  metrics = w.metrics;
}

abbrev pub set_counters : Counters → CacheWorld → CacheWorld
set_counters c w = record {
  circuit = w.circuit;
  counters = c;
  l1_entries = w.l1_entries;
  probes = w.probes;
  refresh_locks = w.refresh_locks;
  metrics = w.metrics;
}

abbrev pub set_l1 : List (String × (Envelope × ℕ)) → CacheWorld → CacheWorld
set_l1 entries w = record {
  circuit = w.circuit;
  counters = w.counters;
  l1_entries = entries;
  probes = w.probes;
  refresh_locks = w.refresh_locks;
  metrics = w.metrics;
}

abbrev pub set_probes : List (String × Document) → CacheWorld → CacheWorld
set_probes probes w = record {
  circuit = w.circuit;
  counters = w.counters;
  l1_entries = w.l1_entries;
  probes = probes;
  refresh_locks = w.refresh_locks;
  metrics = w.metrics;
}

abbrev pub set_locks : List (String × String) → CacheWorld → CacheWorld
set_locks locks w = record {
  circuit = w.circuit;
  counters = w.counters;
  l1_entries = w.l1_entries;
  probes = w.probes;
  refresh_locks = locks;
  metrics = w.metrics;
}

abbrev pub emit : CacheMetric → CacheWorld → CacheWorld
emit m w = record {
  circuit = w.circuit;
  counters = w.counters;
  l1_entries = w.l1_entries;
  probes = w.probes;
  refresh_locks = w.refresh_locks;
  metrics = m ∷ w.metrics;
}

-- SET with NX, and the script that deletes the key if it holds the token.
unfoldable pub acquire_refresh :
    String → String → List (String × String) → Bool × List (String × String)
acquire_refresh key token locks = elim (lookup key locks) [
  | none ↦ (true, insert key token locks)
  | some _ ↦ (false, locks)
]

unfoldable pub release_refresh : String → String → List (String × String) → List (String × String)
release_refresh key token locks = elim (lookup key locks) [
  | none ↦ locks
  | some held ↦ if held == token then delete key locks else locks
]

abbrev retention : ProbeCachePolicy → ℕ
retention policy = max (max policy.success_ttl policy.failure_ttl) policy.stale_ttl

-- The retained envelope, whether it may bypass Redis, and the state without an entry that is too
-- old.
unfoldable pub l1_get :
    String → ProbeCachePolicy → ℕ → CacheWorld → (Option Envelope × Bool) × CacheWorld
l1_get key policy mono w = elim (lookup key w.l1_entries) [
  | none ↦ ((none, false), w)
  | some (envelope, stored_at) ↦
      let age = mono - stored_at in
      if leb (retention policy) age
      then ((none, false), set_l1 (delete key w.l1_entries) w)
      else ((some envelope, ltb age (l1_hot_ttl envelope policy)), w)
]

unfoldable pub l1_put : String → Envelope → ℕ → CacheWorld → CacheWorld
l1_put key envelope mono w = set_l1 (insert key (envelope, mono) w.l1_entries) w

-- `_observe_cache_result`: what it records.
unfoldable pub hit : Layer → CacheWorld → CacheWorld
hit l1 w = emit (cache_outcome l1_hit) w
hit redis w = emit (cache_outcome redis_hit) w
hit local_fallback w = emit (cache_outcome local_hit) w
hit _ w = w

unfoldable pub observe : ProbeCacheResult → CacheWorld → CacheWorld
observe r w =
    let v = if r.metadata.cached then hit r.metadata.cache_layer w else w in
    if r.metadata.stale then emit (cache_outcome stale_served) v else v
