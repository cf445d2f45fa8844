-- ===== src/ProbeCache/Tests.antt =====
-- nabla/api/external_probe_cache.py: concrete calls.
use fastapi_sample.Prelude.{
  String, ℕ, suc, ◌+◌, ◌*◌, ◌≡◌, ◌≢◌, refl, Bool, true, false, ◌==◌, [], ◌∷◌, Option, none, some,
  arith, lower, strip, lstrip, rstrip, before,
}
use fastapi_sample.Prelude.Dict.{lookup, insert}
use fastapi_sample.ProviderCircuit.State.{
  CircuitBreakerPolicy, World, Link, policy_of, is_named, merge_states,
}
use fastapi_sample.ProviderCircuit.Gate.{
  no_provider, local_state, remote_state, load_state, claim_half_open, lock_half_open, decide_probe,
  before_provider_probe, acquire_lock,
}
use fastapi_sample.ProviderCircuit.Outcome.{record_provider_probe_outcome, release_provider_probe}
use fastapi_sample.ProviderCircuit.Metadata.{outcome_metadata}
use fastapi_sample.ProbeRate.{unlimited, rate_policy_of, admit_provider_probe}
use fastapi_sample.ProbeCache.Envelope.{
  ProbeCachePolicy, Envelope, new_record, is_true, is_false, is_retained, valid_last_good, ttl_of,
  is_fresh, current_fresh, failed_with_last_good, metadata, age_of, value_of, served_value,
  result_from_envelope, cached_result, l1_hot_ttl, ProbeCacheResult, Layer, l1, origin,
  is_valid_cache_policy,
}
use fastapi_sample.ProbeCache.Store.{
  Instant, CacheWorld, Client, acquire_refresh, l1_get, l1_put, hit, observe,
}
use fastapi_sample.ProbeCache.Lookup.{
  l1_hot_result, redis_cached_result, local_result, cached_lookup,
}
use fastapi_sample.ProbeCache.Peer.{
  Poll, wait_for_peer, peer_rounds, acquire_refresh_lock, release_refresh_lock,
}
use fastapi_sample.ProbeCache.Origin.{
  Loader, provider_success, finish_origin, load_origin, new_envelope, store_refreshed_envelope,
}
use fastapi_sample.ProbeCache.Calls.{
  Call, answered, circuit_suppressed_result, rate_suppressed_result,
}
use fastapi_sample.ProbeCache.Refresh.{
  answer_origin, ask_origin, refresh_from_origin, release_all, guarded_refresh, locked_refresh,
  get_or_refresh_probe,
}
use fastapi_sample.ProbeCache.Freshness.{IsCurrent, is_suppressed}
use fastapi_sample.ProbeCache.Answers.{IsRead, get_or_refresh_probe-IsCurrent}
use fastapi_sample.ProbeCache.Admission.{guarded_refresh-forbidden}
use fastapi_sample.ProbeCache.Loaders.{with_loader, get_or_refresh_probe-with_loader}
use fastapi_sample.ProbeCache.Waiting.{is_settled, wait_for_peer-is_settled}
use fastapi_sample.ProbeCache.Releases.{guarded_refresh-free, locked_refresh-unlocked}
use fastapi_sample.ProbeCache.Kept.{ask_origin-last_good}
use fastapi_sample.ProbeCache.Again.{get_or_refresh_probe-again}

abbrev policy : ProbeCachePolicy
policy = record {
  success_ttl = 60_000_000;
  failure_ttl = 10_000_000;
  stale_ttl = 600_000_000;
  lock_ttl = 15;
  wait_timeout = 600_000;
  poll_interval = 100_000;
}

abbrev at : ℕ → Instant
at n = record { wall = n; mono = n }

abbrev silent : ℕ → Poll
silent i = record { at = at (suc i * 100_000); answer = some none }

abbrev good : Link
good = record { read_up = true; write_up = true; lock_up = true }

abbrev client : Client
client = record {
  read_up = true;
  write_up = true;
  lock_up = true;
  release_up = true;
  counter_up = true;
  circuit_before = good;
  circuit_after = good;
  circuit_release = good;
}

abbrev answers : Option String → Loader
answers answer w = (answer, w)

abbrev call : String → Loader → ℕ → Call
call key loader now = record {
  key = key;
  policy = policy;
  is_success = λ v. v == "up";
  is_provider_success = none;
  loader = loader;
  client = some client;
  token = "refresh";
  circuit_token = "circuit";
  entered = at now;
  waiting = λ w. w;
  locked = at now;
  read = at now;
  polls = silent;
  polled = at now;
  decided = now;
  admitted = now;
  recording = record { failed_at = now; reported_at = now; fraction = 0 };
  stored = at now;
  replied = now;
}

abbrev circuits : ℕ → World
circuits failures = record {
  local_states = ("truenas", record { failures = failures; open_until = 100 }) ∷ [];
  half_open_in_progress = [];
  redis = record { circuits = []; locks = [] };
  metrics = [];
}

abbrev empty : World → CacheWorld
empty circuit = record {
  circuit = circuit;
  counters = record { local = []; remote = [] };
  l1_entries = [];
  probes = [];
  refresh_locks = [];
  metrics = [];
}

abbrev first : Call
first = call "site:api" (answers (some "up")) 1000

abbrev next : Call
next = call "site:api" (answers none) 2000

abbrev before_first : CacheWorld
before_first = empty (circuits 0)

abbrev result : Bool → Layer → ℕ → ProbeCacheResult
result cached layer age = record {
  value = "up";
  metadata = record {
    cache_layer = layer;
    cached = cached;
    stale = false;
    refresh_in_progress = false;
    redis_available = true;
    cache_age = some age;
    circuit_breaker = none;
    provider_rate_budget = none;
  };
  last_good = some "up";
}

first_answer : (get_or_refresh_probe first before_first).0 ≡ answered (result false origin 0)
unfolding get_or_refresh_probe l1_hot_result l1_get cached_lookup redis_cached_result local_result
    locked_refresh acquire_refresh_lock acquire_refresh guarded_refresh before_provider_probe
    policy_of lower strip lstrip rstrip before circuit_suppressed_result refresh_from_origin
    admit_provider_probe rate_policy_of rate_suppressed_result ask_origin load_origin finish_origin
    provider_success record_provider_probe_outcome outcome_metadata answer_origin new_envelope
    store_refreshed_envelope l1_put insert lookup result_from_envelope valid_last_good is_retained
    value_of served_value metadata age_of
first_answer = refl

abbrev after_first : CacheWorld
after_first = (get_or_refresh_probe first before_first).1

next_answer : (get_or_refresh_probe next after_first).0 ≡ answered (result true l1 1000)
unfolding get_or_refresh_probe l1_hot_result l1_get cached_lookup redis_cached_result local_result
    locked_refresh acquire_refresh_lock acquire_refresh guarded_refresh before_provider_probe
    policy_of lower strip lstrip rstrip before circuit_suppressed_result refresh_from_origin
    admit_provider_probe rate_policy_of rate_suppressed_result ask_origin load_origin finish_origin
    provider_success record_provider_probe_outcome outcome_metadata answer_origin new_envelope
    store_refreshed_envelope l1_put insert lookup result_from_envelope valid_last_good is_retained
    value_of served_value metadata age_of release_all release_provider_probe release_refresh_lock
    observe hit l1_hot_ttl ttl_of is_true cached_result current_fresh is_fresh failed_with_last_good
    is_false
next_answer = refl

get_or_refresh_probe-IsCurrent_example :
    IsCurrent (IsRead next after_first) policy (result true l1 1000)
unfolding is_suppressed
get_or_refresh_probe-IsCurrent_example =
    get_or_refresh_probe-IsCurrent next after_first (result true l1 1000) next_answer refl refl refl

get_or_refresh_probe-with_loader_example :
    get_or_refresh_probe (with_loader (answers (some "other")) next) after_first
    ≡ get_or_refresh_probe next after_first
get_or_refresh_probe-with_loader_example =
    get_or_refresh_probe-with_loader (answers (some "other")) next after_first (result true l1 1000)
      next_answer refl

get_or_refresh_probe-again_example :
    (s : ProbeCacheResult) × ((get_or_refresh_probe next after_first).0 ≡ answered s)
    × (s.value ≡ "up")
    × (s.metadata.cache_layer ≡ l1)
get_or_refresh_probe-again_example =
    get_or_refresh_probe-again first next before_first after_first (result false origin 0)
      first_answer refl refl refl refl (omega arith) (omega arith) (omega arith)

abbrev failed_envelope : Envelope
failed_envelope = record {
  current = some (new_record "down" false 20);
  last_good = some (new_record "up" true 10);
  circuit_breaker = none;
}

abbrev truenas : Option String → ℕ → Call
truenas answer now = call "truenas:api" (answers answer) now

guarded_refresh-forbidden_example :
    (r : ProbeCacheResult) × ((guarded_refresh
        (truenas (some "up") 50)
        (some client)
        false
        true
        failed_envelope
        (empty (circuits 2))).0
      ≡ answered r)
    × (r.metadata.cached ≡ true)
unfolding value_of before_provider_probe policy_of lower strip lstrip rstrip before load_state
    local_state remote_state lookup insert merge_states decide_probe claim_half_open lock_half_open
guarded_refresh-forbidden_example =
    guarded_refresh-forbidden (truenas (some "up") 50) (some client) false true failed_envelope
      (empty (circuits 2)) "down" refl refl

abbrev truenas_policy : CircuitBreakerPolicy
truenas_policy = record {
  failure_threshold = 2;
  base_backoff = 180_000_000;
  max_backoff = 900_000_000;
  jitter_ratio = 10;
  half_open_lock_ttl = 20;
}

guarded_refresh-free_example :
    is_named "truenas"
      (guarded_refresh
        (truenas none 1000)
        (some client)
        false
        true
        failed_envelope
        (empty (circuits 2))).1.circuit.half_open_in_progress
    ≡ false
unfolding before_provider_probe policy_of lower strip lstrip rstrip before load_state local_state
    remote_state lookup insert merge_states decide_probe claim_half_open lock_half_open acquire_lock
guarded_refresh-free_example =
    guarded_refresh-free (truenas none 1000) (some client) false true failed_envelope
      (empty (circuits 2)) "truenas" truenas_policy refl refl

locked_refresh-unlocked_example :
    lookup "truenas:api"
      (locked_refresh
        (truenas none 1000)
        (some client)
        true
        failed_envelope
        (empty (circuits 2))).1.refresh_locks
    ≢ some "refresh"
unfolding acquire_refresh_lock acquire_refresh lookup
locked_refresh-unlocked_example =
    locked_refresh-unlocked (truenas none 1000) client failed_envelope (empty (circuits 2)) refl
      refl

abbrev stale_reply : ProbeCacheResult
stale_reply = record {
  value = "down";
  metadata = record {
    cache_layer = origin;
    cached = false;
    stale = true;
    refresh_in_progress = false;
    redis_available = true;
    cache_age = some 0;
    circuit_breaker = none;
    provider_rate_budget = none;
  };
  last_good = some "up";
}

ask_origin-last_good_example :
    (stale_reply.last_good ≡ some "up")
    × (stale_reply.metadata.stale ≡ true)
    × ((kept : Envelope) × (lookup "site:api"
            (ask_origin
              (call "site:api" (answers (some "down")) 1000)
              (some client)
              true
              failed_envelope
              no_provider
              unlimited
              before_first).1.l1_entries
          ≡ some (kept, 1000))
        × (valid_last_good kept 1000 600_000_000 ≡ some (new_record "up" true 10)))
unfolding ask_origin load_origin finish_origin provider_success record_provider_probe_outcome
    outcome_metadata answer_origin new_envelope store_refreshed_envelope l1_put insert lookup
    result_from_envelope valid_last_good is_retained value_of served_value metadata age_of
ask_origin-last_good_example =
    ask_origin-last_good (call "site:api" (answers (some "down")) 1000) (some client) true
      failed_envelope no_provider unlimited before_first stale_reply (new_record "up" true 10) refl
      refl refl

wait_for_peer-is_settled_example :
    is_settled policy (wait_for_peer (peer_rounds policy) silent 0 (0 + 600_000) policy 0) ≡ true
unfolding is_valid_cache_policy
wait_for_peer-is_settled_example =
    wait_for_peer-is_settled silent policy 0 refl (omega arith) (λ j. omega arith)
