-- ===== src/ProviderCircuit/State.antt =====
-- nabla/api/provider_circuit.py: the policies, the state and what Redis keeps of it; and the Redis
-- keys of nabla/api/external_probe_cache_redis.py that the breakers use.
use fastapi_sample.Prelude.{
  String, ℕ, ◌+◌, ◌-◌, ◌*◌, ◌/◌, ◌^◌, min, max, Bool, false, not, ◌&&◌, ◌||◌, ◌==◌, List, [], ◌∷◌,
  keep, any, Option, none, some, ltb, leb, eqb, if◌then◌else◌, before, strip, lower,
}
use fastapi_sample.Prelude.Dict.{lookup, insert, delete}

pub record CircuitBreakerPolicy : Type 0 where
  pub failure_threshold : ℕ
  pub base_backoff : ℕ
  pub max_backoff : ℕ
  pub jitter_ratio : ℕ
  pub half_open_lock_ttl : ℕ

-- `__post_init__` raises for the others.
unfoldable pub is_valid_policy : CircuitBreakerPolicy → Bool
is_valid_policy policy =
    leb 1 policy.failure_threshold
    && ltb 0 policy.base_backoff
    && ltb 0 policy.max_backoff
    && leb policy.base_backoff policy.max_backoff
    && leb policy.jitter_ratio 100
    && leb 1 policy.half_open_lock_ttl

-- `fraction` is `secrets.randbelow(10_001)`; a sum of microseconds is rounded down.
unfoldable pub backoff : CircuitBreakerPolicy → ℕ → ℕ → ℕ
backoff policy fraction failures =
    let exponent = failures - policy.failure_threshold in
    let base = min policy.max_backoff (policy.base_backoff * 2 ^ exponent) in
    if eqb policy.jitter_ratio 0 || leb policy.max_backoff base
    then base
    else min policy.max_backoff (base + (base * policy.jitter_ratio * fraction) / 1_000_000)

pub record ProviderCircuitState : Type 0 where
  pub failures : ℕ
  pub open_until : ℕ

abbrev pub fresh_state : ProviderCircuitState
fresh_state = record { failures = 0; open_until = 0 }

abbrev truenas_policy : CircuitBreakerPolicy
truenas_policy = record {
  failure_threshold = 2;
  base_backoff = 180_000_000;
  max_backoff = 900_000_000;
  jitter_ratio = 10;
  half_open_lock_ttl = 20;
}

abbrev pfsense_policy : CircuitBreakerPolicy
pfsense_policy = record {
  failure_threshold = 3;
  base_backoff = 180_000_000;
  max_backoff = 900_000_000;
  jitter_ratio = 10;
  half_open_lock_ttl = 20;
}

abbrev cloudflare_policy : CircuitBreakerPolicy
cloudflare_policy = record {
  failure_threshold = 3;
  base_backoff = 90_000_000;
  max_backoff = 600_000_000;
  jitter_ratio = 15;
  half_open_lock_ttl = 20;
}

-- `_PROVIDER_POLICIES.get`
unfoldable pub policy_of : String → Option CircuitBreakerPolicy
policy_of provider =
    if provider == "truenas"
    then some truenas_policy
    else if provider == "pfsense"
    then some pfsense_policy
    else if provider == "cloudflare"
    then some cloudflare_policy
    else none

-- `_provider_for_probe_key`, before its test of membership, which `policy_of` makes.
abbrev pub provider_name : String → String
provider_name key = lower (strip (before b':' key))

-- A JSON value: an integer `-(n + 1)`, a float in millionths.
pub data Value : Type 0 where
  whole : ℕ → Value
  minus : ℕ → Value
  boolean : Bool → Value
  real : ℕ → Value
  minus_real : ℕ → Value
  not_finite : Value
  other : Value

-- What Redis returns for a key; `json` is the third party's parser, and only its result is read.
pub data Raw : Type 0 where
  not_text not_json not_object : Raw
  object : List (String × Value) → Raw

-- In Python `True == 1` and `1.0 == 1`.
unfoldable pub is_schema : Option Value → Bool
is_schema (some (whole n)) = eqb n 1
is_schema (some (boolean b)) = b
is_schema (some (real n)) = eqb n 1_000_000
is_schema _ = false

-- A `bool` is an `int`.
unfoldable pub failures_field : Option Value → Option ℕ
failures_field (some (whole n)) = some n
failures_field (some (boolean b)) = some (if b then 1 else 0)
failures_field _ = none

-- `max(0.0, float(open_until))`
unfoldable pub open_until_field : Option Value → Option ℕ
open_until_field (some (whole n)) = some (n * 1_000_000)
open_until_field (some (minus n)) = some 0
open_until_field (some (boolean b)) = some (if b then 1_000_000 else 0)
open_until_field (some (real n)) = some n
open_until_field (some (minus_real n)) = some 0
open_until_field _ = none

unfoldable pub state_of : Option ℕ → Option ℕ → Option ProviderCircuitState
state_of (some f) (some t) = some (record { failures = f; open_until = t })
state_of _ _ = none

unfoldable pub decode_state : Raw → Option ProviderCircuitState
decode_state (object payload) =
    if is_schema (lookup "schema" payload)
    then state_of (failures_field (lookup "failures" payload))
        (open_until_field (lookup "open_until" payload))
    else none
decode_state _ = none

-- The payload of `_write_remote_state`
unfoldable pub encode_state : ProviderCircuitState → Raw
encode_state state = object (
    ("failures", whole state.failures)
    ∷ ("open_until", real state.open_until)
    ∷ ("schema", whole 1)
    ∷ [])

unfoldable pub merge_states :
    ProviderCircuitState → Option ProviderCircuitState → ProviderCircuitState
merge_states local none = local
merge_states local (some remote) = record {
  failures = max local.failures remote.failures;
  open_until = max local.open_until remote.open_until;
}

pub data StateName : Type 0 where
  opened half_opened closed : StateName

pub data OutcomeName : Type 0 where
  succeeded failed suppressed : OutcomeName

-- The two metrics, `record_circuit_state` and `record_provider_outcome`.
pub data Metric : Type 0 where
  circuit_state : String → StateName → Metric
  provider_outcome : String → OutcomeName → Metric

-- What the replicas share. The expiry of a key is a step of the environment.
pub record Redis : Type 0 where
  pub circuits : List (String × Raw)
  pub locks : List (String × String)

-- One process, and the Redis it uses.
pub record World : Type 0 where
  pub local_states : List (String × ProviderCircuitState)
  pub half_open_in_progress : List String
  pub redis : Redis
  pub metrics : List Metric

-- A client, with whether a read, a write and a lock command get through.
pub record Link : Type 0 where
  pub read_up : Bool
  pub write_up : Bool
  pub lock_up : Bool

-- The sets and the dictionaries of the process.
abbrev pub is_named : String → List String → Bool
is_named name names = any (λ n. n == name) names

abbrev pub put_local : String → ProviderCircuitState → World → World
put_local provider state w = record {
  local_states = insert provider state w.local_states;
  half_open_in_progress = w.half_open_in_progress;
  redis = w.redis;
  metrics = w.metrics;
}

abbrev pub drop_local : String → World → World
drop_local provider w = record {
  local_states = delete provider w.local_states;
  half_open_in_progress = w.half_open_in_progress;
  redis = w.redis;
  metrics = w.metrics;
}

abbrev pub set_half_open : List String → World → World
set_half_open names w = record {
  local_states = w.local_states;
  half_open_in_progress = names;
  redis = w.redis;
  metrics = w.metrics;
}

abbrev pub set_redis : Redis → World → World
set_redis r w = record {
  local_states = w.local_states;
  half_open_in_progress = w.half_open_in_progress;
  redis = r;
  metrics = w.metrics;
}

abbrev pub emit : Metric → World → World
emit m w = record {
  local_states = w.local_states;
  half_open_in_progress = w.half_open_in_progress;
  redis = w.redis;
  metrics = m ∷ w.metrics;
}

unfoldable pub discard_half_open : String → World → World
discard_half_open provider w =
    set_half_open (keep (λ n. not (n == provider)) w.half_open_in_progress) w
