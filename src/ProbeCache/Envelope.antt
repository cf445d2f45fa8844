-- ===== src/ProbeCache/Envelope.antt =====
-- nabla/api/external_probe_cache.py: the policies, the cached envelopes and the results made of
-- them. `now` is `time.time()`.
use fastapi_sample.Prelude.{
  String, ℕ, ◌+◌, ◌-◌, min, Bool, true, false, not, ◌&&◌, Option, none, some, ltb, leb,
  if◌then◌else◌,
}
use fastapi_sample.ProviderCircuit.Metadata.{CircuitMetadata}
use fastapi_sample.ProbeRate.{ProviderProbeBudgetDecision, remaining}

pub record ProbeCachePolicy : Type 0 where
  pub success_ttl : ℕ
  pub failure_ttl : ℕ
  pub stale_ttl : ℕ
  pub lock_ttl : ℕ
  pub wait_timeout : ℕ
  pub poll_interval : ℕ

-- `__post_init__` raises for the others.
unfoldable pub is_valid_cache_policy : ProbeCachePolicy → Bool
is_valid_cache_policy policy =
    leb 1 policy.lock_ttl
    && ltb 0 policy.poll_interval
    && not (ltb 0 policy.wait_timeout && ltb policy.wait_timeout policy.poll_interval)

-- A record of an envelope. What another replica wrote may lack a field or have one of another type,
-- which is none; a value is the text of its dictionary, a time is not negative.
pub record Evidence : Type 0 where
  pub value : Option String
  pub success : Option Bool
  pub fetched_at : Option ℕ

pub record Envelope : Type 0 where
  pub current : Option Evidence
  pub last_good : Option Evidence
  pub circuit_breaker : Option CircuitMetadata

-- `{"schema": 1}`
abbrev pub empty_envelope : Envelope
empty_envelope = record { current = none; last_good = none; circuit_breaker = none }

-- `_record`
abbrev pub new_record : String → Bool → ℕ → Evidence
new_record value success fetched_at = record {
  value = some value;
  success = some success;
  fetched_at = some fetched_at;
}

unfoldable pub is_true : Option Bool → Bool
is_true none = false
is_true (some b) = b

unfoldable pub is_false : Option Bool → Bool
is_false none = false
is_false (some b) = not b

-- A record with a value and a time, from the window that starts at that time.
unfoldable pub is_retained : Evidence → ℕ → ℕ → Bool
is_retained e now stale_ttl = elim e.value [
  | none ↦ false
  | some _ ↦ elim e.fetched_at [ none ↦ false | some t ↦ leb now (t + stale_ttl) ]
]

unfoldable pub valid_last_good : Envelope → ℕ → ℕ → Option Evidence
valid_last_good envelope now stale_ttl = elim envelope.last_good [
  | none ↦ none
  | some candidate ↦ if is_retained candidate now stale_ttl then some candidate else none
]

unfoldable pub ttl_of : Evidence → ProbeCachePolicy → ℕ
ttl_of e policy = if is_true e.success then policy.success_ttl else policy.failure_ttl

unfoldable pub is_fresh : Evidence → ℕ → ProbeCachePolicy → Bool
is_fresh e now policy = elim e.value [
  | none ↦ false
  | some _ ↦ elim e.fetched_at [ none ↦ false | some t ↦ ltb now (t + ttl_of e policy) ]
]

unfoldable pub current_fresh : Envelope → ℕ → ProbeCachePolicy → Bool
current_fresh envelope now policy = elim envelope.current [
  | none ↦ false
  | some e ↦ is_fresh e now policy
]

abbrev pub is_some {ℓ} : {A : Type ℓ} → Option A → Bool
is_some none = false
is_some (some _) = true

unfoldable pub failed_with_last_good : Envelope → ProbeCachePolicy → ℕ → Bool
failed_with_last_good envelope policy now = elim envelope.current [
  | none ↦ false
  | some e ↦ is_false e.success && is_some (valid_last_good envelope now policy.stale_ttl)
]

pub data Layer : Type 0 where
  l1 redis local_fallback origin : Layer

-- What a reply tells of a rate budget: the decision, what remains of it, and the suppression.
pub record BudgetMetadata : Type 0 where
  pub decision : ProviderProbeBudgetDecision
  pub remaining : ℕ
  pub origin_suppressed : Bool

unfoldable pub budget_metadata : ProviderProbeBudgetDecision → Bool → Option BudgetMetadata
budget_metadata d suppressed = elim (remaining d) [
  | none ↦ none
  | some n ↦ some (record { decision = d; remaining = n; origin_suppressed = suppressed })
]

-- The age is not yet rounded.
pub record ProbeMetadata : Type 0 where
  pub cache_layer : Layer
  pub cached : Bool
  pub stale : Bool
  pub refresh_in_progress : Bool
  pub redis_available : Bool
  pub cache_age : Option ℕ
  pub circuit_breaker : Option CircuitMetadata
  pub provider_rate_budget : Option BudgetMetadata

pub record ProbeCacheResult : Type 0 where
  pub value : String
  pub metadata : ProbeMetadata
  pub last_good : Option String

unfoldable pub age_of : Option Evidence → ℕ → Option ℕ
age_of none now = none
age_of (some e) now = elim e.fetched_at [ none ↦ none | some t ↦ some (now - t) ]

-- The keyword arguments of a result.
pub record Served : Type 0 where
  pub layer : Layer
  pub cached : Bool
  pub stale : Bool
  pub serve_last_good : Bool
  pub refresh_in_progress : Bool
  pub redis_available : Bool

unfoldable pub metadata : Envelope → Served → ℕ → ProbeMetadata
metadata envelope s now = record {
  cache_layer = s.layer;
  cached = s.cached;
  stale = s.stale;
  refresh_in_progress = s.refresh_in_progress;
  redis_available = s.redis_available;
  cache_age = age_of envelope.current now;
  circuit_breaker = envelope.circuit_breaker;
  provider_rate_budget = none;
}

unfoldable pub value_of : Option Evidence → Option String
value_of none = none
value_of (some e) = e.value

unfoldable pub served_value : Bool → Option String → Option String → Option String
served_value serve none current = current
served_value serve (some good) current = if serve then some good else current

unfoldable pub result_from_envelope :
    Envelope → ProbeCachePolicy → Served → ℕ → Option ProbeCacheResult
result_from_envelope envelope policy s now =
    let good = value_of (valid_last_good envelope now policy.stale_ttl) in
    elim (served_value s.serve_last_good good (value_of envelope.current)) [
      | none ↦ none
      | some v ↦ some (record { value = v; metadata = metadata envelope s now; last_good = good })
    ]

-- `_cached_result` for an envelope that is there.
unfoldable pub cached_result :
    Envelope → ProbeCachePolicy → Layer → Bool → ℕ → Option ProbeCacheResult
cached_result envelope policy layer redis_available now =
    if current_fresh envelope now policy
    then result_from_envelope envelope policy
        (record {
          layer = layer;
          cached = true;
          stale = failed_with_last_good envelope policy now;
          serve_last_good = false;
          refresh_in_progress = false;
          redis_available = redis_available;
        })
        now
    else none

unfoldable pub l1_hot_ttl : Envelope → ProbeCachePolicy → ℕ
l1_hot_ttl envelope policy = elim envelope.current [
  | none ↦ min 5_000_000 policy.failure_ttl
  | some e ↦ min 5_000_000 (ttl_of e policy)
]
