-- ===== src/ProviderCircuit/Gate.antt =====
-- nabla/api/provider_circuit.py: `_load_state`, `before_provider_probe` and the decisions. The
-- sections that the process's lock guards are functions of their own.
use fastapi_sample.Prelude.{
  String, ℕ, Bool, true, false, not, ◌==◌, ◌∷◌, Option, none, some, ltb, leb, if◌then◌else◌,
}
use fastapi_sample.Prelude.Dict.{lookup, insert, delete}
use fastapi_sample.ProviderCircuit.State.{
  CircuitBreakerPolicy, ProviderCircuitState, fresh_state, policy_of, provider_name, decode_state,
  merge_states, StateName, opened, half_opened, closed, suppressed, circuit_state, provider_outcome,
  Redis, World, Link, is_named, put_local, set_half_open, set_redis, emit, discard_half_open,
}

-- A probe of a provider without breaker has no provider and no policy.
pub record CircuitDecision : Type 0 where
  pub provider : Option (String × CircuitBreakerPolicy)
  pub state : ProviderCircuitState
  pub allowed : Bool
  pub half_open : Bool
  pub owns_half_open : Bool
  pub redis_available : Bool
  pub client : Bool
  pub lock_token : Option String

abbrev pub has_client : Option Link → Bool
has_client none = false
has_client (some _) = true

unfoldable pub local_state : String → World → ProviderCircuitState
local_state provider w = elim (lookup provider w.local_states) [ none ↦ fresh_state | some s ↦ s ]

-- `_read_remote_state`: `client.get` of a missing key is `None`.
unfoldable pub remote_state : String → Redis → Option ProviderCircuitState
remote_state provider r = elim (lookup provider r.circuits) [
  | none ↦ none
  | some raw ↦ decode_state raw
]

unfoldable pub load_state : String → Option Link → World → (ProviderCircuitState × Bool) × World
load_state provider none w = ((local_state provider w, false), w)
load_state provider (some link) w =
    let merged = merge_states (local_state provider w) (remote_state provider w.redis) in
    if link.read_up
    then ((merged, true), put_local provider merged w)
    else ((local_state provider w, false), w)

-- The guarded test-and-add: whether this task got the half-open probe.
unfoldable pub claim_half_open : String → World → Bool × World
claim_half_open provider w =
    if is_named provider w.half_open_in_progress
    then (false, w)
    else (true, set_half_open (provider ∷ w.half_open_in_progress) w)

-- `acquire_lock`: SET with NX.
unfoldable pub acquire_lock : String → String → Redis → Bool × Redis
acquire_lock key token r = elim (lookup key r.locks) [
  | none ↦ (true, record { circuits = r.circuits; locks = insert key token r.locks })
  | some _ ↦ (false, r)
]

-- `release_lock`: the script deletes the key if it holds the token.
unfoldable pub release_lock : String → String → Redis → Redis
release_lock key token r = elim (lookup key r.locks) [
  | none ↦ r
  | some held ↦
      if held == token then record { circuits = r.circuits; locks = delete key r.locks } else r
]

abbrev pub decide :
    String
    → CircuitBreakerPolicy
    → ProviderCircuitState
    → Bool
    → Bool
    → Bool
    → Bool
    → Bool
    → Option String
    → CircuitDecision
decide provider policy state allowed half_open owns available client token = record {
  provider = some (provider, policy);
  state = state;
  allowed = allowed;
  half_open = half_open;
  owns_half_open = owns;
  redis_available = available;
  client = client;
  lock_token = token;
}

abbrev pub no_provider : CircuitDecision
no_provider = record {
  provider = none;
  state = fresh_state;
  allowed = true;
  half_open = false;
  owns_half_open = false;
  redis_available = false;
  client = false;
  lock_token = none;
}

abbrev pub report_suppressed : String → StateName → World → World
report_suppressed provider name w =
    emit (provider_outcome provider suppressed) (emit (circuit_state provider name) w)

-- The end of `before_provider_probe`, for the task that took the half-open probe; `token` is
-- `secrets.token_hex(12)`. A lock command that raises leaves the task the owner in this process.
unfoldable pub lock_half_open :
    String
    → CircuitBreakerPolicy
    → ProviderCircuitState
    → Bool
    → Option Link
    → String
    → World
    → CircuitDecision × World
lock_half_open provider policy state available none token w = (
  decide provider policy state true true true available false none,
  emit (circuit_state provider half_opened) w,
)
lock_half_open provider policy state available (some link) token w =
    let (acquired, r) = acquire_lock provider token w.redis in
    if not available
    then (
      decide provider policy state true true true available true none,
      emit (circuit_state provider half_opened) w,
    )
    else if not link.lock_up
    then (
      decide provider policy state true true true false true none,
      emit (circuit_state provider half_opened) w,
    )
    else if not acquired
    then (
      decide provider policy state false true false true true none,
      report_suppressed provider half_opened (discard_half_open provider w),
    )
    else (
      decide provider policy state true true true true true (some token),
      emit (circuit_state provider half_opened) (set_redis r w),
    )

-- `before_provider_probe` after the state is loaded.
unfoldable pub decide_probe :
    String
    → CircuitBreakerPolicy
    → ProviderCircuitState
    → Bool
    → Option Link
    → ℕ
    → String
    → World
    → CircuitDecision × World
decide_probe provider policy state available link now token w =
    let (claimed, v) = claim_half_open provider w in
    if ltb now state.open_until
    then (
      decide provider policy state false false false available (has_client link) none,
      report_suppressed provider opened w,
    )
    else if not (leb policy.failure_threshold state.failures)
    then (
      decide provider policy state true false false available (has_client link) none,
      emit (circuit_state provider closed) w,
    )
    else if not claimed
    then (
      decide provider policy state false true false available (has_client link) none,
      report_suppressed provider half_opened w,
    )
    else lock_half_open provider policy state available link token v

unfoldable pub before_provider_probe :
    String → Option Link → ℕ → String → World → CircuitDecision × World
before_provider_probe key link now token w = elim (policy_of (provider_name key)) [
  | none ↦ (no_provider, w)
  | some policy ↦
      let ((state, available), v) = load_state (provider_name key) link w in
      decide_probe (provider_name key) policy state available link now token v
]
