-- ===== src/ProbeRate.antt =====
-- nabla/api/provider_probe_budget.py: how many origin probes a provider gets in a fixed window.
-- Times are whole microseconds. A counter in Redis expires five seconds after its window; a later
-- window has a counter of its own, so that the expiry is left out.
pub mod Windows
pub mod Replicas
mod Tests
use fastapi_sample.Prelude.{
  String, ℕ, zero, suc, ◌+◌, ◌-◌, ◌*◌, ◌/◌, max, Bool, true, false, not, ◌&&◌, ◌||◌, ◌==◌, List, [],
  ◌∷◌, keep, Option, none, some, ltb, leb, eqb, if◌then◌else◌, before, strip, lower,
}

pub record ProviderProbeRatePolicy : Type 0 where
  pub max_requests : ℕ
  pub window_seconds : ℕ

pub record ProviderProbeBudgetDecision : Type 0 where
  pub provider : Option String
  pub allowed : Bool
  pub count : ℕ
  pub max_requests : ℕ
  pub window_seconds : ℕ
  pub redis_shared : Bool

-- `remaining` of `metadata`; a decision without provider or limit has no metadata.
unfoldable pub remaining : ProviderProbeBudgetDecision → Option ℕ
remaining d = elim d.provider [
  | none ↦ none
  | some _ ↦ if leb d.max_requests 0 then none else some (d.max_requests - d.count)
]

abbrev rate : ℕ → ProviderProbeRatePolicy
rate n = record { max_requests = n; window_seconds = 60 }

-- `_PROVIDER_RATE_POLICIES`
unfoldable pub rate_policy_of : String → Option ProviderProbeRatePolicy
rate_policy_of provider =
    if provider == "truenas"
    then some (rate 2)
    else if provider == "pfsense"
    then some (rate 6)
    else if provider == "cloudflare"
    then some (rate 4)
    else none

-- `_provider_for_probe_key`, before its test of membership.
abbrev pub rate_provider : String → String
rate_provider key = lower (strip (before b':' key))

abbrev pub bucket_id : ProviderProbeRatePolicy → ℕ → ℕ
bucket_id policy now = now / (policy.window_seconds * 1_000_000)

-- An entry of `_local_counts`, and a counter in Redis.
pub record Counter : Type 0 where
  pub provider : String
  pub bucket : ℕ
  pub count : ℕ

abbrev pub is_counter : String → ℕ → Counter → Bool
is_counter provider bucket c = c.provider == provider && eqb c.bucket bucket

unfoldable pub count_of : String → ℕ → List Counter → ℕ
count_of provider bucket [] = 0
count_of provider bucket (c ∷ cs) =
    if is_counter provider bucket c then c.count else count_of provider bucket cs

unfoldable pub set_count : String → ℕ → ℕ → List Counter → List Counter
set_count provider bucket n [] = record { provider = provider; bucket = bucket; count = n } ∷ []
set_count provider bucket n (c ∷ cs) =
    let rest = set_count provider bucket n cs in
    if is_counter provider bucket c
    then record { provider = c.provider; bucket = c.bucket; count = n } ∷ cs
    else c ∷ rest

-- The loop of `_local_count`: the provider's earlier buckets go.
unfoldable pub evict : String → ℕ → List Counter → List Counter
evict provider bucket counters =
    keep (λ c. not (c.provider == provider && not (eqb c.bucket bucket))) counters

unfoldable pub local_count : String → ℕ → List Counter → ℕ × List Counter
local_count provider bucket counters =
    let kept = evict provider bucket counters in
    let count = count_of provider bucket kept + 1 in (count, set_count provider bucket count kept)

-- INCR
unfoldable pub remote_count : String → ℕ → List Counter → ℕ × List Counter
remote_count provider bucket counters =
    let count = count_of provider bucket counters + 1 in
    (count, set_count provider bucket count counters)

-- The counters of the process and those in Redis.
pub record Counters : Type 0 where
  pub local : List Counter
  pub remote : List Counter

-- A client that is given or resolved; `some up` is one whose commands get through if `up` holds.
unfoldable pub chosen_client : Option Bool → Option Bool → Bool → Option Bool
chosen_client (some up) resolved available = if available then some up else none
chosen_client none resolved available = if available then resolved else none

abbrev pub admission :
    String → ProviderProbeRatePolicy → Bool → ℕ → Bool → ProviderProbeBudgetDecision
admission provider policy allowed count shared = record {
  provider = some provider;
  allowed = allowed;
  count = count;
  max_requests = policy.max_requests;
  window_seconds = policy.window_seconds;
  redis_shared = shared;
}

abbrev pub unlimited : ProviderProbeBudgetDecision
unlimited = record {
  provider = none;
  allowed = true;
  count = 0;
  max_requests = 0;
  window_seconds = 0;
  redis_shared = false;
}

-- `admit_provider_probe` for a provider with a policy.
unfoldable pub admit_provider :
    String
    → ProviderProbeRatePolicy
    → Option Bool
    → ℕ
    → Counters
    → ProviderProbeBudgetDecision × Counters
admit_provider provider policy client now s =
    let bucket = bucket_id policy now in
    let (here, local) = local_count provider bucket s.local in
    let (there, remote) = remote_count provider bucket s.remote in
    let local_allowed = leb here policy.max_requests in
    let alone : ProviderProbeBudgetDecision × Counters = (
      admission provider policy local_allowed here false,
      record { local = local; remote = s.remote },
    ) in
    elim client [
      | none ↦ alone
      | some up ↦
          if up
          then (
            admission provider policy (local_allowed && leb there policy.max_requests)
                (max here there) true,
            record { local = local; remote = remote },
          )
          else alone
    ]

unfoldable pub admit_provider_probe :
    String
    → Option Bool
    → Option Bool
    → Bool
    → ℕ
    → Counters
    → ProviderProbeBudgetDecision × Counters
admit_provider_probe key given resolved available now s =
    elim (rate_policy_of (rate_provider key)) [
      | none ↦ (unlimited, s)
      | some policy ↦
          admit_provider (rate_provider key) policy (chosen_client given resolved available) now s
    ]

-- `reset_provider_probe_budgets`, and the reset for a probe's key.
unfoldable pub reset_provider_probe_budgets : Option String → Counters → Counters
reset_provider_probe_budgets none s = record { local = []; remote = s.remote }
reset_provider_probe_budgets (some provider) s = record {
  local = keep (λ c. not (c.provider == provider)) s.local;
  remote = s.remote;
}

unfoldable pub reset_provider_probe_budget_for_probe_key : String → Counters → Counters
reset_provider_probe_budget_for_probe_key key s = elim (rate_policy_of (rate_provider key)) [
  | none ↦ s
  | some _ ↦ reset_provider_probe_budgets (some (rate_provider key)) s
]
