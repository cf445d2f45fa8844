-- ===== src/ProbeRate/Windows.antt =====
-- nabla/api/provider_probe_budget.py: no window admits more probes of a provider than its limit.
use fastapi_sample.Prelude.{
  String, ℕ, suc, ◌+◌, ◌-◌, ◌≤◌, ◌≡◌, refl, ap, inl, inr, Bool, true, false, not, Bool-cases, ◌&&◌,
  ◌||◌, ◌==◌, List, [], ◌∷◌, Option, none, some, eqb, if◌then◌else◌, arith, eq_iff, Option-cases,
}
use fastapi_sample.ProbeRate.{
  ProviderProbeRatePolicy, ProviderProbeBudgetDecision, rate_policy_of, rate_provider, bucket_id,
  Counter, count_of, set_count, evict, local_count, Counters, chosen_client, admit_provider,
  admit_provider_probe,
}

pub count_of-set_count :
    (p : String) (b n : ℕ) (q : String) (d : ℕ) (cs : List Counter)
    → count_of q d (set_count p b n cs) ≡ (if p == q && eqb b d then n else count_of q d cs)
unfolding count_of set_count
count_of-set_count p b n q d [] = ground arith
count_of-set_count p b n q d (c ∷ cs) =
    ground
      (arith, eq_iff p q, eq_iff c.provider p, eq_iff c.provider q, count_of-set_count p b n q d cs)

-- The eviction of a provider's other buckets leaves the counters of the bucket, and those of others.
count_of-evict :
    (p : String) (b : ℕ) (q : String) (d : ℕ) (cs : List Counter)
    → count_of q d (evict p b cs) ≡ (if p == q && not (eqb b d) then 0 else count_of q d cs)
unfolding count_of evict
count_of-evict p b q d [] = ground arith
count_of-evict p b q d (c ∷ cs) =
    ground (arith, eq_iff p q, eq_iff c.provider p, eq_iff c.provider q, count_of-evict p b q d cs)

-- A request: the key, the two clients, whether Redis is available, and the time.
pub record Request : Type 0 where
  pub key : String
  pub given : Option Bool
  pub resolved : Option Bool
  pub available : Bool
  pub now : ℕ

unfoldable pub admit : Request → Counters → ProviderProbeBudgetDecision × Counters
admit r s = admit_provider_probe r.key r.given r.resolved r.available r.now s

-- How many of one process's requests are admitted for a provider.
unfoldable pub admitted : String → List Request → Counters → ℕ
admitted provider [] s = 0
admitted provider (r ∷ rs) s =
    let (d, t) = admit r s in
    let rest = admitted provider rs t in
    if rate_provider r.key == provider && d.allowed then suc rest else rest

-- A request of the provider falls into the bucket.
abbrev pub in_bucket : String → ProviderProbeRatePolicy → ℕ → Request → Bool
in_bucket provider policy bucket r =
    not (rate_provider r.key == provider) || eqb (bucket_id policy r.now) bucket

unfoldable pub all_in_bucket : String → ProviderProbeRatePolicy → ℕ → List Request → Bool
all_in_bucket provider policy bucket [] = true
all_in_bucket provider policy bucket (r ∷ rs) =
    in_bucket provider policy bucket r && all_in_bucket provider policy bucket rs

-- What one admission does to the local counter of the provider's bucket.
count_of-admit_provider :
    (p q : String) (policy : ProviderProbeRatePolicy) (client : Option Bool) (now d : ℕ)
    (s : Counters)
    → count_of q d (admit_provider p policy client now s).1.local ≡ (
        if p == q
        then (if eqb (bucket_id policy now) d then count_of q d s.local + 1 else 0)
        else count_of q d s.local)
unfolding admit_provider local_count
count_of-admit_provider p q policy client now d s = ground (
  arith,
  eq_iff p q,
  count_of-evict p (bucket_id policy now) q d s.local,
  count_of-set_count p (bucket_id policy now)
      (count_of p (bucket_id policy now) (evict p (bucket_id policy now) s.local) + 1) q d
      (evict p (bucket_id policy now) s.local),
)

-- An admission of a provider is within its limit.
allowed-admit_provider :
    (p : String) (policy : ProviderProbeRatePolicy) (client : Option Bool) (now : ℕ) (s : Counters)
    → (admit_provider p policy client now s).0.allowed ≡ true
    → count_of p (bucket_id policy now) s.local + 1 ≤ policy.max_requests
unfolding admit_provider local_count
allowed-admit_provider p policy client now s h = ground (
  arith,
  eq_iff p p,
  Option-cases client,
  count_of-evict p (bucket_id policy now) p (bucket_id policy now) s.local,
)

pub admit-known :
    (policy : ProviderProbeRatePolicy) (r : Request) (s : Counters)
    → rate_policy_of (rate_provider r.key) ≡ some policy
    → admit r s
      ≡ admit_provider
          (rate_provider r.key)
          policy
          (chosen_client r.given r.resolved r.available)
          r.now
          s
unfolding admit admit_provider_probe
admit-known policy r s known = rw (known, admit, admit_provider_probe) refl

pub admit-unknown :
    (r : Request) (s : Counters) → rate_policy_of (rate_provider r.key) ≡ none → (admit r s).1 ≡ s
unfolding admit admit_provider_probe
admit-unknown r s unknown = rw (unknown, admit, admit_provider_probe) refl

-- A request of the provider counts, and is admitted within the limit only.
admit-own :
    (policy : ProviderProbeRatePolicy) (r : Request) (s : Counters)
    → (let provider = rate_provider r.key in
        let bucket = bucket_id policy r.now in
        rate_policy_of provider ≡ some policy
        → (count_of provider bucket (admit r s).1.local ≡ count_of provider bucket s.local + 1)
          × ((admit r s).0.allowed ≡ true
              → count_of provider bucket s.local + 1 ≤ policy.max_requests))
admit-own policy r s known =
    let provider = rate_provider r.key in
    let client = chosen_client r.given r.resolved r.available in
    rw (admit-known policy r s known) (
      ground (
        arith,
        eq_iff provider provider,
        count_of-admit_provider provider provider policy client r.now (bucket_id policy r.now) s,
      ),
      allowed-admit_provider provider policy client r.now s,
    )

-- A request of another provider leaves the counter.
admit-other :
    (provider : String) (bucket : ℕ) (r : Request) (s : Counters)
    → (rate_provider r.key == provider) ≡ false
    → count_of provider bucket (admit r s).1.local ≡ count_of provider bucket s.local
admit-other provider bucket r s other = elim (Option-cases (rate_policy_of (rate_provider r.key))) [
  | inl e ↦ ap (λ t. count_of provider bucket t.local) (admit-unknown r s e)
  | inr (policy, e) ↦ rw (admit-known policy r s e) (
      ground (
        arith,
        count_of-admit_provider (rate_provider r.key) provider policy
            (chosen_client r.given r.resolved r.available) r.now bucket s,
      ))
]

admitted-left :
    (provider : String) (policy : ProviderProbeRatePolicy) (bucket : ℕ) (rs : List Request)
    (s : Counters)
    → rate_policy_of provider ≡ some policy
    → all_in_bucket provider policy bucket rs ≡ true
    → admitted provider rs s ≤ policy.max_requests - count_of provider bucket s.local
unfolding admitted all_in_bucket
admitted-left provider policy bucket [] s known all = omega arith
admitted-left provider policy bucket (r ∷ rs) s known all =
    elim (Bool-cases (rate_provider r.key == provider)) [
      | inl own ↦ ground (
        arith,
        (eq_iff (rate_provider r.key) provider).0 own,
        admit-own policy r s,
        admitted-left provider policy bucket rs (admit r s).1 known (ground arith),
      )
      | inr other ↦ ground (
        arith,
        admit-other provider bucket r s other,
        admitted-left provider policy bucket rs (admit r s).1 known (ground arith),
      )
    ]

-- Of the requests of one process for a provider that fall into one window, at most the declared
-- number are admitted, in whatever order they come, between requests for other providers, with or
-- without Redis, and from whatever counters.
pub admitted-bound :
    (provider : String) (policy : ProviderProbeRatePolicy) (bucket : ℕ) (rs : List Request)
    (s : Counters)
    → rate_policy_of provider ≡ some policy
    → all_in_bucket provider policy bucket rs ≡ true
    → admitted provider rs s ≤ policy.max_requests
admitted-bound provider policy bucket rs s known all =
    omega (arith, admitted-left provider policy bucket rs s known all)
