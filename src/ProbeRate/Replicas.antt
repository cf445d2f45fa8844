-- ===== src/ProbeRate/Replicas.antt =====
-- nabla/api/provider_probe_budget.py: the limit over all replicas that share a Redis.
use fastapi_sample.Prelude.{
  String, ℕ, suc, ◌+◌, ◌-◌, ◌≤◌, ◌≡◌, ap, inl, inr, Bool, true, false, Bool-cases, ◌&&◌, ◌==◌, List,
  [], ◌∷◌, none, some, eqb, if◌then◌else◌, arith, eq_iff, Option-cases,
}
use fastapi_sample.ProbeRate.{
  ProviderProbeRatePolicy, rate_policy_of, rate_provider, bucket_id, Counter, count_of,
  remote_count, Counters, chosen_client, admit_provider,
}
use fastapi_sample.ProbeRate.Windows.{
  Request, admit, in_bucket, count_of-set_count, admit-known, admit-unknown,
}

-- A request at some replica, with the counters that the replica has of its own by then.
pub record Visit : Type 0 where
  pub request : Request
  pub local : List Counter

abbrev at_replica : Visit → List Counter → Counters
at_replica v remote = record { local = v.local; remote = remote }

-- How many of the visits are admitted for a provider.
unfoldable pub admitted_shared : String → List Visit → List Counter → ℕ
admitted_shared provider [] remote = 0
admitted_shared provider (v ∷ vs) remote =
    let (d, t) = admit v.request (at_replica v remote) in
    let rest = admitted_shared provider vs t.remote in
    if rate_provider v.request.key == provider && d.allowed then suc rest else rest

-- The replica reaches Redis.
unfoldable pub is_up : Request → Bool
is_up r = elim (chosen_client r.given r.resolved r.available) [ none ↦ false | some up ↦ up ]

unfoldable pub all_up_in_bucket : String → ProviderProbeRatePolicy → ℕ → List Visit → Bool
all_up_in_bucket provider policy bucket [] = true
all_up_in_bucket provider policy bucket (v ∷ vs) =
    in_bucket provider policy bucket v.request
    && is_up v.request
    && all_up_in_bucket provider policy bucket vs

remote-admit_provider :
    (p q : String) (policy : ProviderProbeRatePolicy) (now d : ℕ) (s : Counters)
    → count_of q d (admit_provider p policy (some true) now s).1.remote ≡ (
        if p == q && eqb (bucket_id policy now) d
        then count_of q d s.remote + 1
        else count_of q d s.remote)
unfolding admit_provider remote_count
remote-admit_provider p q policy now d s = ground (
  arith,
  eq_iff p q,
  count_of-set_count p (bucket_id policy now) (count_of p (bucket_id policy now) s.remote + 1) q d
      s.remote,
)

shared-allowed :
    (p : String) (policy : ProviderProbeRatePolicy) (now : ℕ) (s : Counters)
    → (admit_provider p policy (some true) now s).0.allowed ≡ true
    → count_of p (bucket_id policy now) s.remote + 1 ≤ policy.max_requests
unfolding admit_provider remote_count
shared-allowed p policy now s h = ground arith

up_client :
    (r : Request) → is_up r ≡ true → chosen_client r.given r.resolved r.available ≡ some true
unfolding is_up
up_client r h = ground (arith, Option-cases (chosen_client r.given r.resolved r.available))

shared-own :
    (policy : ProviderProbeRatePolicy) (r : Request) (s : Counters)
    → rate_policy_of (rate_provider r.key) ≡ some policy
    → is_up r ≡ true
    → (count_of (rate_provider r.key) (bucket_id policy r.now) (admit r s).1.remote
        ≡ count_of (rate_provider r.key) (bucket_id policy r.now) s.remote + 1)
      × ((admit r s).0.allowed ≡ true
          → count_of (rate_provider r.key) (bucket_id policy r.now) s.remote + 1
            ≤ policy.max_requests)
shared-own policy r s known up =
    let provider = rate_provider r.key in
    rw (admit-known policy r s known, up_client r up)
      (
        ground (
          arith,
          eq_iff provider provider,
          remote-admit_provider provider provider policy r.now (bucket_id policy r.now) s,
        ),
        shared-allowed provider policy r.now s,
      )

shared-other :
    (provider : String) (bucket : ℕ) (r : Request) (s : Counters)
    → (rate_provider r.key == provider) ≡ false
    → is_up r ≡ true
    → count_of provider bucket (admit r s).1.remote ≡ count_of provider bucket s.remote
shared-other provider bucket r s other up =
    elim (Option-cases (rate_policy_of (rate_provider r.key))) [
      | inl e ↦ ap (λ t. count_of provider bucket t.remote) (admit-unknown r s e)
      | inr (policy, e) ↦
          rw (admit-known policy r s e, up_client r up)
            (ground
              (arith, remote-admit_provider (rate_provider r.key) provider policy r.now bucket s))
    ]

shared-left :
    (provider : String) (policy : ProviderProbeRatePolicy) (bucket : ℕ) (vs : List Visit)
    (remote : List Counter)
    → rate_policy_of provider ≡ some policy
    → all_up_in_bucket provider policy bucket vs ≡ true
    → admitted_shared provider vs remote ≤ policy.max_requests - count_of provider bucket remote
unfolding admitted_shared all_up_in_bucket
shared-left provider policy bucket [] remote known all = omega arith
shared-left provider policy bucket (v ∷ vs) remote known all =
    let r = v.request in
    let next = (admit r (at_replica v remote)).1.remote in
    elim (Bool-cases (rate_provider r.key == provider)) [
      | inl own ↦ ground (
        arith,
        (eq_iff (rate_provider r.key) provider).0 own,
        shared-own policy r (at_replica v remote),
        shared-left provider policy bucket vs next known (ground arith),
      )
      | inr other ↦ ground (
        arith,
        shared-other provider bucket r (at_replica v remote) other,
        shared-left provider policy bucket vs next known (ground arith),
      )
    ]

-- Of the requests for a provider that fall into one window, at most the declared number are
-- admitted over all the replicas that reach the same Redis, whatever their own counters are.
pub admitted_shared-bound :
    (provider : String) (policy : ProviderProbeRatePolicy) (bucket : ℕ) (vs : List Visit)
    (remote : List Counter)
    → rate_policy_of provider ≡ some policy
    → all_up_in_bucket provider policy bucket vs ≡ true
    → admitted_shared provider vs remote ≤ policy.max_requests
admitted_shared-bound provider policy bucket vs remote known all =
    omega (arith, shared-left provider policy bucket vs remote known all)
