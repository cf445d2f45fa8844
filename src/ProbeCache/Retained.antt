-- ===== src/ProbeCache/Retained.antt =====
-- nabla/api/external_probe_cache.py: an answer of the loader is in L1 when the call replies.
use fastapi_sample.Prelude.{
  String, ℕ, ◌≡◌, refl, ap, inl, inr, Bool, true, false, Option, none, some, Option-cases,
  Bool-cases, arith,
}
use fastapi_sample.Prelude.Dict.{lookup}
use fastapi_sample.ProviderCircuit.Gate.{CircuitDecision, before_provider_probe}
use fastapi_sample.ProviderCircuit.Outcome.{release_provider_probe}
use fastapi_sample.ProbeRate.{admit_provider_probe}
use fastapi_sample.ProbeCache.Envelope.{
  ProbeCachePolicy, Envelope, Layer, current_fresh, failed_with_last_good, metadata,
  ProbeCacheResult, result_from_envelope, cached_result,
}
use fastapi_sample.ProbeCache.Store.{
  CacheWorld, Client, set_circuit, set_counters, emit, cache_outcome, miss, budget_utilization,
}
use fastapi_sample.ProbeCache.Lookup.{l1_hot_result, cached_lookup}
use fastapi_sample.ProbeCache.Peer.{stale_service, acquire_refresh_lock, release_refresh_lock}
use fastapi_sample.ProbeCache.Origin.{Origin, new_envelope}
use fastapi_sample.ProbeCache.Calls.{
  Call, answered, circuit_suppressed_result, rate_suppressed_result,
}
use fastapi_sample.ProbeCache.Refresh.{
  counter_link, refresh_from_origin, link_before, link_release, guarded_refresh, locked_refresh,
  last_envelope, release_all, get_or_refresh_probe,
}
use fastapi_sample.ProbeCache.Freshness.{result_from_envelope-fields, plain_service}
use fastapi_sample.ProbeCache.Sources.{
  l1_hot_result-All, cached_lookup-All, acquire_refresh_lock-All,
}
use fastapi_sample.ProbeCache.Suppressed.{
  circuit_suppressed_result-fields, rate_suppressed_result-fields,
}
use fastapi_sample.ProbeCache.Kept.{ask_origin-IsStored}

-- The answer of a refresh is in L1, with the time of its storing and its success.
pub record IsRetained (c : Call) (w : CacheWorld) (r : ProbeCacheResult) : Type 0 where
  pub last : Envelope
  pub origin : Origin
  pub has_value : origin.value ≡ r.value
  pub has_success : origin.success ≡ c.is_success r.value
  pub in_l1 :
      lookup c.key w.l1_entries
      ≡ some (new_envelope last origin c.policy c.stored.wall, c.stored.mono)

abbrev IsCached : ProbeCacheResult → Type 0
IsCached r = r.metadata.cached ≡ true

IsRetained-same :
    (c : Call) (v w : CacheWorld) (r : ProbeCacheResult)
    → w.l1_entries ≡ v.l1_entries
    → IsRetained c v r
    → IsRetained c w r
IsRetained-same c v w r same k = record {
  last = k.last;
  origin = k.origin;
  has_value = k.has_value;
  has_success = k.has_success;
  in_l1 = rw same k.in_l1;
}

refresh_from_origin-IsRetained :
    (c : Call) (client : Option Client) (available : Bool) (last : Envelope) (d : CircuitDecision)
    (w : CacheWorld) (r : ProbeCacheResult)
    → (refresh_from_origin c client available last d w).0 ≡ answered r
    → r.metadata.cached ≡ false
    → IsRetained c (refresh_from_origin c client available last d w).1 r
unfolding refresh_from_origin
refresh_from_origin-IsRetained c client available last d w r e fetched =
    let (rate, counters) =
      admit_provider_probe c.key (counter_link client) none available c.admitted w.counters in
    let v =
      emit (budget_utilization rate.provider rate.count rate.max_requests)
        (set_counters counters w) in
    elim (Option-cases (rate_suppressed_result rate last c.policy available c.admitted)) [
      | inl admitted ↦
          let k = ask_origin-IsStored c client available last d rate v r (ground arith) in
          record {
            last = last;
            origin = k.origin;
            has_value = k.has_value;
            has_success = k.has_success;
            in_l1 = ground (arith, k.in_l1);
          }
      | inr (s, is) ↦ absurd (
          ground
            (arith, rate_suppressed_result-fields rate last c.policy available c.admitted s is))
    ]

release_refresh_lock-l1 :
    (client : Option Client) (key token : String) (acquired : Bool) (w : CacheWorld)
    → (release_refresh_lock client key token acquired w).l1_entries ≡ w.l1_entries
unfolding release_refresh_lock
release_refresh_lock-l1 none key token acquired w = refl
release_refresh_lock-l1 (some client) key token acquired w = ground arith

release_all-l1 :
    (c : Call) (client : Option Client) (acquired : Bool) (d : CircuitDecision) (w : CacheWorld)
    → (release_all c client acquired d w).l1_entries ≡ w.l1_entries
unfolding release_all
release_all-l1 c client acquired d w =
    release_refresh_lock-l1 client c.key c.token acquired
      (set_circuit (release_provider_probe d (link_release client) w.circuit) w)

guarded_refresh-IsRetained :
    (c : Call) (client : Option Client) (acquired available : Bool) (last : Envelope)
    (w : CacheWorld) (r : ProbeCacheResult)
    → (guarded_refresh c client acquired available last w).0 ≡ answered r
    → r.metadata.cached ≡ false
    → IsRetained c (guarded_refresh c client acquired available last w).1 r
unfolding guarded_refresh
guarded_refresh-IsRetained c client acquired available last w r e fetched =
    let (d, circuit) =
      before_provider_probe c.key (link_before client) c.decided c.circuit_token w.circuit in
    let v = emit (cache_outcome miss) (set_circuit circuit w) in
    let u = (refresh_from_origin c client available last d v).1 in
    elim (Option-cases (circuit_suppressed_result d last c.policy available c.decided)) [
      | inl passed ↦
          IsRetained-same c u (guarded_refresh c client acquired available last w).1 r
            (ground (arith, release_all-l1 c client acquired d u))
            (refresh_from_origin-IsRetained c client available last d v r (ground arith) fetched)
      | inr (s, is) ↦ absurd (
          ground (arith, circuit_suppressed_result-fields d last c.policy available c.decided s is))
    ]

-- Wherever an envelope is read.
abbrev Anywhere : Envelope → ℕ → Type 0
Anywhere e now = e ≡ e

cached_result-IsCached :
    (policy : ProbeCachePolicy) (envelope : Envelope) (layer : Layer) (available : Bool) (now : ℕ)
    (r : ProbeCacheResult)
    → Anywhere envelope now
    → cached_result envelope policy layer available now ≡ some r
    → IsCached r
unfolding cached_result metadata
cached_result-IsCached policy envelope layer available now r read h =
    let s = plain_service layer available (failed_with_last_good envelope policy now) in
    ground (
      arith,
      Bool-cases (current_fresh envelope now policy),
      result_from_envelope-fields envelope policy s now r,
    )

stale_service-IsCached :
    (policy : ProbeCachePolicy) (last : Envelope) (now : ℕ) (r : ProbeCacheResult)
    → result_from_envelope last policy stale_service now ≡ some r
    → IsCached r
unfolding metadata
stale_service-IsCached policy last now r h =
    ap (λ m. m.cached) (result_from_envelope-fields last policy stale_service now r h).0

locked_refresh-IsRetained :
    (c : Call) (client : Option Client) (available : Bool) (last : Envelope) (w : CacheWorld)
    (r : ProbeCacheResult)
    → (locked_refresh c client available last w).0 ≡ answered r
    → r.metadata.cached ≡ false
    → IsRetained c (locked_refresh c client available last w).1 r
unfolding locked_refresh
locked_refresh-IsRetained c none available last w r e fetched =
    guarded_refresh-IsRetained c none false available last w r e fetched
locked_refresh-IsRetained c (some client) false last w r e fetched =
    guarded_refresh-IsRetained c (some client) false false last w r e fetched
locked_refresh-IsRetained c (some client) true last w r e fetched =
    let (a, v) =
      acquire_refresh_lock client c.key c.token last c.policy c.read c.polls c.polled w in
    let u = (guarded_refresh c (some client) a.acquired a.redis_available last v).1 in
    elim (Option-cases a.result) [
      | inl alone ↦
          IsRetained-same c u (locked_refresh c (some client) true last w).1 r (ground arith) (
            guarded_refresh-IsRetained c (some client) a.acquired a.redis_available last v r
              (ground arith) fetched)
      | inr (s, is) ↦ absurd (
          ground (
            arith,
            acquire_refresh_lock-All IsCached Anywhere c.policy (cached_result-IsCached c.policy)
                (stale_service-IsCached c.policy) client c.key c.token last c.read c.polls c.polled
                w r (λ e now p. refl),
          ))
    ]

pub get_or_refresh_probe-IsRetained :
    (c : Call) (w : CacheWorld) (r : ProbeCacheResult)
    → (get_or_refresh_probe c w).0 ≡ answered r
    → r.metadata.cached ≡ false
    → IsRetained c (get_or_refresh_probe c w).1 r
unfolding get_or_refresh_probe
get_or_refresh_probe-IsRetained c w r e fetched =
    let ((envelope, hot), v) = l1_hot_result c.key c.policy c.entered w in
    let (f, u) = cached_lookup c.key c.policy c.client c.locked c.read (c.waiting v) in
    let last = last_envelope f.envelope in
    let t = (locked_refresh c c.client f.redis_available last u).1 in
    elim (Option-cases (l1_hot_result c.key c.policy c.entered w).0.1) [
      | inr (s, is) ↦ absurd (
          ground (
            arith,
            l1_hot_result-All IsCached Anywhere c.policy (cached_result-IsCached c.policy)
                (stale_service-IsCached c.policy) c.key c.entered w r (λ e t h. refl),
          ))
      | inl cold ↦ elim (Option-cases f.result) [
        | inr (s, is) ↦ absurd (
            ground (
              arith,
              cached_lookup-All IsCached Anywhere c.policy (cached_result-IsCached c.policy)
                  (stale_service-IsCached c.policy) c.key c.client c.locked c.read (c.waiting v) r
                  (λ e t h. refl) (λ e h. refl) (λ e t h. refl),
            ))
        | inl lost ↦
            IsRetained-same c t (get_or_refresh_probe c w).1 r (ground arith) (
              locked_refresh-IsRetained c c.client f.redis_available last u r (ground arith)
                fetched)
      ]
    ]
