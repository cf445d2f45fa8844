-- ===== src/ProbeCache/Answers.antt =====
-- nabla/api/external_probe_cache.py: where the answers of `get_or_refresh_probe` come from.
use fastapi_sample.Prelude.{
  ℕ, ◌≡◌, inl, inr, Bool, true, false, Option, none, some, Option-cases, arith, if◌then◌else◌,
}
use fastapi_sample.Prelude.Dict.{lookup}
use fastapi_sample.ProviderCircuit.Gate.{CircuitDecision, before_provider_probe}
use fastapi_sample.ProviderCircuit.Metadata.{CircuitMetadata, circuit_metadata}
use fastapi_sample.ProbeRate.{ProviderProbeBudgetDecision, admit_provider_probe}
use fastapi_sample.ProbeCache.Envelope.{
  ProbeCachePolicy, Envelope, metadata, ProbeCacheResult, result_from_envelope, valid_last_good,
  is_some,
}
use fastapi_sample.ProbeCache.Store.{
  CacheWorld, Client, set_circuit, set_counters, emit, cache_outcome, miss, budget_utilization,
}
use fastapi_sample.ProbeCache.Lookup.{l1_hot_result, read_probe, cached_lookup}
use fastapi_sample.ProbeCache.Peer.{acquire_refresh_lock}
use fastapi_sample.ProbeCache.Origin.{Origin, load_origin, new_envelope, store_refreshed_envelope}
use fastapi_sample.ProbeCache.Calls.{
  Call, from_origin, answered, circuit_suppressed_result, rate_suppressed_result,
}
use fastapi_sample.ProbeCache.Refresh.{
  counter_link, answer_origin, ask_origin, refresh_from_origin, link_before, guarded_refresh,
  locked_refresh, last_envelope, get_or_refresh_probe,
}
use fastapi_sample.ProbeCache.Freshness.{
  IsCurrent, is_suppressed, IsSound, result_from_envelope-fields, cached_result-IsSound,
  stale_service-IsSound,
}
use fastapi_sample.ProbeCache.Sources.{
  IsPolled, l1_hot_result-All, cached_lookup-All, acquire_refresh_lock-All,
}
use fastapi_sample.ProbeCache.Suppressed.{
  before_provider_probe-suppressed, circuit_suppressed_result-fields, rate_suppressed_result-fields,
}

circuit_suppressed_result-IsSound :
    (Q : Envelope → ℕ → Type 0) (d : CircuitDecision) (last : Envelope) (policy : ProbeCachePolicy)
    (available : Bool) (now : ℕ) (r : ProbeCacheResult)
    → (d.allowed ≡ false
        → (m : CircuitMetadata) × (circuit_metadata d true now ≡ some m)
          × (m.origin_suppressed ≡ true))
    → circuit_suppressed_result d last policy available now ≡ some r
    → IsSound Q policy r
unfolding IsSound is_suppressed
circuit_suppressed_result-IsSound Q d last policy available now r h e =
    let fields = circuit_suppressed_result-fields d last policy available now r e in
    let (m, shown, suppressed) = h fields.0 in inr (inr (inl (ground arith)))

rate_suppressed_result-IsSound :
    (Q : Envelope → ℕ → Type 0) (d : ProviderProbeBudgetDecision) (last : Envelope)
    (policy : ProbeCachePolicy) (available : Bool) (now : ℕ) (r : ProbeCacheResult)
    → rate_suppressed_result d last policy available now ≡ some r
    → IsSound Q policy r
unfolding IsSound
rate_suppressed_result-IsSound Q d last policy available now r e =
    inr (inl (rate_suppressed_result-fields d last policy available now r e).2)

-- The answer of the loader is not from the cache.
pub answer_origin-cached :
    (c : Call) (client : Option Client) (available : Bool) (last : Envelope) (o : Origin)
    (w : CacheWorld) (r : ProbeCacheResult)
    → (answer_origin c client available last o w).0 ≡ answered r
    → r.metadata.cached ≡ false
unfolding answer_origin metadata
answer_origin-cached c client available last o w r e =
    let envelope = new_envelope last o c.policy c.stored.wall in
    let shared = (store_refreshed_envelope c.key client available envelope c.stored w).0 in
    let stale =
      if o.success
      then false
      else is_some (valid_last_good last c.stored.wall c.policy.stale_ttl) in
    let s = from_origin shared stale in
    elim (Option-cases (result_from_envelope envelope c.policy s c.replied)) [
      | inl missing ↦ absurd (ground arith)
      | inr (t, is) ↦ ground (arith, result_from_envelope-fields envelope c.policy s c.replied t is)
    ]

pub ask_origin-cached :
    (c : Call) (client : Option Client) (available : Bool) (last : Envelope) (d : CircuitDecision)
    (rate : ProviderProbeBudgetDecision) (w : CacheWorld) (r : ProbeCacheResult)
    → (ask_origin c client available last d rate w).0 ≡ answered r
    → r.metadata.cached ≡ false
unfolding ask_origin
ask_origin-cached c client available last d rate w r e =
    let (got, v) =
      load_origin c.loader rate d c.is_success c.is_provider_success client c.recording w in
    elim (Option-cases
      (load_origin c.loader rate d c.is_success c.is_provider_success client c.recording w).0) [
        | inl missing ↦ absurd (ground arith)
        | inr (o, is) ↦ answer_origin-cached c client available last o v r (ground arith)
      ]

refresh_from_origin-IsSound :
    (Q : Envelope → ℕ → Type 0) (c : Call) (client : Option Client) (available : Bool)
    (last : Envelope) (d : CircuitDecision) (w : CacheWorld) (r : ProbeCacheResult)
    → (refresh_from_origin c client available last d w).0 ≡ answered r
    → IsSound Q c.policy r
unfolding refresh_from_origin IsSound
refresh_from_origin-IsSound Q c client available last d w r e =
    let (rate, counters) =
      admit_provider_probe c.key (counter_link client) none available c.admitted w.counters in
    let v =
      emit (budget_utilization rate.provider rate.count rate.max_requests)
        (set_counters counters w) in
    elim (Option-cases (rate_suppressed_result rate last c.policy available c.admitted)) [
      | inl admitted ↦ inl (ask_origin-cached c client available last d rate v r (ground arith))
      | inr (s, is) ↦
          rate_suppressed_result-IsSound Q rate last c.policy available c.admitted r (ground arith)
    ]

guarded_refresh-IsSound :
    (Q : Envelope → ℕ → Type 0) (c : Call) (client : Option Client) (acquired available : Bool)
    (last : Envelope) (w : CacheWorld) (r : ProbeCacheResult)
    → (guarded_refresh c client acquired available last w).0 ≡ answered r
    → IsSound Q c.policy r
unfolding guarded_refresh
guarded_refresh-IsSound Q c client acquired available last w r e =
    let (d, circuit) =
      before_provider_probe c.key (link_before client) c.decided c.circuit_token w.circuit in
    let v = emit (cache_outcome miss) (set_circuit circuit w) in
    elim (Option-cases (circuit_suppressed_result d last c.policy available c.decided)) [
      | inl allowed ↦ refresh_from_origin-IsSound Q c client available last d v r (ground arith)
      | inr (s, is) ↦
          circuit_suppressed_result-IsSound Q d last c.policy available c.decided r
            (before_provider_probe-suppressed c.key (link_before client) c.decided c.decided
              c.circuit_token w.circuit)
            (ground arith)
    ]

locked_refresh-IsSound :
    (Q : Envelope → ℕ → Type 0) (c : Call) (client : Option Client) (available : Bool)
    (last : Envelope) (w : CacheWorld) (r : ProbeCacheResult)
    → ((e : Envelope) (now : ℕ) → IsPolled c.polls e now → Q e now)
    → (locked_refresh c client available last w).0 ≡ answered r
    → IsSound Q c.policy r
unfolding locked_refresh
locked_refresh-IsSound Q c none available last w r q e =
    guarded_refresh-IsSound Q c none false available last w r e
locked_refresh-IsSound Q c (some client) false last w r q e =
    guarded_refresh-IsSound Q c (some client) false false last w r e
locked_refresh-IsSound Q c (some client) true last w r q e =
    let (attempt, v) =
      acquire_refresh_lock client c.key c.token last c.policy c.read c.polls c.polled w in
    elim (Option-cases attempt.result) [
      | inl alone ↦
          guarded_refresh-IsSound Q c (some client) attempt.acquired attempt.redis_available last v
            r (ground arith)
      | inr (s, is) ↦
          acquire_refresh_lock-All (IsSound Q c.policy) Q c.policy
            (cached_result-IsSound Q c.policy) (stale_service-IsSound Q c.policy) client c.key
            c.token last c.read c.polls c.polled w r q (ground arith)
    ]

-- The state in which the call looks again, once it has the process's lock of the key.
abbrev pub waited : Call → CacheWorld → CacheWorld
waited c w = c.waiting (l1_hot_result c.key c.policy c.entered w).1

-- The envelopes that a call reads under its key, each with the time of the wall clock that the call
-- then reads: in L1 as it begins; in L1 when it has the lock, at that time or once Redis has given no
-- answer; in Redis; or in a round of the wait for a peer.
pub data IsRead (c : Call) (w : CacheWorld) : Envelope → ℕ → Type 0 where
  in_l1 :
      (e : Envelope) (t : ℕ) → lookup c.key w.l1_entries ≡ some (e, t) → IsRead c w e c.entered.wall
  in_l1_again :
      (e : Envelope) (t : ℕ)
      → lookup c.key (waited c w).l1_entries ≡ some (e, t)
      → IsRead c w e c.locked.wall
  in_redis : (e : Envelope) → read_probe c.key (waited c w) ≡ some e → IsRead c w e c.read.wall
  in_l1_at_last :
      (e : Envelope) (t : ℕ)
      → lookup c.key (waited c w).l1_entries ≡ some (e, t)
      → IsRead c w e c.read.wall
  of_peer : (e : Envelope) (now : ℕ) → IsPolled c.polls e now → IsRead c w e now

get_or_refresh_probe-IsSound :
    (c : Call) (w : CacheWorld) (r : ProbeCacheResult)
    → (get_or_refresh_probe c w).0 ≡ answered r
    → IsSound (IsRead c w) c.policy r
unfolding get_or_refresh_probe
get_or_refresh_probe-IsSound c w r e =
    let Q = IsRead c w in
    let (f, u) = cached_lookup c.key c.policy c.client c.locked c.read (waited c w) in
    elim (Option-cases (l1_hot_result c.key c.policy c.entered w).0.1) [
      | inr (s, is) ↦
          l1_hot_result-All (IsSound Q c.policy) Q c.policy (cached_result-IsSound Q c.policy)
            (stale_service-IsSound Q c.policy) c.key c.entered w r in_l1 (ground arith)
      | inl cold ↦ elim (Option-cases f.result) [
        | inr (s, is) ↦
            cached_lookup-All (IsSound Q c.policy) Q c.policy (cached_result-IsSound Q c.policy)
              (stale_service-IsSound Q c.policy) c.key c.client c.locked c.read (waited c w) r
              in_l1_again in_redis in_l1_at_last (ground arith)
        | inl lost ↦
            locked_refresh-IsSound Q c c.client f.redis_available (last_envelope f.envelope) u r
              of_peer (ground arith)
      ]
    ]

-- A cached answer that is neither marked stale nor suppressed by the provider's circuit shows an
-- envelope that the call read under its own key, in L1, in Redis or while it waited for a peer: it has
-- the value of the envelope's current record, that record was within the window of its outcome at the
-- time of the call's clock then, and the age is that between the record's time and that time.
pub get_or_refresh_probe-IsCurrent :
    (c : Call) (w : CacheWorld) (r : ProbeCacheResult)
    → (get_or_refresh_probe c w).0 ≡ answered r
    → r.metadata.cached ≡ true
    → r.metadata.stale ≡ false
    → is_suppressed r.metadata ≡ false
    → IsCurrent (IsRead c w) c.policy r
unfolding IsSound
get_or_refresh_probe-IsCurrent c w r e cached unmarked asked =
    ground (arith, get_or_refresh_probe-IsSound c w r e)
