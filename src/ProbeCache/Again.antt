-- ===== src/ProbeCache/Again.antt =====
-- nabla/api/external_probe_cache.py: the call that follows a refresh within the hot window.
use fastapi_sample.Prelude.{
  String, ℕ, ◌+◌, ◌<◌, ◌≤◌, min, max, ◌≡◌, refl, ◌∙◌, ap, Bool, true, false, some, Option-cases,
  arith, if◌then◌else◌,
}
use fastapi_sample.Prelude.Dict.{lookup}
use fastapi_sample.ProbeCache.Envelope.{
  ProbeCachePolicy, Envelope, Layer, l1, is_true, ttl_of, is_fresh, value_of, valid_last_good,
  current_fresh, failed_with_last_good, metadata, ProbeCacheResult, cached_result, l1_hot_ttl,
}
use fastapi_sample.ProbeCache.Store.{Instant, CacheWorld, l1_get}
use fastapi_sample.ProbeCache.Lookup.{l1_hot_result}
use fastapi_sample.ProbeCache.Origin.{Origin, new_envelope}
use fastapi_sample.ProbeCache.Calls.{Call, answered}
use fastapi_sample.ProbeCache.Refresh.{get_or_refresh_probe}
use fastapi_sample.ProbeCache.Freshness.{
  result_from_envelope-fields, served_value-plain, plain_service,
}
use fastapi_sample.ProbeCache.Admission.{result_from_envelope-some}
use fastapi_sample.ProbeCache.Kept.{new_envelope-value}
use fastapi_sample.ProbeCache.Retained.{get_or_refresh_probe-IsRetained}

l1_hot_ttl-le :
    (envelope : Envelope) (policy : ProbeCachePolicy)
    → l1_hot_ttl envelope policy ≤ max policy.success_ttl policy.failure_ttl
unfolding l1_hot_ttl ttl_of
l1_hot_ttl-le envelope policy = ground (arith, Option-cases envelope.current)

-- An entry of L1 within its hot window may bypass Redis.
l1_get-hot :
    (key : String) (policy : ProbeCachePolicy) (mono stored : ℕ) (envelope : Envelope)
    (w : CacheWorld)
    → lookup key w.l1_entries ≡ some (envelope, stored)
    → mono < stored + l1_hot_ttl envelope policy
    → stored ≤ mono
    → l1_get key policy mono w ≡ ((some envelope, true), w)
unfolding l1_get
l1_get-hot key policy mono stored envelope w h soon later =
    ground (arith, l1_hot_ttl-le envelope policy)

fresh_result :
    (envelope : Envelope) (policy : ProbeCachePolicy) (layer : Layer) (available : Bool) (now : ℕ)
    (v : String)
    → current_fresh envelope now policy ≡ true
    → value_of envelope.current ≡ some v
    → (r : ProbeCacheResult) × (cached_result envelope policy layer available now ≡ some r)
      × (r.value ≡ v)
      × (r.metadata.cache_layer ≡ layer)
unfolding cached_result metadata
fresh_result envelope policy layer available now v fresh h =
    let s = plain_service layer available (failed_with_last_good envelope policy now) in
    let good = value_of (valid_last_good envelope now policy.stale_ttl) in
    let (r, is) = result_from_envelope-some envelope policy s now v h in
    let fields = result_from_envelope-fields envelope policy s now r is in
    (
      r,
      ground arith,
      ground (arith, fields, served_value-plain good (value_of envelope.current)),
      ap (λ m. m.cache_layer) fields.0,
    )

-- The window of an answer.
abbrev pub answer_ttl : Call → ProbeCacheResult → ℕ
answer_ttl c r = if c.is_success r.value then c.policy.success_ttl else c.policy.failure_ttl

new_envelope-fresh :
    (last : Envelope) (o : Origin) (policy : ProbeCachePolicy) (stored now : ℕ)
    → now < stored + (if o.success then policy.success_ttl else policy.failure_ttl)
    → current_fresh (new_envelope last o policy stored) now policy ≡ true
unfolding new_envelope current_fresh is_fresh ttl_of is_true
new_envelope-fresh last o policy stored now soon = ground arith

new_envelope-hot :
    (last : Envelope) (o : Origin) (policy : ProbeCachePolicy) (stored : ℕ)
    → l1_hot_ttl (new_envelope last o policy stored) policy
      ≡ min 5_000_000 (if o.success then policy.success_ttl else policy.failure_ttl)
unfolding new_envelope l1_hot_ttl ttl_of is_true
new_envelope-hot last o policy stored = refl

l1_hot_result-hit :
    (key : String) (policy : ProbeCachePolicy) (at : Instant) (w : CacheWorld) (e : Envelope)
    (r : ProbeCacheResult)
    → l1_get key policy at.mono w ≡ ((some e, true), w)
    → cached_result e policy l1 true at.wall ≡ some r
    → (l1_hot_result key policy at w).0.1 ≡ some r
unfolding l1_hot_result
l1_hot_result-hit key policy at w e r hot h = ground arith

get_or_refresh_probe-hit :
    (c : Call) (w : CacheWorld) (r : ProbeCacheResult)
    → (l1_hot_result c.key c.policy c.entered w).0.1 ≡ some r
    → (get_or_refresh_probe c w).0 ≡ answered r
unfolding get_or_refresh_probe
get_or_refresh_probe-hit c w r h = ground arith

-- A call after one that the loader answered, with the same key and policy and the L1 that the first
-- one left, is answered from L1 with the same value: as long as five seconds, and the window of the
-- answer's outcome, have not passed on either clock.
pub get_or_refresh_probe-again :
    (c again : Call) (w v : CacheWorld) (r : ProbeCacheResult)
    → (get_or_refresh_probe c w).0 ≡ answered r
    → r.metadata.cached ≡ false
    → again.key ≡ c.key
    → again.policy ≡ c.policy
    → v.l1_entries ≡ (get_or_refresh_probe c w).1.l1_entries
    → c.stored.mono ≤ again.entered.mono
    → again.entered.mono < c.stored.mono + min 5_000_000 (answer_ttl c r)
    → again.entered.wall < c.stored.wall + answer_ttl c r
    → (s : ProbeCacheResult) × ((get_or_refresh_probe again v).0 ≡ answered s)
      × (s.value ≡ r.value)
      × (s.metadata.cache_layer ≡ l1)
get_or_refresh_probe-again c again w v r e fetched key policy same later hot fresh =
    let k = get_or_refresh_probe-IsRetained c w r e fetched in
    let envelope = new_envelope k.last k.origin c.policy c.stored.wall in
    let (s, is, value, layer) =
      fresh_result envelope again.policy l1 true again.entered.wall k.origin.value
        (ground (
          arith,
          new_envelope-fresh k.last k.origin c.policy c.stored.wall again.entered.wall,
          k.has_success,
        ))
        (new_envelope-value k.last k.origin c.policy c.stored.wall) in
    let found : lookup again.key v.l1_entries ≡ some (envelope, c.stored.mono) =
      rw (key, same) k.in_l1 in
    let got =
      l1_get-hot again.key again.policy again.entered.mono c.stored.mono envelope v found
        (ground (arith, new_envelope-hot k.last k.origin c.policy c.stored.wall, k.has_success))
        later in
    (
      s,
      get_or_refresh_probe-hit again v s
          (l1_hot_result-hit again.key again.policy again.entered v envelope s got is),
      value ∙ k.has_value,
      layer,
    )
