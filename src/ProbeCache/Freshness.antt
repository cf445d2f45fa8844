-- ===== src/ProbeCache/Freshness.antt =====
-- nabla/api/external_probe_cache.py: what a cached answer that is not marked stale shows.
use fastapi_sample.Prelude.{
  String, ℕ, ◌+◌, ◌-◌, ◌<◌, ◌≡◌, refl, ap, ◌⊎◌, inl, inr, Bool, true, false, Option, none, some,
  Option-cases, Bool-cases, arith, if◌then◌else◌,
}
use fastapi_sample.ProbeCache.Envelope.{
  ProbeCachePolicy, Evidence, Envelope, Layer, is_fresh, is_true, ttl_of, current_fresh, age_of,
  value_of, valid_last_good, served_value, failed_with_last_good, metadata, ProbeMetadata,
  ProbeCacheResult, result_from_envelope, cached_result, Served,
}
use fastapi_sample.ProbeCache.Peer.{stale_service}

-- The value and the age are those of the current record of an envelope that `Q` says is read at a
-- time, and the record is within its own window at that time.
pub record IsCurrent (Q : Envelope → ℕ → Type 0) (policy : ProbeCachePolicy) (r : ProbeCacheResult)
    : Type 0 where
  pub envelope : Envelope
  pub now : ℕ
  pub evidence : Evidence
  pub fetched : ℕ
  pub is_read : Q envelope now
  pub is_of : envelope.current ≡ some evidence
  pub has_value : evidence.value ≡ some r.value
  pub has_time : evidence.fetched_at ≡ some fetched
  pub is_within :
      now < fetched + (if is_true evidence.success then policy.success_ttl else policy.failure_ttl)
  pub has_age : r.metadata.cache_age ≡ some (now - fetched)

-- A result shows the envelope's metadata, one of its two values, and the good value that is left.
pub result_from_envelope-fields :
    (envelope : Envelope) (policy : ProbeCachePolicy) (s : Served) (now : ℕ) (r : ProbeCacheResult)
    → result_from_envelope envelope policy s now ≡ some r
    → (r.metadata ≡ metadata envelope s now)
      × (r.last_good ≡ value_of (valid_last_good envelope now policy.stale_ttl))
      × (served_value s.serve_last_good
            (value_of (valid_last_good envelope now policy.stale_ttl))
            (value_of envelope.current)
          ≡ some r.value)
unfolding result_from_envelope
result_from_envelope-fields envelope policy s now r e = ground (
  arith,
  Option-cases (
      served_value s.serve_last_good (value_of (valid_last_good envelope now policy.stale_ttl))
        (value_of envelope.current)),
)

pub served_value-plain : (good current : Option String) → served_value false good current ≡ current
unfolding served_value
served_value-plain none current = refl
served_value-plain (some g) current = refl

current-IsCurrent :
    (Q : Envelope → ℕ → Type 0) (envelope : Envelope) (policy : ProbeCachePolicy) (now : ℕ)
    (r : ProbeCacheResult) (e : Evidence)
    → Q envelope now
    → envelope.current ≡ some e
    → current_fresh envelope now policy ≡ true
    → value_of envelope.current ≡ some r.value
    → r.metadata.cache_age ≡ age_of envelope.current now
    → IsCurrent Q policy r
unfolding current_fresh value_of is_fresh ttl_of age_of
current-IsCurrent Q envelope policy now r e read is fresh value age =
    elim (Option-cases e.fetched_at) [
      | inl missing ↦ absurd (ground (arith, Option-cases e.value))
      | inr (t, was) ↦ record {
        envelope = envelope;
        now = now;
        evidence = e;
        is_read = read;
        is_of = is;
        fetched = t;
        has_value = ground arith;
        has_time = was;
        is_within = ground (arith, Option-cases e.value);
        has_age = ground arith;
      }
    ]

current_fresh-none :
    (envelope : Envelope) (policy : ProbeCachePolicy) (now : ℕ)
    → envelope.current ≡ none
    → current_fresh envelope now policy ≡ false
unfolding current_fresh
current_fresh-none envelope policy now h = ground arith

abbrev pub plain_service : Layer → Bool → Bool → Served
plain_service layer available stale = record {
  layer = layer;
  cached = true;
  stale = stale;
  serve_last_good = false;
  refresh_in_progress = false;
  redis_available = available;
}

result_from_envelope-IsCurrent :
    (Q : Envelope → ℕ → Type 0) (envelope : Envelope) (policy : ProbeCachePolicy) (s : Served)
    (now : ℕ) (r : ProbeCacheResult)
    → Q envelope now
    → s.serve_last_good ≡ false
    → current_fresh envelope now policy ≡ true
    → result_from_envelope envelope policy s now ≡ some r
    → IsCurrent Q policy r
unfolding metadata
result_from_envelope-IsCurrent Q envelope policy s now r read plain fresh h =
    let fields = result_from_envelope-fields envelope policy s now r h in
    let good = value_of (valid_last_good envelope now policy.stale_ttl) in
    elim (Option-cases envelope.current) [
      | inl missing ↦ absurd (ground (arith, fresh, current_fresh-none envelope policy now missing))
      | inr (e, is) ↦
          current-IsCurrent Q envelope policy now r e read is fresh
            (ground (arith, fields, plain, served_value-plain good (value_of envelope.current)))
            (ap (λ m. m.cache_age) fields.0)
    ]

pub cached_result-IsCurrent :
    (Q : Envelope → ℕ → Type 0) (envelope : Envelope) (policy : ProbeCachePolicy) (layer : Layer)
    (available : Bool) (now : ℕ) (r : ProbeCacheResult)
    → Q envelope now
    → cached_result envelope policy layer available now ≡ some r
    → IsCurrent Q policy r
unfolding cached_result
cached_result-IsCurrent Q envelope policy layer available now r read h = ground (
  arith,
  Bool-cases (current_fresh envelope now policy),
  result_from_envelope-IsCurrent Q envelope policy
      (plain_service layer available (failed_with_last_good envelope policy now)) now r read refl,
)

unfoldable pub is_suppressed : ProbeMetadata → Bool
is_suppressed m = elim m.circuit_breaker [ none ↦ false | some c ↦ c.origin_suppressed ]

-- Not from the cache, marked stale, suppressed by the circuit, or current.
unfoldable pub IsSound : (Envelope → ℕ → Type 0) → ProbeCachePolicy → ProbeCacheResult → Type 0
IsSound Q policy r =
    (r.metadata.cached ≡ false)
    ⊎ ((r.metadata.stale ≡ true) ⊎ ((is_suppressed r.metadata ≡ true) ⊎ IsCurrent Q policy r))

module _ (Q : Envelope → ℕ → Type 0) where
  pub cached_result-IsSound :
      (policy : ProbeCachePolicy) (envelope : Envelope) (layer : Layer) (available : Bool) (now : ℕ)
      (r : ProbeCacheResult)
      → Q envelope now
      → cached_result envelope policy layer available now ≡ some r
      → IsSound Q policy r
  unfolding IsSound
  cached_result-IsSound policy envelope layer available now r read h =
      inr (inr (inr (cached_result-IsCurrent Q envelope policy layer available now r read h)))

  -- The options of the last part of `_peer_or_stale_result`.
  pub stale_service-IsSound :
      (policy : ProbeCachePolicy) (last : Envelope) (now : ℕ) (r : ProbeCacheResult)
      → result_from_envelope last policy stale_service now ≡ some r
      → IsSound Q policy r
  unfolding IsSound metadata
  stale_service-IsSound policy last now r h =
      inr
        (inl (ap (λ m. m.stale) (result_from_envelope-fields last policy stale_service now r h).0))
