-- ===== src/ProbeCache/Lookup.antt =====
-- nabla/api/external_probe_cache.py: the lookups in L1, in Redis and in what L1 retained.
use fastapi_sample.Prelude.{String, ℕ, Bool, true, false, Option, none, some, if◌then◌else◌}
use fastapi_sample.Prelude.Dict.{lookup}
use fastapi_sample.ProbeCache.Envelope.{
  ProbeCachePolicy, Envelope, l1, redis, local_fallback, ProbeCacheResult, cached_result,
}
use fastapi_sample.ProbeCache.Store.{
  Instant, read_envelope, CacheWorld, Client, emit, cache_outcome, redis_degraded, l1_get, l1_put,
  observe,
}

abbrev pub observed : Option ProbeCacheResult → CacheWorld → CacheWorld
observed none w = w
observed (some r) w = observe r w

-- `_l1_hot_result`
unfoldable pub l1_hot_result :
    String
    → ProbeCachePolicy
    → Instant
    → CacheWorld
    → (Option Envelope × Option ProbeCacheResult) × CacheWorld
l1_hot_result key policy at w =
    let ((envelope, hot), v) = l1_get key policy at.mono w in
    elim envelope [
      | none ↦ ((none, none), v)
      | some e ↦
          let result = cached_result e policy l1 true at.wall in
          if hot then ((some e, result), observed result v) else ((some e, none), v)
    ]

abbrev pub read_probe : String → CacheWorld → Option Envelope
read_probe key w = elim (lookup key w.probes) [ none ↦ none | some d ↦ read_envelope d ]

-- What a lookup found: the envelope, whether Redis answered, and a fresh result.
pub record Found : Type 0 where
  pub envelope : Option Envelope
  pub redis_available : Bool
  pub result : Option ProbeCacheResult

abbrev found : Option Envelope → Bool → Option ProbeCacheResult → Found
found envelope available result = record {
  envelope = envelope;
  redis_available = available;
  result = result;
}

unfoldable pub redis_cached_result :
    Option Client
    → String
    → Option Envelope
    → ProbeCachePolicy
    → Instant
    → CacheWorld
    → Found × CacheWorld
redis_cached_result none key envelope policy at w = (found envelope false none, w)
redis_cached_result (some client) key envelope policy at w =
    if client.read_up
    then elim (read_probe key w) [
      | none ↦ (found envelope true none, w)
      | some remote ↦
          let result = cached_result remote policy redis true at.wall in
          (found (some remote) true result, observed result (l1_put key remote at.mono w))
    ]
    else (found envelope false none, emit (cache_outcome redis_degraded) w)

-- The local fallback, for a lookup that Redis did not answer.
unfoldable pub local_result : ProbeCachePolicy → ℕ → Found → CacheWorld → Found × CacheWorld
local_result policy now f w = elim f.result [
  | some r ↦ (f, w)
  | none ↦ elim f.envelope [
    | none ↦ (f, w)
    | some e ↦
        let result = cached_result e policy local_fallback false now in
        if f.redis_available then (f, w) else (found f.envelope false result, observed result w)
  ]
]

-- `_cached_lookup`, at the time the lock is held and at the time Redis has answered.
unfoldable pub cached_lookup :
    String → ProbeCachePolicy → Option Client → Instant → Instant → CacheWorld → Found × CacheWorld
cached_lookup key policy client locked read w =
    let ((envelope, result), v) = l1_hot_result key policy locked w in
    let (f, u) = redis_cached_result client key envelope policy read v in
    elim result [
      | some r ↦ (found envelope true (some r), v)
      | none ↦ local_result policy read.wall f u
    ]
