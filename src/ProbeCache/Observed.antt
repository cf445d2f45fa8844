-- ===== src/ProbeCache/Observed.antt =====
-- nabla/api/external_probe_cache.py: what the recording of an answer changes.
use fastapi_sample.Prelude.{◌≡◌, refl, if-All, if◌then◌else◌}
use fastapi_sample.ProbeCache.Envelope.{ProbeCacheResult, Layer, l1, redis, local_fallback, origin}
use fastapi_sample.ProbeCache.Store.{observe, hit, CacheWorld}

-- Two states that differ in their counters and metrics at most.
unfoldable pub Same : CacheWorld → CacheWorld → Type 0
Same v w =
    (v.refresh_locks ≡ w.refresh_locks)
    × (v.l1_entries ≡ w.l1_entries)
    × (v.circuit ≡ w.circuit)
    × (v.probes ≡ w.probes)

hit-Same : (layer : Layer) (w : CacheWorld) → Same (hit layer w) w
unfolding hit Same
hit-Same l1 w = (refl, refl, refl, refl)
hit-Same redis w = (refl, refl, refl, refl)
hit-Same local_fallback w = (refl, refl, refl, refl)
hit-Same origin w = (refl, refl, refl, refl)

-- What is recorded of an answer leaves everything else as it is.
pub observe-Same : (r : ProbeCacheResult) (w : CacheWorld) → Same (observe r w) w
unfolding observe Same
observe-Same r w =
    let v = if r.metadata.cached then hit r.metadata.cache_layer w else w in
    let same : Same v w =
      if-All (λ u. Same u w) r.metadata.cached (hit-Same r.metadata.cache_layer w)
        (refl, refl, refl, refl) in
    if-All (λ u. Same u w) r.metadata.stale same same
