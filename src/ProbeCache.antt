-- ===== src/ProbeCache.antt =====
-- nabla/api/external_probe_cache.py and nabla/api/external_probe_cache_types.py: the cache of the
-- health probes, on top of the circuit breakers and the rate budgets; with the envelopes and the
-- refresh lock of nabla/api/external_probe_cache_redis.py. Times are whole microseconds.
pub mod Envelope
pub mod Store
pub mod Lookup
pub mod Peer
pub mod Origin
pub mod Calls
pub mod Refresh
pub mod Freshness
pub mod Sources
pub mod Suppressed
pub mod Answers
pub mod Admission
pub mod Loaders
pub mod Waiting
pub mod Observed
pub mod Releases
pub mod Kept
pub mod Retained
pub mod Again
mod Tests
