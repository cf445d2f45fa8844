-- ===== src/ProviderCircuit.antt =====
-- nabla/api/provider_circuit.py: circuit breakers for the providers of external health probes.
-- Times are whole microseconds, a jitter ratio is counted in hundredths.
pub mod State
pub mod Gate
pub mod Outcome
pub mod Metadata
pub mod Backoff
pub mod Suppression
pub mod Sharing
pub mod Outage
pub mod SharedOutage
pub mod Ownership
mod Tests
