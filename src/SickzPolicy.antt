-- ===== src/SickzPolicy.antt =====
-- nabla/api/sickz_policy.py and nabla/api/sickz_cloudflare_policy.py: whether what is observed of a
-- service's exposure matches what its catalog entry declares. The modelled results are the statuses;
-- the texts beside them are prose for the reader.
pub mod Access
pub mod Classify
pub mod Guarantees
mod Tests
