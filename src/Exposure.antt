-- ===== src/Exposure.antt =====
-- nabla/api/homelab_exposure.py: the declared exposure of the services against what Cloudflare
-- shows, and the risk that follows. A reason is its message; what a message quotes is left out.
pub mod Observed
pub mod Reasons
pub mod Rank
pub mod Service
pub mod Risk
pub mod Rows
mod Tests
