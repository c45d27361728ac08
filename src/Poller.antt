-- ===== src/Poller.antt =====
-- internal/poller: decisions of the polling loop.
pub mod Circuit
pub mod Peers
pub mod CanonicalMac
mod Examples
