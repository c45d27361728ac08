-- ===== src/Stats.antt =====
-- internal/stats: the devices' live state.
pub mod Index
pub mod Device
pub mod Store
pub mod Counts
pub mod Signal
pub mod Listing
pub mod Throughput
pub mod Stability
mod Examples
