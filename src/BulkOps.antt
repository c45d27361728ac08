-- ===== src/BulkOps.antt =====
-- internal/bulkops/controller.go: operations on many devices.
pub mod Match
pub mod Retry
mod Examples
