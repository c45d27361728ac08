-- ===== src/Udebug.antt =====
-- internal/udebug: in-memory ring buffers that capture device traffic.
pub mod Buffer
pub mod Host
pub mod Manager
mod Examples
