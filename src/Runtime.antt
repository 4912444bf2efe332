-- ===== src/Runtime.antt =====
-- internal/runtime: what the proxy shares between requests and background tasks.
pub mod Gate
pub mod Snapshot
pub mod Registry
