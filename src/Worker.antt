-- ===== src/Worker.antt =====
-- internal/worker: the process that connects an account's worker to the gateway.
pub mod Spool
pub mod Backoff
pub mod Session
