-- ===== src/Gateway.antt =====
-- internal/gateway: accounts, their in-memory store, and the hub of worker connections.
pub mod Account
pub mod Store
pub mod Session
pub mod Hub
pub mod Serve
