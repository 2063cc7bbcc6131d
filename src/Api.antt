-- ===== src/Api.antt =====
-- The transport: package proxmox/api.
pub mod Retry
pub mod Connection
pub mod Transport
pub mod Session
mod Tests
