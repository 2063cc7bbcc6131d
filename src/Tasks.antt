-- ===== src/Tasks.antt =====
-- Asynchronous tasks: proxmox/tasks/upid.go and proxmox/tasks/service.go.
pub mod Upid
pub mod Wait
mod Tests
