-- ===== src/Mock/Routes.antt =====
-- The routes of proxmox/mockpve/server.go and qemu.go, each served by its handler.
pub mod Access
pub mod Denied
pub mod Reports
pub mod Filed
pub mod Kept
pub mod Invariant
pub mod Others
pub mod Reachable
use proxmox_go_sdk.Mock.{Handler}
use proxmox_go_sdk.Mock.Server.{handle_version, handle_ticket, handle_task_status, handle_task_log}
use proxmox_go_sdk.Mock.Vm.{
  handle_list, handle_create, handle_status, handle_config, handle_set_config, handle_clone,
  handle_template, handle_delete, handle_power, handle_resize, handle_move_disk, handle_migrate,
  Power,
}
use proxmox_go_sdk.Mock.Snapshot.{
  handle_snapshot_list, handle_snapshot_create, handle_snapshot_rollback, handle_snapshot_delete,
  handle_agent_ping, handle_agent_exec, handle_agent_exec_status,
}

pub data Route : Type 0 where
  get_version : Route
  post_ticket : Route
  get_task_status : Route
  get_task_log : Route
  get_qemu : Route
  post_qemu : Route
  get_status : Route
  get_config : Route
  put_config : Route
  post_clone : Route
  post_template : Route
  delete_qemu : Route
  post_power : Power → Route
  put_resize : Route
  post_move_disk : Route
  post_migrate : Route
  get_snapshot : Route
  post_snapshot : Route
  post_rollback : Route
  delete_snapshot : Route
  post_agent_ping : Route
  post_agent_exec : Route
  get_exec_status : Route

unfoldable pub serve : Route → Handler
serve get_version = handle_version
serve post_ticket = handle_ticket
serve get_task_status = handle_task_status
serve get_task_log = handle_task_log
serve get_qemu = handle_list
serve post_qemu = handle_create
serve get_status = handle_status
serve get_config = handle_config
serve put_config = handle_set_config
serve post_clone = handle_clone
serve post_template = handle_template
serve delete_qemu = handle_delete
serve (post_power action) = handle_power action
serve put_resize = handle_resize
serve post_move_disk = handle_move_disk
serve post_migrate = handle_migrate
serve get_snapshot = handle_snapshot_list
serve post_snapshot = handle_snapshot_create
serve post_rollback = handle_snapshot_rollback
serve delete_snapshot = handle_snapshot_delete
serve post_agent_ping = handle_agent_ping
serve post_agent_exec = handle_agent_exec
serve get_exec_status = handle_agent_exec_status
