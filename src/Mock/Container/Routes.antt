-- ===== src/Mock/Container/Routes.antt =====
-- The routes of proxmox/mockpve/lxc.go, each served by its handler.
use proxmox_go_sdk.Mock.{Handler}
use proxmox_go_sdk.Mock.Vm.{Power}
use proxmox_go_sdk.Mock.Container.{
  handle_ct_list, handle_ct_create, handle_ct_status, handle_ct_config, handle_ct_set_config,
  handle_ct_clone, handle_ct_delete, handle_ct_power, handle_ct_snapshot_list,
  handle_ct_snapshot_create, handle_ct_snapshot_rollback, handle_ct_snapshot_delete,
  handle_download_url,
}

pub data CtRoute : Type 0 where
  get_lxc : CtRoute
  post_lxc : CtRoute
  get_ct_status : CtRoute
  get_ct_config : CtRoute
  put_ct_config : CtRoute
  post_ct_clone : CtRoute
  delete_lxc : CtRoute
  post_ct_power : Power → CtRoute
  get_ct_snapshot : CtRoute
  post_ct_snapshot : CtRoute
  post_ct_rollback : CtRoute
  delete_ct_snapshot : CtRoute
  post_download_url : CtRoute

unfoldable pub serve_ct : CtRoute → Handler
serve_ct get_lxc = handle_ct_list
serve_ct post_lxc = handle_ct_create
serve_ct get_ct_status = handle_ct_status
serve_ct get_ct_config = handle_ct_config
serve_ct put_ct_config = handle_ct_set_config
serve_ct post_ct_clone = handle_ct_clone
serve_ct delete_lxc = handle_ct_delete
serve_ct (post_ct_power action) = handle_ct_power action
serve_ct get_ct_snapshot = handle_ct_snapshot_list
serve_ct post_ct_snapshot = handle_ct_snapshot_create
serve_ct post_ct_rollback = handle_ct_snapshot_rollback
serve_ct delete_ct_snapshot = handle_ct_snapshot_delete
serve_ct post_download_url = handle_download_url
