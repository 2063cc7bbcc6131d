-- ===== src/Mock/Routes/Denied/Containers.antt =====
-- Requests that are not let in: the handlers of proxmox/mockpve/lxc.go.
use proxmox_go_sdk.Base.{◌≡◌, false}
use proxmox_go_sdk.Mock.{Request, State, error_of}
use proxmox_go_sdk.Mock.Server.{is_authorized, authentication_failure}
use proxmox_go_sdk.Mock.Routes.Denied.{denied}
use proxmox_go_sdk.Mock.Container.Routes.{
  CtRoute, serve_ct, get_lxc, post_lxc, get_ct_status, get_ct_config, put_ct_config, post_ct_clone,
  delete_lxc, post_ct_power, get_ct_snapshot, post_ct_snapshot, post_ct_rollback,
  delete_ct_snapshot, post_download_url,
}
use proxmox_go_sdk.Mock.Container.{
  handle_ct_list, handle_ct_create, handle_ct_status, handle_ct_config, handle_ct_set_config,
  handle_ct_clone, handle_ct_delete, handle_ct_power, handle_ct_snapshot_list,
  handle_ct_snapshot_create, handle_ct_snapshot_rollback, handle_ct_snapshot_delete,
  handle_download_url,
}

pub serve_ct_refused :
    (route : CtRoute) (r : Request) (s : State)
    → is_authorized r s ≡ false
    → serve_ct route r s ≡ (error_of 401 authentication_failure, s)
unfolding serve_ct handle_ct_list handle_ct_create handle_ct_status handle_ct_config
    handle_ct_set_config handle_ct_clone handle_ct_delete handle_ct_power handle_ct_snapshot_list
    handle_ct_snapshot_create handle_ct_snapshot_rollback handle_ct_snapshot_delete
    handle_download_url
serve_ct_refused get_lxc r s h = denied r s _ h
serve_ct_refused post_lxc r s h = denied r s _ h
serve_ct_refused get_ct_status r s h = denied r s _ h
serve_ct_refused get_ct_config r s h = denied r s _ h
serve_ct_refused put_ct_config r s h = denied r s _ h
serve_ct_refused post_ct_clone r s h = denied r s _ h
serve_ct_refused delete_lxc r s h = denied r s _ h
serve_ct_refused (post_ct_power action) r s h = denied r s _ h
serve_ct_refused get_ct_snapshot r s h = denied r s _ h
serve_ct_refused post_ct_snapshot r s h = denied r s _ h
serve_ct_refused post_ct_rollback r s h = denied r s _ h
serve_ct_refused delete_ct_snapshot r s h = denied r s _ h
serve_ct_refused post_download_url r s h = denied r s _ h
