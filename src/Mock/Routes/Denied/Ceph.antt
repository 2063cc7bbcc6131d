-- ===== src/Mock/Routes/Denied/Ceph.antt =====
-- Requests that are not let in: the handlers of proxmox/mockpve/ceph.go.
use proxmox_go_sdk.Base.{◌≡◌, false}
use proxmox_go_sdk.Mock.{Request, State, error_of}
use proxmox_go_sdk.Mock.Server.{is_authorized, authentication_failure}
use proxmox_go_sdk.Mock.Routes.Denied.{denied}
use proxmox_go_sdk.Mock.Ceph.{
  CephRoute, serve_ceph, get_ceph_pools, post_ceph_pools, get_ceph_pool, delete_ceph_pool, get_osds,
  post_osds, delete_osd, get_ceph_status, get_ceph_config,
}
use proxmox_go_sdk.Mock.Ceph.{
  handle_pool_list, handle_pool_create, handle_pool_get, handle_pool_delete, handle_osd_list,
  handle_osd_create, handle_osd_destroy, handle_ceph_status, handle_ceph_config,
}
use proxmox_go_sdk.Mock.{respond}
use proxmox_go_sdk.Mock.Collection.{handle_all}
use proxmox_go_sdk.Mock.Collection.{handle_one}

pub serve_ceph_refused :
    (route : CephRoute) (r : Request) (s : State)
    → is_authorized r s ≡ false
    → serve_ceph route r s ≡ (error_of 401 authentication_failure, s)
unfolding serve_ceph handle_pool_list handle_pool_create handle_pool_get handle_pool_delete
    handle_osd_list handle_osd_create handle_osd_destroy handle_ceph_status handle_ceph_config
    respond handle_all handle_one
serve_ceph_refused get_ceph_pools r s h = denied r s _ h
serve_ceph_refused post_ceph_pools r s h = denied r s _ h
serve_ceph_refused get_ceph_pool r s h = denied r s _ h
serve_ceph_refused delete_ceph_pool r s h = denied r s _ h
serve_ceph_refused get_osds r s h = denied r s _ h
serve_ceph_refused post_osds r s h = denied r s _ h
serve_ceph_refused delete_osd r s h = denied r s _ h
serve_ceph_refused get_ceph_status r s h = denied r s _ h
serve_ceph_refused get_ceph_config r s h = denied r s _ h
