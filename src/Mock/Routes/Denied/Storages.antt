-- ===== src/Mock/Routes/Denied/Storages.antt =====
-- Requests that are not let in: the handlers of proxmox/mockpve/storage.go.
use proxmox_go_sdk.Base.{◌≡◌, false}
use proxmox_go_sdk.Mock.{Request, State, error_of}
use proxmox_go_sdk.Mock.Server.{is_authorized, authentication_failure}
use proxmox_go_sdk.Mock.Routes.Denied.{denied}
use proxmox_go_sdk.Mock.Storage.Routes.{
  StorageRoute, serve_storage, get_storages, post_storages, get_storage, put_storage,
  delete_storage, get_node_storages, get_storage_status, get_content, post_content, get_volume,
  delete_volume, get_pools, post_pools, get_pool,
}
use proxmox_go_sdk.Mock.Storage.{
  handle_datastore_list, handle_datastore_create, handle_datastore_get, handle_datastore_update,
  handle_datastore_delete, handle_node_storage_list, handle_node_storage_status,
}
use proxmox_go_sdk.Mock.Storage.Volumes.{
  handle_content_list, handle_volume_create, handle_volume_get, handle_volume_delete,
  handle_zfs_list, handle_zfs_create, handle_zfs_get,
}

pub serve_storage_refused :
    (route : StorageRoute) (r : Request) (s : State)
    → is_authorized r s ≡ false
    → serve_storage route r s ≡ (error_of 401 authentication_failure, s)
unfolding serve_storage handle_datastore_list handle_datastore_create handle_datastore_get
    handle_datastore_update handle_datastore_delete handle_node_storage_list
    handle_node_storage_status handle_content_list handle_volume_create handle_volume_get
    handle_volume_delete handle_zfs_list handle_zfs_create handle_zfs_get
serve_storage_refused get_storages r s h = denied r s _ h
serve_storage_refused post_storages r s h = denied r s _ h
serve_storage_refused get_storage r s h = denied r s _ h
serve_storage_refused put_storage r s h = denied r s _ h
serve_storage_refused delete_storage r s h = denied r s _ h
serve_storage_refused get_node_storages r s h = denied r s _ h
serve_storage_refused get_storage_status r s h = denied r s _ h
serve_storage_refused get_content r s h = denied r s _ h
serve_storage_refused post_content r s h = denied r s _ h
serve_storage_refused get_volume r s h = denied r s _ h
serve_storage_refused delete_volume r s h = denied r s _ h
serve_storage_refused get_pools r s h = denied r s _ h
serve_storage_refused post_pools r s h = denied r s _ h
serve_storage_refused get_pool r s h = denied r s _ h
