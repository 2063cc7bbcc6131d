-- ===== src/Mock/Storage/Routes.antt =====
-- The routes of proxmox/mockpve/storage.go but the upload; none of them touches a guest.
use proxmox_go_sdk.Mock.Guests.{Same, checked-keeps, parsed-keeps, found-keeps, unless-keeps}
use proxmox_go_sdk.Base.{◌≡◌, refl, Option, none, some}
use proxmox_go_sdk.Base.Text.{Text}
use proxmox_go_sdk.Base.Number.{ℤ}
use proxmox_go_sdk.Mock.{Handler, State, Request, refuse_if, found_or}
use proxmox_go_sdk.Mock.Store.Reads.{vms-finished_task}
use proxmox_go_sdk.Mock.Storage.{
  write_store, refuse_fixed, handle_datastore_list, handle_datastore_get, handle_datastore_create,
  handle_datastore_update, handle_datastore_delete, handle_node_storage_list,
  handle_node_storage_status,
}
use proxmox_go_sdk.Mock.Storage.Volumes.{
  set_volumes, add_volume, assign_vmid, add_zfs_pool, handle_content_list, handle_volume_get,
  handle_volume_create, handle_volume_delete, handle_zfs_list, handle_zfs_get, handle_zfs_create,
}

pub data StorageRoute : Type 0 where
  get_storages : StorageRoute
  post_storages : StorageRoute
  get_storage : StorageRoute
  put_storage : StorageRoute
  delete_storage : StorageRoute
  get_node_storages : StorageRoute
  get_storage_status : StorageRoute
  get_content : StorageRoute
  post_content : StorageRoute
  get_volume : StorageRoute
  delete_volume : StorageRoute
  get_pools : StorageRoute
  post_pools : StorageRoute
  get_pool : StorageRoute

unfoldable pub serve_storage : StorageRoute → Handler
serve_storage get_storages = handle_datastore_list
serve_storage post_storages = handle_datastore_create
serve_storage get_storage = handle_datastore_get
serve_storage put_storage = handle_datastore_update
serve_storage delete_storage = handle_datastore_delete
serve_storage get_node_storages = handle_node_storage_list
serve_storage get_storage_status = handle_node_storage_status
serve_storage get_content = handle_content_list
serve_storage post_content = handle_volume_create
serve_storage get_volume = handle_volume_get
serve_storage delete_volume = handle_volume_delete
serve_storage get_pools = handle_zfs_list
serve_storage post_pools = handle_zfs_create
serve_storage get_pool = handle_zfs_get

vms-assign_vmid :
    (node storage id : Text) (vmid : Option ℤ) (s t : State)
    → Same s t
    → Same s (assign_vmid node storage id vmid t)
unfolding assign_vmid set_volumes
vms-assign_vmid node storage id none s t kept = kept
vms-assign_vmid node storage id (some vmid) s t kept = kept

-- Whatever request for storages is served, uploads aside, every QEMU guest is as before.
pub vms-serve_storage :
    (route : StorageRoute) (r : Request) (s : State) → ((serve_storage route r s).1).vms ≡ s.vms
unfolding serve_storage handle_datastore_list handle_datastore_get handle_datastore_create
    handle_datastore_update handle_datastore_delete handle_node_storage_list
    handle_node_storage_status handle_content_list handle_volume_get handle_volume_create
    handle_volume_delete handle_zfs_list handle_zfs_get handle_zfs_create write_store set_volumes
    add_volume add_zfs_pool
vms-serve_storage get_storages r s = checked-keeps r s _ refl
vms-serve_storage post_storages r s =
    parsed-keeps r s _
      (λ form. unless-keeps s (refuse_if _ _ _) _ (unless-keeps s (refuse_if _ _ _) _ refl))
vms-serve_storage get_storage r s =
    checked-keeps r s _ (found-keeps s (found_or _ _ _) _ (λ rec. refl))
vms-serve_storage put_storage r s = parsed-keeps r s _ (λ form.
    unless-keeps s (refuse_fixed _ _) _
      (found-keeps s (found_or _ _ _) _ (λ rec. unless-keeps s (refuse_if _ _ _) _ refl)))
vms-serve_storage delete_storage r s =
    checked-keeps r s _ (found-keeps s (found_or _ _ _) _ (λ rec. refl))
vms-serve_storage get_node_storages r s = checked-keeps r s _ refl
vms-serve_storage get_storage_status r s =
    checked-keeps r s _ (found-keeps s (found_or _ _ _) _ (λ rec. refl))
vms-serve_storage get_content r s = checked-keeps r s _ refl
vms-serve_storage post_content r s =
    parsed-keeps r s _
      (λ form. unless-keeps s (refuse_if _ _ _) _ (vms-assign_vmid r.node r.storage _ _ s _ refl))
vms-serve_storage get_volume r s =
    checked-keeps r s _ (found-keeps s (found_or _ _ _) _ (λ v. refl))
vms-serve_storage delete_volume r s =
    checked-keeps r s _ (found-keeps s (found_or _ _ _) _ (λ v. vms-finished_task r.node _ _ _ _))
vms-serve_storage get_pools r s = checked-keeps r s _ refl
vms-serve_storage post_pools r s =
    parsed-keeps r s _
      (λ form. unless-keeps s (refuse_if _ _ _) _ (vms-finished_task r.node _ _ _ _))
vms-serve_storage get_pool r s = checked-keeps r s _ (found-keeps s (found_or _ _ _) _ (λ p. refl))
