-- ===== src/Mock/Routes/Access.antt =====
-- Which requests are let in: `checkAuth` of proxmox/mockpve/server.go, and the login.
use proxmox_go_sdk.Base.{ℕ, Option, ◌≡◌, refl, false, ◌≢◌}
use proxmox_go_sdk.Base.Text.{Text}
use proxmox_go_sdk.Mock.Routes.Others.{
  OtherRoute, serve_other, of_ct, of_ha, of_sdn, of_access, of_firewall, of_metrics, of_backup,
  of_storage, of_cluster, of_ceph,
}
use proxmox_go_sdk.Mock.Routes.Denied.{denied}
use proxmox_go_sdk.Mock.Routes.Denied.Containers.{serve_ct_refused}
use proxmox_go_sdk.Mock.Routes.Denied.Ha.{serve_ha_refused}
use proxmox_go_sdk.Mock.Routes.Denied.Sdn.{serve_sdn_refused}
use proxmox_go_sdk.Mock.Routes.Denied.Permissions.{serve_access_refused}
use proxmox_go_sdk.Mock.Routes.Denied.Firewalls.{serve_firewall_refused}
use proxmox_go_sdk.Mock.Routes.Denied.Metrics.{serve_metrics_refused}
use proxmox_go_sdk.Mock.Routes.Denied.Backups.{serve_backup_refused}
use proxmox_go_sdk.Mock.Routes.Denied.Storages.{serve_storage_refused}
use proxmox_go_sdk.Mock.Routes.Denied.Clusters.{serve_cluster_refused}
use proxmox_go_sdk.Mock.Routes.Denied.Ceph.{serve_ceph_refused}
use proxmox_go_sdk.Mock.{Request, State, error_of}
use proxmox_go_sdk.Mock.Server.{
  is_authorized, authentication_failure, handle_version, handle_task_status, handle_task_log,
}
use proxmox_go_sdk.Mock.Vm.{
  handle_list, handle_create, handle_status, handle_config, handle_set_config, handle_clone,
  handle_template, handle_delete, handle_power, handle_resize, handle_move_disk, handle_migrate,
}
use proxmox_go_sdk.Mock.Snapshot.{
  handle_snapshot_list, handle_snapshot_create, handle_snapshot_rollback, handle_snapshot_delete,
  handle_agent_ping, handle_agent_exec, handle_agent_exec_status,
}
use proxmox_go_sdk.Mock.Routes.{
  Route, serve, get_version, post_ticket, get_task_status, get_task_log, get_qemu, post_qemu,
  get_status, get_config, put_config, post_clone, post_template, delete_qemu, post_power,
  put_resize, post_move_disk, post_migrate, get_snapshot, post_snapshot, post_rollback,
  delete_snapshot, post_agent_ping, post_agent_exec, get_exec_status,
}

serve_refused :
    (route : Route) (r : Request) (s : State)
    → is_authorized r s ≡ false
    → route ≢ post_ticket
    → serve route r s ≡ (error_of 401 authentication_failure, s)
unfolding serve handle_version handle_task_status handle_task_log handle_list handle_create
    handle_status handle_config handle_set_config handle_clone handle_template handle_delete
    handle_power handle_resize handle_move_disk handle_migrate handle_snapshot_list
    handle_snapshot_create handle_snapshot_rollback handle_snapshot_delete handle_agent_ping
    handle_agent_exec handle_agent_exec_status
serve_refused get_version r s h other = denied r s _ h
serve_refused get_task_status r s h other = denied r s _ h
serve_refused get_task_log r s h other = denied r s _ h
serve_refused get_qemu r s h other = denied r s _ h
serve_refused post_qemu r s h other = denied r s _ h
serve_refused get_status r s h other = denied r s _ h
serve_refused get_config r s h other = denied r s _ h
serve_refused put_config r s h other = denied r s _ h
serve_refused post_clone r s h other = denied r s _ h
serve_refused post_template r s h other = denied r s _ h
serve_refused delete_qemu r s h other = denied r s _ h
serve_refused (post_power action) r s h other = denied r s _ h
serve_refused put_resize r s h other = denied r s _ h
serve_refused post_move_disk r s h other = denied r s _ h
serve_refused post_migrate r s h other = denied r s _ h
serve_refused get_snapshot r s h other = denied r s _ h
serve_refused post_snapshot r s h other = denied r s _ h
serve_refused post_rollback r s h other = denied r s _ h
serve_refused delete_snapshot r s h other = denied r s _ h
serve_refused post_agent_ping r s h other = denied r s _ h
serve_refused post_agent_exec r s h other = denied r s _ h
serve_refused get_exec_status r s h other = denied r s _ h
serve_refused post_ticket r s h other = elim (other refl) [ ]

serve_other_refused :
    (parse_float : Text → Option ℕ) (route : OtherRoute) (r : Request) (s : State)
    → is_authorized r s ≡ false
    → serve_other parse_float route r s ≡ (error_of 401 authentication_failure, s)
unfolding serve_other
serve_other_refused parse_float (of_ct route) r s h = serve_ct_refused route r s h
serve_other_refused parse_float (of_ha route) r s h = serve_ha_refused parse_float route r s h
serve_other_refused parse_float (of_sdn route) r s h = serve_sdn_refused route r s h
serve_other_refused parse_float (of_access route) r s h = serve_access_refused route r s h
serve_other_refused parse_float (of_firewall route) r s h = serve_firewall_refused route r s h
serve_other_refused parse_float (of_metrics route) r s h = serve_metrics_refused route r s h
serve_other_refused parse_float (of_backup route) r s h = serve_backup_refused route r s h
serve_other_refused parse_float (of_storage route) r s h = serve_storage_refused route r s h
serve_other_refused parse_float (of_cluster route) r s h = serve_cluster_refused route r s h
serve_other_refused parse_float (of_ceph route) r s h = serve_ceph_refused route r s h

-- A request without a token or a ticket of the server is answered 401 and leaves the state as it was:
-- on every route of server.go and qemu.go but the login, and on every modelled route for containers,
-- high availability, the network, access control, the firewall, metrics, backups, storages, the cluster
-- and Ceph.
pub serve_unauthorized :
    (parse_float : Text → Option ℕ) (route : Route) (other : OtherRoute) (r : Request) (s : State)
    → is_authorized r s ≡ false
    → route ≢ post_ticket
    → (serve route r s ≡ (error_of 401 authentication_failure, s))
      × (serve_other parse_float other r s ≡ (error_of 401 authentication_failure, s))
serve_unauthorized parse_float route other r s h open_route =
    (serve_refused route r s h open_route, serve_other_refused parse_float other r s h)
