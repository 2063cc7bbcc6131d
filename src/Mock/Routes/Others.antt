-- ===== src/Mock/Routes/Others.antt =====
-- The routes of proxmox/mockpve that are not about QEMU guests: lxc.go, ha.go, sdn.go, access.go,
-- firewall.go, metrics.go, pbs.go, cluster.go, ceph.go, and storage.go but for its upload.
use proxmox_go_sdk.Base.{ℕ, Option, ◌≡◌}
use proxmox_go_sdk.Base.Text.{Text}
use proxmox_go_sdk.Mock.{Request, State, Handler}
use proxmox_go_sdk.Mock.Container.Routes.{CtRoute, serve_ct}
use proxmox_go_sdk.Mock.Container.Isolation.{vms-serve_ct}
use proxmox_go_sdk.Mock.Ha.Routes.{HaRoute, serve_ha, vms-serve_ha}
use proxmox_go_sdk.Mock.Sdn.Routes.{SdnRoute, serve_sdn}
use proxmox_go_sdk.Mock.Sdn.Isolation.{vms-serve_sdn}
use proxmox_go_sdk.Mock.Access.Routes.{AccessRoute, serve_access, vms-serve_access}
use proxmox_go_sdk.Mock.Metrics.{MetricRoute, serve_metrics, vms-serve_metrics}
use proxmox_go_sdk.Mock.Backup.{BackupRoute, serve_backup, vms-serve_backup}
use proxmox_go_sdk.Mock.Storage.Routes.{StorageRoute, serve_storage, vms-serve_storage}
use proxmox_go_sdk.Mock.Cluster.{ClusterRoute, serve_cluster}
use proxmox_go_sdk.Mock.Cluster.Isolation.{vms-serve_cluster}
use proxmox_go_sdk.Mock.Ceph.{CephRoute, serve_ceph, vms-serve_ceph}
use proxmox_go_sdk.Mock.Firewall.Routes.{FirewallRoute, serve_firewall, vms-serve_firewall}

pub data OtherRoute : Type 0 where
  of_ct : CtRoute → OtherRoute
  of_ha : HaRoute → OtherRoute
  of_sdn : SdnRoute → OtherRoute
  of_access : AccessRoute → OtherRoute
  of_firewall : FirewallRoute → OtherRoute
  of_metrics : MetricRoute → OtherRoute
  of_backup : BackupRoute → OtherRoute
  of_storage : StorageRoute → OtherRoute
  of_cluster : ClusterRoute → OtherRoute
  of_ceph : CephRoute → OtherRoute

unfoldable pub serve_other : (Text → Option ℕ) → OtherRoute → Handler
serve_other parse_float (of_ct route) = serve_ct route
serve_other parse_float (of_ha route) = serve_ha parse_float route
serve_other parse_float (of_sdn route) = serve_sdn route
serve_other parse_float (of_access route) = serve_access route
serve_other parse_float (of_firewall route) = serve_firewall route
serve_other parse_float (of_metrics route) = serve_metrics route
serve_other parse_float (of_backup route) = serve_backup route
serve_other parse_float (of_storage route) = serve_storage route
serve_other parse_float (of_cluster route) = serve_cluster route
serve_other parse_float (of_ceph route) = serve_ceph route

-- Whatever request for containers, high availability, the network, access control, the firewall,
-- metrics, backups, the cluster, Ceph or storages, uploads aside, is served, and whatever it answers,
-- every QEMU guest is as before, the one with a container's number included.
pub vms-serve_other :
    (parse_float : Text → Option ℕ) (route : OtherRoute) (r : Request) (s : State)
    → ((serve_other parse_float route r s).1).vms ≡ s.vms
unfolding serve_other
vms-serve_other parse_float (of_ct route) r s = vms-serve_ct route r s
vms-serve_other parse_float (of_ha route) r s = vms-serve_ha parse_float route r s
vms-serve_other parse_float (of_sdn route) r s = vms-serve_sdn route r s
vms-serve_other parse_float (of_access route) r s = vms-serve_access route r s
vms-serve_other parse_float (of_firewall route) r s = vms-serve_firewall route r s
vms-serve_other parse_float (of_metrics route) r s = vms-serve_metrics route r s
vms-serve_other parse_float (of_backup route) r s = vms-serve_backup route r s
vms-serve_other parse_float (of_storage route) r s = vms-serve_storage route r s
vms-serve_other parse_float (of_cluster route) r s = vms-serve_cluster route r s
vms-serve_other parse_float (of_ceph route) r s = vms-serve_ceph route r s
