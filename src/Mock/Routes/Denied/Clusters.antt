-- ===== src/Mock/Routes/Denied/Clusters.antt =====
-- Requests that are not let in: the handlers of proxmox/mockpve/cluster.go.
use proxmox_go_sdk.Base.{◌≡◌, false}
use proxmox_go_sdk.Mock.{Request, State, error_of}
use proxmox_go_sdk.Mock.Server.{is_authorized, authentication_failure}
use proxmox_go_sdk.Mock.Routes.Denied.{denied, denied_then}
use proxmox_go_sdk.Mock.Cluster.{
  ClusterRoute, serve_cluster, get_cluster_resources, get_cluster_status, post_cluster_config,
  get_join, post_join, get_config_nodes,
}
use proxmox_go_sdk.Mock.Cluster.{
  handle_cluster_resources, handle_cluster_status, handle_cluster_create, handle_cluster_join_info,
  check_join, handle_cluster_join, handle_cluster_config_nodes,
}

pub serve_cluster_refused :
    (route : ClusterRoute) (r : Request) (s : State)
    → is_authorized r s ≡ false
    → serve_cluster route r s ≡ (error_of 401 authentication_failure, s)
unfolding serve_cluster handle_cluster_resources handle_cluster_status handle_cluster_create
    handle_cluster_join_info handle_cluster_join handle_cluster_config_nodes check_join
serve_cluster_refused get_cluster_resources r s h = denied r s _ h
serve_cluster_refused get_cluster_status r s h = denied r s _ h
serve_cluster_refused post_cluster_config r s h = denied r s _ h
serve_cluster_refused get_join r s h = denied r s _ h
serve_cluster_refused post_join r s h = denied_then r s _ _ h
serve_cluster_refused get_config_nodes r s h = denied r s _ h
