-- ===== src/Mock/Routes/Denied/Metrics.antt =====
-- Requests that are not let in: the handlers of proxmox/mockpve/metrics.go.
use proxmox_go_sdk.Base.{◌≡◌, false}
use proxmox_go_sdk.Mock.{Request, State, error_of}
use proxmox_go_sdk.Mock.Server.{is_authorized, authentication_failure}
use proxmox_go_sdk.Mock.Routes.Denied.{denied}
use proxmox_go_sdk.Mock.Metrics.{
  MetricRoute, serve_metrics, get_node_rrd, get_node_status, get_vm_rrd, get_ct_rrd,
  get_metric_servers, get_metric_server, post_metric_server, put_metric_server,
  delete_metric_server,
}
use proxmox_go_sdk.Mock.Metrics.{
  handle_node_rrd, handle_node_status, handle_vm_rrd, handle_metric_list, handle_metric_get,
  handle_metric_create, handle_metric_update, handle_metric_delete,
}
use proxmox_go_sdk.Mock.{respond}
use proxmox_go_sdk.Mock.Collection.{handle_all}
use proxmox_go_sdk.Mock.Collection.{handle_one}
use proxmox_go_sdk.Mock.Collection.{handle_change}
use proxmox_go_sdk.Mock.Collection.{handle_drop}

pub serve_metrics_refused :
    (route : MetricRoute) (r : Request) (s : State)
    → is_authorized r s ≡ false
    → serve_metrics route r s ≡ (error_of 401 authentication_failure, s)
unfolding serve_metrics handle_node_rrd handle_node_status handle_vm_rrd handle_metric_list
    handle_metric_get handle_metric_create handle_metric_update handle_metric_delete respond
    handle_all handle_one handle_change handle_drop
serve_metrics_refused get_node_rrd r s h = denied r s _ h
serve_metrics_refused get_node_status r s h = denied r s _ h
serve_metrics_refused get_vm_rrd r s h = denied r s _ h
serve_metrics_refused get_ct_rrd r s h = denied r s _ h
serve_metrics_refused get_metric_servers r s h = denied r s _ h
serve_metrics_refused get_metric_server r s h = denied r s _ h
serve_metrics_refused post_metric_server r s h = denied r s _ h
serve_metrics_refused put_metric_server r s h = denied r s _ h
serve_metrics_refused delete_metric_server r s h = denied r s _ h
