-- ===== src/Mock/Metrics.antt =====
-- Metric servers, and the fixed series and status of a node or a guest: proxmox/mockpve/metrics.go.
-- The floats in them stand as their bits.
use proxmox_go_sdk.Mock.Guests.{checked-keeps, Same, SameData}
use proxmox_go_sdk.Base.{◌≡◌, refl, ℕ, List, [], ◌∷◌, false}
use proxmox_go_sdk.Base.Eq.{◌==◌, text_Eq}
use proxmox_go_sdk.Base.Text.{Text, text}
use proxmox_go_sdk.Base.Number.{ℤ, pos}
use proxmox_go_sdk.Mock.{
  State, Request, Handler, passed, ◌>>=◌, ◌>>◌, respond, Form, form_get, metric_server,
  metric_servers, rrd, node_status, null,
}
use proxmox_go_sdk.Mock.MetricRecords.{
  MetricServerRecord, MetricServerPayload, RrdPoint, NodeStatus,
}
use proxmox_go_sdk.Mock.Server.{check_auth, parse_form}
use proxmox_go_sdk.Mock.Ha.{flag}
use proxmox_go_sdk.Mock.Checks.{then-Grants, bind-Grants, respond-keeps}
use proxmox_go_sdk.Mock.Collection.{
  Collection, path_value, text_or, int_or, flag_or, put_record, handle_all, handle_one,
  handle_change, handle_drop,
}
use proxmox_go_sdk.Mock.Collection.Keeps.{
  handle_all-keeps, handle_one-keeps, handle_change-keeps, handle_drop-keeps,
}

unfoldable pub metric_payload : MetricServerRecord → MetricServerPayload
metric_payload rec = record {
  id = rec.id;
  kind = rec.kind;
  server = rec.server;
  port = rec.port;
  disable = flag rec.disable;
}

abbrev pub metric_records : Collection MetricServerRecord
metric_records = record {
  entries = λ s. s.metric_servers;
  set_entries = λ m s. record s { metric_servers = m };
  missing = text "no such metric server";
  payload = λ rec. metric_server (metric_payload rec);
  entries_set = λ m s. refl;
}

unfoldable pub add_metric_server : Text → Text → Text → ℤ → State → State
add_metric_server id kind host port =
    put_record metric_records id
      (record { id = id; kind = kind; server = host; port = port; disable = false })

abbrev pub rrd_point : ℕ → ℕ → ℕ → ℕ → RrdPoint
rrd_point time cpu net_in net_out = record {
  time = time;
  cpu = cpu;
  max_cpu = 4616189618054758400;
  mem = 4746794007248502784;
  max_mem = 4755801206503243776;
  net_in = net_in;
  net_out = net_out;
}

-- `syntheticRRD`
abbrev pub synthetic_rrd : List RrdPoint
synthetic_rrd =
    rrd_point 1719792000 4587366580439587226 4652007308841189376 4656510908468559872
    ∷ rrd_point 1719792060 4589708452245819884 4652552666608566272 4657056266235936768
    ∷ []

unfoldable pub handle_node_rrd : Handler
handle_node_rrd r s = respond s (do check_auth r s; passed (rrd synthetic_rrd, s))

unfoldable pub handle_vm_rrd : Handler
handle_vm_rrd r s = respond s (do check_auth r s; passed (rrd synthetic_rrd, s))

abbrev pub fixed_status : NodeStatus
fixed_status = record {
  uptime = 123456;
  cpu = 4587366580439587226;
  wait = 4576918229304087675;
  load_avg = text "0.00" ∷ text "0.01" ∷ text "0.05" ∷ [];
  kversion = text "Linux 6.14";
  pve_version = text "pve-manager/9.0.3";
  memory = record { total = 8589934592; used = 2147483648; free = 6442450944 };
}

unfoldable pub handle_node_status : Handler
handle_node_status r s = respond s (do check_auth r s; passed (node_status fixed_status, s))

unfoldable pub handle_metric_list : Handler
handle_metric_list = handle_all metric_records metric_payload metric_servers

unfoldable pub handle_metric_get : Handler
handle_metric_get r = handle_one metric_records (path_value r (text "id")) r

unfoldable pub new_metric : Form → Text → MetricServerRecord
new_metric form id = record {
  id = id;
  kind = form_get form (text "type");
  server = form_get form (text "server");
  port = int_or (pos 0) form (text "port");
  disable = form_get form (text "disable") == text "1";
}

unfoldable pub handle_metric_create : Handler
handle_metric_create r s = respond s (do
  check_auth r s
  form ← parse_form r
  passed (
    null,
    put_record metric_records (path_value r (text "id"))
        (new_metric form (path_value r (text "id"))) s,
  ))

unfoldable pub apply_metric_form : Form → MetricServerRecord → MetricServerRecord
apply_metric_form form rec = record rec {
  server = text_or rec.server form (text "server");
  port = int_or rec.port form (text "port");
  disable = flag_or rec.disable form (text "disable");
}

unfoldable pub handle_metric_update : Handler
handle_metric_update r = handle_change metric_records (path_value r (text "id")) apply_metric_form r

unfoldable pub handle_metric_delete : Handler
handle_metric_delete r = handle_drop metric_records (path_value r (text "id")) r

pub data MetricRoute : Type 0 where
  get_node_rrd : MetricRoute
  get_node_status : MetricRoute
  get_vm_rrd : MetricRoute
  get_ct_rrd : MetricRoute
  get_metric_servers : MetricRoute
  get_metric_server : MetricRoute
  post_metric_server : MetricRoute
  put_metric_server : MetricRoute
  delete_metric_server : MetricRoute

unfoldable pub serve_metrics : MetricRoute → Handler
serve_metrics get_node_rrd = handle_node_rrd
serve_metrics get_node_status = handle_node_status
serve_metrics get_vm_rrd = handle_vm_rrd
serve_metrics get_ct_rrd = handle_vm_rrd
serve_metrics get_metric_servers = handle_metric_list
serve_metrics get_metric_server = handle_metric_get
serve_metrics post_metric_server = handle_metric_create
serve_metrics put_metric_server = handle_metric_update
serve_metrics delete_metric_server = handle_metric_delete

vms-handle_metric_create : (r : Request) (s : State) → Same s ((handle_metric_create r s).1)
unfolding handle_metric_create put_record
vms-handle_metric_create r s = respond-keeps (Same s) s _ refl (
    then-Grants (SameData s) (check_auth r s) _
      (λ _. bind-Grants (SameData s) (parse_form r) _ (λ form _. refl)))

-- Whatever request for metrics is served, every QEMU guest is as before.
pub vms-serve_metrics :
    (route : MetricRoute) (r : Request) (s : State) → ((serve_metrics route r s).1).vms ≡ s.vms
unfolding serve_metrics handle_node_rrd handle_vm_rrd handle_node_status handle_metric_list
    handle_metric_get handle_metric_update handle_metric_delete
vms-serve_metrics get_node_rrd r s = checked-keeps r s _ refl
vms-serve_metrics get_node_status r s = checked-keeps r s _ refl
vms-serve_metrics get_vm_rrd r s = checked-keeps r s _ refl
vms-serve_metrics get_ct_rrd r s = checked-keeps r s _ refl
vms-serve_metrics get_metric_servers r s =
    handle_all-keeps metric_records (Same s) (λ m t e. e) r s refl _ _
vms-serve_metrics get_metric_server r s =
    handle_one-keeps metric_records (Same s) (λ m t e. e) r s refl _
vms-serve_metrics post_metric_server r s = vms-handle_metric_create r s
vms-serve_metrics put_metric_server r s =
    handle_change-keeps metric_records (Same s) (λ m t e. e) r s refl _ _
vms-serve_metrics delete_metric_server r s =
    handle_drop-keeps metric_records (Same s) (λ m t e. e) r s refl _
