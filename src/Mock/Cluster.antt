-- ===== src/Mock/Cluster.antt =====
-- The cluster's resources and status, and how it is formed: proxmox/mockpve/cluster.go. The datacenter
-- options are in Mock.Ha.Options.
pub mod Members
pub mod Isolation
mod Tests
use proxmox_go_sdk.Base.{
  zero, suc, ℕ, Bool, true, false, not, ◌&&◌, ◌||◌, List, [], ◌∷◌, ◌++◌, if◌then◌else◌, map,
}
use proxmox_go_sdk.Base.Eq.{◌==◌, text_Eq}
use proxmox_go_sdk.Base.Map.{Map, insert}
use proxmox_go_sdk.Base.Text.{Text, text, is_empty}
use proxmox_go_sdk.Base.Number.{ℤ, pos, itoa}
use proxmox_go_sdk.Mock.{
  State, Request, Response, error_of, Handler, Checked, passed, refused, ◌>>=◌, ◌>>◌, refuse_if,
  respond, Payload, Form, form_get, cluster_resources, cluster_statuses, join_info, config_nodes,
}
use proxmox_go_sdk.Mock.ClusterRecords.{
  ClusterResource, ClusterStatusRecord, ClusterStatusPayload, JoinNode, JoinInfo, ConfigNode,
}
use proxmox_go_sdk.Mock.Store.{finished_task}
use proxmox_go_sdk.Mock.Server.{check_auth, parse_form}
use proxmox_go_sdk.Mock.Vm.{task_data}
use proxmox_go_sdk.Mock.Ha.{flag}
use proxmox_go_sdk.Mock.Firewall.{answer_in}

abbrev pub cluster_fingerprint : Text
cluster_fingerprint =
    text
      "A1:B2:C3:D4:E5:F6:07:18:29:3A:4B:5C:6D:7E:8F:90:A1:B2:C3:D4:E5:F6:07:18:29:3A:4B:5C:6D:7E:8F:90"

abbrev pub set_unless_empty : Text → Text → Map Text Text → Map Text Text
set_unless_empty key v options = if is_empty v then options else insert key v options

unfoldable pub set_cluster_options : Text → Text → State → State
set_cluster_options description migration s = record s {
  cluster_options =
      set_unless_empty (text "migration") migration
        (set_unless_empty (text "description") description s.cluster_options);
}

unfoldable pub resource_id : Text → Text → ℤ → Text
resource_id kind node vmid =
    if (kind == text "qemu") || (kind == text "lxc")
    then kind ++ (text "/" ++ itoa vmid)
    else if kind == text "node"
    then text "node/" ++ node
    else kind

unfoldable pub add_cluster_resource : Text → Text → Text → ℤ → State → State
add_cluster_resource kind node status vmid s = record s {
  cluster = record s.cluster {
    resources =
        s.cluster.resources
        ++ record {
          id = resource_id kind node vmid;
          kind = kind;
          node = node;
          status = status;
          name = [];
          vmid = vmid;
        }
          ∷ [];
  };
}

abbrev pub push_status : ClusterStatusRecord → State → State
push_status rec s = record s {
  cluster = record s.cluster { status = s.cluster.status ++ rec ∷ [] };
}

unfoldable pub add_cluster_status_node : Text → Bool → State → State
add_cluster_status_node name online = push_status (record {
  id = text "node/" ++ name;
  kind = text "node";
  name = name;
  nodes = pos 0;
  quorate = false;
  online = online;
})

unfoldable pub set_cluster_status_info : Text → ℤ → Bool → State → State
set_cluster_status_info name nodes quorate = push_status (record {
  id = text "cluster";
  kind = text "cluster";
  name = name;
  nodes = nodes;
  quorate = quorate;
  online = false;
})

unfoldable pub set_cluster_self_node : Text → State → State
set_cluster_self_node name s = record s { cluster = record s.cluster { self_node = name } }

unfoldable pub queue_cluster_join : Text → State → State
queue_cluster_join name s = record s {
  cluster = record s.cluster { join_queue = s.cluster.join_queue ++ name ∷ [] };
}

unfoldable pub resource_matches_type : Text → Text → Bool
resource_matches_type kind filter =
    if filter == text "vm" then (kind == text "qemu") || (kind == text "lxc") else kind == filter

unfoldable pub keep_resources : Text → List ClusterResource → List ClusterResource
keep_resources filter [] = []
keep_resources filter (rec ∷ resources) =
    let rest = keep_resources filter resources in
    if not (is_empty filter) && not (resource_matches_type rec.kind filter)
    then rest
    else rec ∷ rest

unfoldable pub handle_cluster_resources : Handler
handle_cluster_resources r s = respond s (do
  check_auth r s
  passed
      (cluster_resources (keep_resources (form_get r.query (text "type")) s.cluster.resources), s))

abbrev pub cluster_status_payload : ClusterStatusRecord → ClusterStatusPayload
cluster_status_payload rec = record {
  id = rec.id;
  kind = rec.kind;
  name = rec.name;
  nodes = rec.nodes;
  quorate = flag rec.quorate;
  online = flag rec.online;
}

unfoldable pub handle_cluster_status : Handler
handle_cluster_status r s =
    respond s (do
      check_auth r s
      passed (cluster_statuses (map cluster_status_payload s.cluster.status), s))

unfoldable pub cluster_self : State → Text
cluster_self s = if is_empty s.cluster.self_node then text "pve" else s.cluster.self_node

-- the cluster with its first member
unfoldable pub found_cluster : Text → State → State
found_cluster name s = record s {
  cluster = record s.cluster { clustered = true; name = name; members = cluster_self s ∷ [] };
}

unfoldable pub handle_cluster_create : Handler
handle_cluster_create r s = respond s (do
  check_auth r s
  form ← parse_form r
  refuse_if (is_empty (form_get form (text "clustername"))) 400 (text "missing clustername")
  refuse_if s.cluster.clustered 400 (text "cluster config already exists")
  passed (
      task_data (
        finished_task (cluster_self s) (text "clustercreate") (form_get form (text "clustername"))
          r.clock (found_cluster (form_get form (text "clustername")) s))))

-- the members, numbered from 1
unfoldable pub join_nodes : ℕ → List Text → List JoinNode
join_nodes i [] = []
join_nodes i (m ∷ members) =
    record { name = m; node_id = suc i; quorum_votes = 1; pve_fingerprint = cluster_fingerprint }
    ∷ join_nodes (suc i) members

unfoldable pub handle_cluster_join_info : Handler
handle_cluster_join_info r s = respond s (do
  check_auth r s
  refuse_if (not s.cluster.clustered) 400 (text "node is not in a cluster")
  passed (
    join_info (record {
      preferred_node = cluster_self s;
      config_digest = text "mockpve-config-digest";
      totem = (text "cluster_name", s.cluster.name) ∷ [];
      nodelist = join_nodes 0 s.cluster.members;
    }),
    s,
  ))

-- the first of the fields that the form lacks
unfoldable pub require_fields : List Text → Form → Checked (Unit {0})
require_fields [] form = passed tt
require_fields (field ∷ fields) form =
    if is_empty (form_get form field)
    then refused 400 (text "missing " ++ field)
    else require_fields fields form

unfoldable pub check_join : Request → State → Checked (Unit {0})
check_join r s = do
  check_auth r s
  form ← parse_form r
  require_fields (text "hostname" ∷ text "password" ∷ text "fingerprint" ∷ []) form
  refuse_if (not (form_get form (text "fingerprint") == cluster_fingerprint)) 400
      (text "wrong fingerprint")
  refuse_if (not s.cluster.clustered) 400 (text "no cluster to join (create one first)")

unfoldable pub is_member : Text → List Text → Bool
is_member x [] = false
is_member x (y ∷ ys) = (y == x) || is_member x ys

unfoldable pub set_queue : List Text → State → State
set_queue queue s = record s { cluster = record s.cluster { join_queue = queue } }

unfoldable pub add_member : Text → State → State
add_member joined s = record s {
  cluster = record s.cluster { members = s.cluster.members ++ joined ∷ [] };
}

-- the next node of the queue joins; a node that is a member already leaves the queue as well
unfoldable pub join_next : ℕ → List Text → State → Response × State
join_next clock [] s = (
  error_of 400 (
      text "mockpve: no queued joining node "
      ++ (226 ∷ 128 ∷ 148 ∷ text " seed one with QueueClusterJoin before joining")),
  s,
)
join_next clock (joined ∷ queue) s =
    let t = set_queue queue s in
    respond t (do
      refuse_if (is_member joined t.cluster.members) 400
          (text "node " ++ (joined ++ text " is already a cluster member"))
      passed (
          task_data (
            finished_task (cluster_self t) (text "clusterjoin") joined clock
              (add_member joined t))))

unfoldable pub handle_cluster_join : Handler
handle_cluster_join r s =
    answer_in s (check_join r s) (λ _. join_next r.clock s.cluster.join_queue s)

unfoldable pub config_list : ℕ → List Text → List ConfigNode
config_list i [] = []
config_list i (m ∷ members) =
    record { node = m; node_id = suc i; quorum_votes = 1 } ∷ config_list (suc i) members

unfoldable pub handle_cluster_config_nodes : Handler
handle_cluster_config_nodes r s =
    respond s (do check_auth r s; passed (config_nodes (config_list 0 s.cluster.members), s))

pub data ClusterRoute : Type 0 where
  get_cluster_resources : ClusterRoute
  get_cluster_status : ClusterRoute
  post_cluster_config : ClusterRoute
  get_join : ClusterRoute
  post_join : ClusterRoute
  get_config_nodes : ClusterRoute

unfoldable pub serve_cluster : ClusterRoute → Handler
serve_cluster get_cluster_resources = handle_cluster_resources
serve_cluster get_cluster_status = handle_cluster_status
serve_cluster post_cluster_config = handle_cluster_create
serve_cluster get_join = handle_cluster_join_info
serve_cluster post_join = handle_cluster_join
serve_cluster get_config_nodes = handle_cluster_config_nodes
