-- ===== src/Mock.antt =====
-- The in-memory server behind the SDK's tests: the model that proxmox/mockpve keeps (state.go,
-- qemu.go), the requests that its handlers read, and their answers. A handler locks the state for
-- each access; one request is served at a time here. `clock` is what `time.Now` gives, in seconds.
pub mod Store
pub mod Server
pub mod Vm
pub mod Snapshot
pub mod Routes
pub mod Container
pub mod Checks
pub mod Guests
pub mod HaRecords
pub mod SdnRecords
pub mod AccessRecords
pub mod CephRecords
pub mod ClusterRecords
pub mod StorageRecords
pub mod MetricRecords
pub mod BackupRecords
pub mod FirewallRecords
pub mod Collection
pub mod Ha
pub mod Sdn
pub mod Access
pub mod Ceph
pub mod Cluster
pub mod Storage
pub mod Metrics
pub mod Backup
pub mod Firewall
mod Tests
use proxmox_go_sdk.Base.{ℕ, Bool, true, false, Option, none, some, List, [], ◌∷◌}
use proxmox_go_sdk.Base.Eq.{text_Eq}
use proxmox_go_sdk.Base.Map.{Map, lookup}
use proxmox_go_sdk.Base.Text.{Text, text}
use proxmox_go_sdk.Base.Number.{ℤ, pos}
use proxmox_go_sdk.Tasks.Wait.{LogLine}
use proxmox_go_sdk.Mock.HaRecords.{
  HaState, HaResourcePayload, HaRulePayload, HaReplPayload, HaStatusPayload, ManagerStatus,
}
use proxmox_go_sdk.Mock.AccessRecords.{
  AccessState, UserPayload, GroupRecord, RolePayload, AclPayload, AccessTokenPayload,
}
use proxmox_go_sdk.Mock.FirewallRecords.{FwScope, FwRulePayload, FwIpsetPayload, FwEntryPayload}
use proxmox_go_sdk.Mock.MetricRecords.{
  MetricServerRecord, MetricServerPayload, RrdPoint, NodeStatus,
}
use proxmox_go_sdk.Mock.BackupRecords.{BackupState, BackupJobPayload}
use proxmox_go_sdk.Mock.StorageRecords.{
  StorageState, StorageStatus, VolRecord, ZfsListPayload, ZfsStatusPayload,
}
use proxmox_go_sdk.Mock.ClusterRecords.{
  ClusterState, ClusterResource, ClusterStatusPayload, JoinInfo, ConfigNode,
}
use proxmox_go_sdk.Mock.CephRecords.{CephState, CephPool, OsdTree}
use proxmox_go_sdk.Mock.SdnRecords.{
  SdnState, ZoneRecord, VnetRecord, SubnetPayload, FabricRecord, FabricNodePayload, ZoneStatus,
  VnetStatus, ZoneBridge, IpVrf, MacVrf, FabricIface, FabricNeighbor, FabricRoute,
}

-- what `parseConfigValue` and the tests put in a config: `any` holds an int or a string
pub data Value : Type 0 where
  number : ℤ → Value
  string : Text → Value

pub record SnapRecord : Type 0 where
  pub name : Text
  pub description : Text
  pub vm_state : Bool
  pub snap_time : ℤ

pub record AgentResult : Type 0 where
  pub exit_code : ℤ
  pub out_data : Text
  pub err_data : Text

pub record VmRecord : Type 0 where
  pub vmid : ℤ
  pub node : Text
  pub name : Text
  pub status : Text
  pub config : Map Text Value
  pub snapshots : Map Text SnapRecord
  pub agent : Option AgentResult

pub record TaskRecord : Type 0 where
  pub upid : Text
  pub node : Text
  pub kind : Text
  pub id : Text
  pub user : Text
  pub exit_status : Text
  pub stopped : Bool
  pub start_time : ℤ
  pub pid : ℤ
  pub log : List LogLine

pub record VersionData : Type 0 where
  pub version : Text
  pub release : Text
  pub repo_id : Text
  pub console : Text

pub record TicketRecord : Type 0 where
  pub username : Text
  pub csrf : Text

-- `nodes` holds each node's tasks; `vms` and `containers` the guests' records by
-- node and number; `cluster_options` is `cluster.options`
pub record State : Type 0 where
  pub version : VersionData
  pub nodes : Map Text (Map Text TaskRecord)
  pub tickets : Map Text TicketRecord
  pub users : Map Text Text
  pub vms : Map Text (Map ℤ VmRecord)
  pub containers : Map Text (Map ℤ VmRecord)
  pub ha : HaState
  pub sdn : SdnState
  pub cluster_options : Map Text Text
  pub cluster : ClusterState
  pub access : AccessState
  pub firewall : Map Text FwScope
  pub metric_servers : Map Text MetricServerRecord
  pub pbs : BackupState
  pub ceph : CephState
  pub storage : StorageState

-- `url.Values`
abbrev pub Form : Type 0
Form = Map Text (List Text)

-- A request after routing: headers, the pattern's wildcards (`path` has those without a field of
-- their own), the URL's query, and the body's form unless `ParseForm` refuses it.
pub record Request : Type 0 where
  pub authorization : Text
  pub cookie : Option Text
  pub node : Text
  pub vmid : Text
  pub snap : Text
  pub upid : Text
  pub storage : Text
  pub path : Map Text Text
  pub query : Form
  pub form : Option Form
  pub clock : ℕ

pub record ListEntry : Type 0 where
  pub vmid : ℤ
  pub name : Text
  pub status : Text
  pub template : ℤ

pub record StatusPayload : Type 0 where
  pub vmid : ℤ
  pub name : Text
  pub status : Text

pub record SnapshotPayload : Type 0 where
  pub name : Text
  pub description : Text
  pub vm_state : ℕ
  pub snap_time : ℤ

pub record ExecStatus : Type 0 where
  pub exited : ℕ
  pub exit_code : ℤ
  pub out_data : Text
  pub err_data : Text

pub record TicketPayload : Type 0 where
  pub ticket : Text
  pub csrf : Text
  pub username : Text

pub record TaskStatus : Type 0 where
  pub upid : Text
  pub node : Text
  pub kind : Text
  pub id : Text
  pub user : Text
  pub status : Text
  pub exit_status : Text
  pub pid : ℤ
  pub start_time : ℤ

-- the `data` of an envelope
pub data Payload : Type 0 where
  null : Payload
  upid : Text → Payload
  listing : List ListEntry → Payload
  vm : StatusPayload → Payload
  vm_config : Map Text Value → Payload
  snapshots : List SnapshotPayload → Payload
  exec : ℕ → Payload
  exec_status : ExecStatus → Payload
  version : VersionData → Payload
  ticket : TicketPayload → Payload
  task : TaskStatus → Payload
  log : List LogLine → Payload
  ha_resource : HaResourcePayload → Payload
  ha_resources : List HaResourcePayload → Payload
  ha_rule : HaRulePayload → Payload
  ha_rules : List HaRulePayload → Payload
  ha_repl : HaReplPayload → Payload
  ha_repls : List HaReplPayload → Payload
  ha_status : List HaStatusPayload → Payload
  ha_manager : ManagerStatus → Payload
  strings : Map Text Text → Payload
  zone : ZoneRecord → Payload
  zones : List ZoneRecord → Payload
  vnet : VnetRecord → Payload
  vnets : List VnetRecord → Payload
  subnet : SubnetPayload → Payload
  subnets : List SubnetPayload → Payload
  fabric : FabricRecord → Payload
  fabrics : List FabricRecord → Payload
  fabric_node : FabricNodePayload → Payload
  fabric_nodes : List FabricNodePayload → Payload
  zone_statuses : List ZoneStatus → Payload
  vnet_statuses : List VnetStatus → Payload
  zone_bridges : List ZoneBridge → Payload
  ip_vrfs : List IpVrf → Payload
  mac_vrfs : List MacVrf → Payload
  fabric_ifaces : List FabricIface → Payload
  fabric_neighbors : List FabricNeighbor → Payload
  fabric_routes : List FabricRoute → Payload
  user : UserPayload → Payload
  users : List UserPayload → Payload
  group : GroupRecord → Payload
  groups : List GroupRecord → Payload
  roles : List RolePayload → Payload
  privileges : Map Text ℕ → Payload
  acls : List AclPayload → Payload
  token : AccessTokenPayload → Payload
  tokens : List AccessTokenPayload → Payload
  fw_rule : FwRulePayload → Payload
  fw_rules : List FwRulePayload → Payload
  ipsets : List FwIpsetPayload → Payload
  ipset_entries : List FwEntryPayload → Payload
  metric_server : MetricServerPayload → Payload
  metric_servers : List MetricServerPayload → Payload
  rrd : List RrdPoint → Payload
  node_status : NodeStatus → Payload
  backup_job : BackupJobPayload → Payload
  backup_jobs : List BackupJobPayload → Payload
  cluster_resources : List ClusterResource → Payload
  cluster_statuses : List ClusterStatusPayload → Payload
  join_info : JoinInfo → Payload
  config_nodes : List ConfigNode → Payload
  ceph_pool : CephPool → Payload
  ceph_pools : List CephPool → Payload
  osd_tree : OsdTree → Payload
  ceph_status : Text → Text → Payload
  raw_text : Text → Payload
  datastore : Map Text Value → Payload
  datastores : List (Map Text Value) → Payload
  datastore_written : Text → Text → Payload
  storage_status : StorageStatus → Payload
  storage_statuses : List StorageStatus → Payload
  volume : VolRecord → Payload
  volumes : List VolRecord → Payload
  volid : Text → Payload
  zfs_list : List ZfsListPayload → Payload
  zfs_status : ZfsStatusPayload → Payload

-- `writeData` answers 200 with the data, `writeError` a status and a message
pub data Response : Type 0 where
  data_of : Payload → Response
  error_of : ℕ → Text → Response

-- A step of a handler that may write an error and return.
pub data Checked {ℓ} (A : Type ℓ) : Type ℓ where
  passed : A → Checked A
  refused : ℕ → Text → Checked A

infixl 5 ◌>>=◌ ◌>>◌
abbrev pub ◌>>=◌ {ℓ κ} : {A : Type ℓ} {B : Type κ} → Checked A → (A → Checked B) → Checked B
refused code message >>= next = refused code message
passed found >>= next = next found

abbrev pub ◌>>◌ {ℓ} : {B : Type ℓ} → Checked (Unit {0}) → Checked B → Checked B
refused code message >> next = refused code message
passed _ >> next = next

unfoldable pub refuse_if : Bool → ℕ → Text → Checked (Unit {0})
refuse_if true code message = refused code message
refuse_if false code message = passed tt

unfoldable pub found_or {ℓ} : {A : Type ℓ} → Option A → ℕ → Text → Checked A
found_or none code message = refused code message
found_or (some a) code message = passed a

-- `url.Values.Get`
abbrev pub first_value : Option (List Text) → Text
first_value (some (v ∷ vs)) = v
first_value _ = []

unfoldable pub form_get : Form → Text → Text
form_get form key = first_value (lookup key form)

-- A handler: the answer and the state that it leaves.
abbrev pub Handler : Type 0
Handler = Request → State → Response × State

-- the response of a handler that was refused leaves the state as that step found it
unfoldable pub respond : State → Checked (Payload × State) → Response × State
respond s (refused code message) = (error_of code message, s)
respond s (passed (p, t)) = (data_of p, t)
