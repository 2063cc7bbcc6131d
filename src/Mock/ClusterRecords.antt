-- ===== src/Mock/ClusterRecords.antt =====
-- The cluster: the records and the payloads of proxmox/mockpve/cluster.go.
use proxmox_go_sdk.Base.{ℕ, Bool, List}
use proxmox_go_sdk.Base.Map.{Map}
use proxmox_go_sdk.Base.Text.{Text}
use proxmox_go_sdk.Base.Number.{ℤ}

-- `clusterResourceRecord`, which is answered as it is
pub record ClusterResource : Type 0 where
  pub id : Text
  pub kind : Text
  pub node : Text
  pub status : Text
  pub name : Text
  pub vmid : ℤ

pub record ClusterStatusRecord : Type 0 where
  pub id : Text
  pub kind : Text
  pub name : Text
  pub nodes : ℤ
  pub quorate : Bool
  pub online : Bool

-- `clusterState`, but for the options
pub record ClusterState : Type 0 where
  pub resources : List ClusterResource
  pub status : List ClusterStatusRecord
  pub clustered : Bool
  pub name : Text
  pub self_node : Text
  pub members : List Text
  pub join_queue : List Text

pub record ClusterStatusPayload : Type 0 where
  pub id : Text
  pub kind : Text
  pub name : Text
  pub nodes : ℤ
  pub quorate : ℕ
  pub online : ℕ

pub record JoinNode : Type 0 where
  pub name : Text
  pub node_id : ℕ
  pub quorum_votes : ℕ
  pub pve_fingerprint : Text

pub record JoinInfo : Type 0 where
  pub preferred_node : Text
  pub config_digest : Text
  pub totem : Map Text Text
  pub nodelist : List JoinNode

pub record ConfigNode : Type 0 where
  pub node : Text
  pub node_id : ℕ
  pub quorum_votes : ℕ
