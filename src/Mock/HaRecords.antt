-- ===== src/Mock/HaRecords.antt =====
-- What the mock keeps of high availability, and the rows that it answers: proxmox/mockpve/ha.go. A
-- `float64` is the number of its 64 bits.
use proxmox_go_sdk.Base.{ℕ, Bool}
use proxmox_go_sdk.Base.Map.{Map}
use proxmox_go_sdk.Base.Text.{Text}
use proxmox_go_sdk.Base.Number.{ℤ}

pub record HaReplRecord : Type 0 where
  pub id : Text
  pub kind : Text
  pub target : Text
  pub schedule : Text
  pub rate : ℕ
  pub disable : Bool
  pub comment : Text

pub record HaRuleRecord : Type 0 where
  pub rule : Text
  pub kind : Text
  pub nodes : Text
  pub resources : Text
  pub affinity : Text
  pub disable : Bool
  pub comment : Text

pub record HaResourceRecord : Type 0 where
  pub sid : Text
  pub kind : Text
  pub state : Text
  pub node : Text
  pub max_restart : ℤ
  pub max_relocate : ℤ
  pub comment : Text

pub record HaState : Type 0 where
  pub resources : Map Text HaResourceRecord
  pub rules : Map Text HaRuleRecord
  pub crs : Text
  pub armed : Bool
  pub resource_mode : Text
  pub repl : Map Text HaReplRecord

pub record HaResourcePayload : Type 0 where
  pub sid : Text
  pub kind : Text
  pub state : Text
  pub max_restart : ℤ
  pub max_relocate : ℤ
  pub comment : Text

pub record HaRulePayload : Type 0 where
  pub rule : Text
  pub kind : Text
  pub nodes : Text
  pub resources : Text
  pub affinity : Text
  pub disable : ℕ
  pub comment : Text

pub record HaReplPayload : Type 0 where
  pub id : Text
  pub kind : Text
  pub target : Text
  pub schedule : Text
  pub rate : ℕ
  pub disable : ℕ
  pub comment : Text

pub record HaStatusPayload : Type 0 where
  pub id : Text
  pub kind : Text
  pub sid : Text
  pub node : Text
  pub state : Text
  pub status : Text
  pub request_state : Text
  pub quorate : ℕ
  pub armed_state : Text
  pub resource_mode : Text
  pub max_restart : ℤ
  pub max_relocate : ℤ
  pub timestamp : ℕ
  pub comment : Text

-- one entry of `service_status`
pub record ServiceStatus : Type 0 where
  pub node : Text
  pub state : Text
  pub uid : Text

-- the blob of `manager_status`, with the quorum beside it
pub record ManagerStatus : Type 0 where
  pub master_node : Text
  pub node_status : Map Text Text
  pub service_status : Map Text ServiceStatus
  pub timestamp : ℕ
  pub quorum : Map Text Text
