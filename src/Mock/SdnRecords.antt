-- ===== src/Mock/SdnRecords.antt =====
-- What the mock keeps of the software-defined network, and the rows that it answers:
-- proxmox/mockpve/sdn.go.
use proxmox_go_sdk.Base.{ℕ, Bool, List}
use proxmox_go_sdk.Base.Map.{Map}
use proxmox_go_sdk.Base.Text.{Text}
use proxmox_go_sdk.Base.Number.{ℤ}

-- also `sdnZonePayload`, field by field
pub record ZoneRecord : Type 0 where
  pub zone : Text
  pub kind : Text
  pub mtu : ℤ
  pub nodes : Text
  pub ipam : Text
  pub controller : Text
  pub vrf_vxlan : ℤ
  pub peers : Text
  pub bridge : Text

-- also `sdnVNetPayload`
pub record VnetRecord : Type 0 where
  pub vnet : Text
  pub zone : Text
  pub tag : ℤ
  pub alias : Text

pub record SubnetRecord : Type 0 where
  pub subnet : Text
  pub vnet : Text
  pub gateway : Text
  pub snat : Bool

-- also `sdnFabricPayload`
pub record FabricRecord : Type 0 where
  pub fabric : Text
  pub protocol : Text
  pub ip_prefix : Text
  pub ip6_prefix : Text
  pub route_filter : Text

pub record FabricNodeRecord : Type 0 where
  pub node_id : Text
  pub fabric : Text
  pub protocol : Text
  pub ip : Text
  pub ip6 : Text
  pub interfaces : List Text

pub record SdnState : Type 0 where
  pub zones : Map Text ZoneRecord
  pub vnets : Map Text VnetRecord
  pub fabrics : Map Text FabricRecord
  pub subnets : Map Text (Map Text SubnetRecord)
  pub fabric_nodes : Map Text (Map Text FabricNodeRecord)

pub record SubnetPayload : Type 0 where
  pub subnet : Text
  pub vnet : Text
  pub gateway : Text
  pub snat : ℕ

pub record FabricNodePayload : Type 0 where
  pub node_id : Text
  pub fabric : Text
  pub protocol : Text
  pub ip : Text
  pub ip6 : Text

pub record ZoneStatus : Type 0 where
  pub zone : Text
  pub status : Text

pub record VnetStatus : Type 0 where
  pub vnet : Text
  pub status : Text
  pub status_msg : Text

pub record ZoneBridge : Type 0 where
  pub name : Text
  pub vlan_filtering : Text
  pub ports : List Text

pub record IpVrf : Type 0 where
  pub ip : Text
  pub metric : ℕ
  pub protocol : Text
  pub nexthops : List Text

pub record MacVrf : Type 0 where
  pub ip : Text
  pub mac : Text
  pub nexthop : Text

pub record FabricIface : Type 0 where
  pub name : Text
  pub state : Text
  pub kind : Text

pub record FabricNeighbor : Type 0 where
  pub neighbor : Text
  pub status : Text
  pub uptime : Text

pub record FabricRoute : Type 0 where
  pub route : Text
  pub via : List Text
