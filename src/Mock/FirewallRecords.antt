-- ===== src/Mock/FirewallRecords.antt =====
-- The firewall: the records and the payloads of proxmox/mockpve/firewall.go.
use proxmox_go_sdk.Base.{ℕ, Bool, List}
use proxmox_go_sdk.Base.Map.{Map}
use proxmox_go_sdk.Base.Text.{Text}

-- `fwRuleRecord`; its position is its index
pub record FwRuleRecord : Type 0 where
  pub kind : Text
  pub action : Text
  pub enable : Bool
  pub macro : Text
  pub proto : Text
  pub source : Text
  pub dest : Text
  pub sport : Text
  pub dport : Text
  pub iface : Text
  pub log : Text
  pub comment : Text

-- `fwEntryRecord`
pub record FwEntryRecord : Type 0 where
  pub cidr : Text
  pub no_match : Bool
  pub comment : Text

-- `fwIPSetRecord`
pub record FwIpsetRecord : Type 0 where
  pub name : Text
  pub comment : Text
  pub entries : Map Text FwEntryRecord

-- `fwScope`
pub record FwScope : Type 0 where
  pub rules : List FwRuleRecord
  pub ipsets : Map Text FwIpsetRecord
  pub options : Map Text Text

pub record FwRulePayload : Type 0 where
  pub pos : ℕ
  pub kind : Text
  pub action : Text
  pub enable : ℕ
  pub macro : Text
  pub proto : Text
  pub source : Text
  pub dest : Text
  pub sport : Text
  pub dport : Text
  pub iface : Text
  pub log : Text
  pub comment : Text

pub record FwIpsetPayload : Type 0 where
  pub name : Text
  pub comment : Text

pub record FwEntryPayload : Type 0 where
  pub cidr : Text
  pub no_match : ℕ
  pub comment : Text
