-- ===== src/Mock/StorageRecords.antt =====
-- Storages, volumes and ZFS pools: the records and the payloads of proxmox/mockpve/storage.go.
use proxmox_go_sdk.Base.{ℕ, Bool, List}
use proxmox_go_sdk.Base.Map.{Map}
use proxmox_go_sdk.Base.Text.{Text}
use proxmox_go_sdk.Base.Number.{ℤ}

-- `zfsRecord`
pub record ZfsRecord : Type 0 where
  pub name : Text
  pub size : ℤ
  pub free : ℤ
  pub health : Text
  pub state : Text

-- `storeRecord`
pub record StoreRecord : Type 0 where
  pub storage : Text
  pub kind : Text
  pub content : Text
  pub path : Text
  pub pool : Text
  pub nodes : Text
  pub shared : Bool
  pub disable : Bool
  pub total : ℤ
  pub used : ℤ
  pub extra : Map Text Text

-- `volRecord`, which is answered as it is
pub record VolRecord : Type 0 where
  pub volid : Text
  pub content : Text
  pub format : Text
  pub size : ℤ
  pub vmid : ℤ

pub record StorageState : Type 0 where
  pub stores : Map Text StoreRecord
  pub content : Map Text (Map Text (List VolRecord))
  pub zfs_pools : Map Text (Map Text ZfsRecord)
  pub cfg_version : ℕ
  pub cfg_digest : Text

pub record StorageStatus : Type 0 where
  pub storage : Text
  pub kind : Text
  pub content : Text
  pub active : ℕ
  pub enabled : ℕ
  pub shared : ℕ
  pub total : ℤ
  pub used : ℤ
  pub avail : ℤ

pub record ZfsListPayload : Type 0 where
  pub name : Text
  pub size : ℤ
  pub free : ℤ
  pub health : Text

pub record ZfsStatusPayload : Type 0 where
  pub name : Text
  pub state : Text
