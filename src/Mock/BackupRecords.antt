-- ===== src/Mock/BackupRecords.antt =====
-- Scheduled backups: the records and the payload of proxmox/mockpve/pbs.go.
use proxmox_go_sdk.Base.{ℕ, Bool}
use proxmox_go_sdk.Base.Map.{Map}
use proxmox_go_sdk.Base.Text.{Text}

-- `backupJobRecord`
pub record BackupJobRecord : Type 0 where
  pub id : Text
  pub schedule : Text
  pub storage : Text
  pub mode : Text
  pub enabled : Bool
  pub mailto : Text
  pub comment : Text

-- `pbsState`; `seq` counts the jobs that were given an id
pub record BackupState : Type 0 where
  pub jobs : Map Text BackupJobRecord
  pub seq : ℕ

pub record BackupJobPayload : Type 0 where
  pub id : Text
  pub schedule : Text
  pub storage : Text
  pub mode : Text
  pub enabled : ℕ
  pub mailto : Text
  pub comment : Text
