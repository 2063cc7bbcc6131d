-- ===== src/Mock/MetricRecords.antt =====
-- Metrics: the records and the payloads of proxmox/mockpve/metrics.go. A float64 is its 64 bits.
use proxmox_go_sdk.Base.{ℕ, Bool, List}
use proxmox_go_sdk.Base.Text.{Text}
use proxmox_go_sdk.Base.Number.{ℤ}

-- `metricServerRecord`
pub record MetricServerRecord : Type 0 where
  pub id : Text
  pub kind : Text
  pub server : Text
  pub port : ℤ
  pub disable : Bool

pub record MetricServerPayload : Type 0 where
  pub id : Text
  pub kind : Text
  pub server : Text
  pub port : ℤ
  pub disable : ℕ

pub record RrdPoint : Type 0 where
  pub time : ℕ
  pub cpu : ℕ
  pub max_cpu : ℕ
  pub mem : ℕ
  pub max_mem : ℕ
  pub net_in : ℕ
  pub net_out : ℕ

pub record MemoryInfo : Type 0 where
  pub total : ℕ
  pub used : ℕ
  pub free : ℕ

pub record NodeStatus : Type 0 where
  pub uptime : ℕ
  pub cpu : ℕ
  pub wait : ℕ
  pub load_avg : List Text
  pub kversion : Text
  pub pve_version : Text
  pub memory : MemoryInfo
