-- ===== src/Mock/CephRecords.antt =====
-- Ceph: the records and the payloads of proxmox/mockpve/ceph.go.
use proxmox_go_sdk.Base.{List}
use proxmox_go_sdk.Base.Map.{Map}
use proxmox_go_sdk.Base.Text.{Text}
use proxmox_go_sdk.Base.Number.{ℤ}

-- `cephPoolRecord`, which is answered as it is
pub record CephPool : Type 0 where
  pub name : Text
  pub size : ℤ
  pub min_size : ℤ
  pub pg_num : ℤ
  pub kind : Text

pub record CephOsd : Type 0 where
  pub id : ℤ
  pub host : Text

pub record CephState : Type 0 where
  pub pools : Map Text CephPool
  pub osds : List CephOsd

-- `cephOSDNodePayload`, with its children
mutual
  pub data OsdNode : Type 0 where
    osd_node : ℤ → Text → Text → Text → OsdNodes → OsdNode

  pub data OsdNodes : Type 0 where
    no_nodes : OsdNodes
    also : OsdNode → OsdNodes → OsdNodes

pub record OsdTree : Type 0 where
  pub flags : Text
  pub root : OsdNode
