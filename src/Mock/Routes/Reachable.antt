-- ===== src/Mock/Routes/Reachable.antt =====
-- The states that a server of proxmox/mockpve can come to, by seeding and by requests in any order.
use proxmox_go_sdk.Base.{Option, ℕ, refl, List, arith, ◌≡◌}
use proxmox_go_sdk.Base.Text.{Text}
use proxmox_go_sdk.Base.Number.{ℤ}
use proxmox_go_sdk.Base.Map.{Map, lookup}
use proxmox_go_sdk.Tasks.Wait.{LogLine}
use proxmox_go_sdk.Mock.{Request, State, Value}
use proxmox_go_sdk.Mock.Store.{
  new, add_vm, add_user, add_node, add_task, finish_task, seed_version, set_vm_config,
  set_vm_agent_result, lookup_vm,
}
use proxmox_go_sdk.Mock.Routes.{Route, serve}
use proxmox_go_sdk.Mock.Routes.Others.{OtherRoute, serve_other, vms-serve_other}
use proxmox_go_sdk.Mock.Routes.Filed.{IsFiled, put_vm-IsFiled, update_vm-IsFiled}
use proxmox_go_sdk.Mock.Routes.Invariant.{serve-IsFiled}
use proxmox_go_sdk.Mock.Container.{add_container, put_ct, set_ct_config}
use proxmox_go_sdk.Mock.Container.Isolation.{vms-update_ct}

pub data Step : State → State → Type 0 where
  request : (route : Route) (r : Request) (s : State) → Step s (serve route r s).1
  other_request :
      (parse_float : Text → Option ℕ) (route : OtherRoute) (r : Request) (s : State)
      → Step s (serve_other parse_float route r s).1
  seed_vm :
      (node : Text) (vmid : ℤ) (name status : Text) (s : State)
      → Step s (add_vm node vmid name status s)
  seed_config :
      (node : Text) (vmid : ℤ) (fields : Map Text Value) (s : State)
      → Step s (set_vm_config node vmid fields s)
  seed_agent :
      (node : Text) (vmid code : ℤ) (out err : Text) (s : State)
      → Step s (set_vm_agent_result node vmid code out err s)
  seed_ct :
      (node : Text) (vmid : ℤ) (name status : Text) (s : State)
      → Step s (add_container node vmid name status s)
  seed_ct_config :
      (node : Text) (vmid : ℤ) (fields : Map Text Value) (s : State)
      → Step s (set_ct_config node vmid fields s)
  seed_user : (username password : Text) (s : State) → Step s (add_user username password s)
  seed_node : (node : Text) (s : State) → Step s (add_node node s)
  seed_task :
      (node upid kind id user : Text) (start : ℤ) (log : List LogLine) (s : State)
      → Step s (add_task node upid kind id user start log s)
  end_task : (node upid exit : Text) (s : State) → Step s (finish_task node upid exit s)
  seed_release :
      (version release repo_id : Text) (s : State) → Step s (seed_version version release repo_id s)

pub data Reachable : State → Type 0 where
  fresh : Reachable new
  after : {s t : State} → Reachable s → Step s t → Reachable t

pub new-IsFiled : IsFiled new
unfolding IsFiled lookup_vm lookup
new-IsFiled n i rec h = ground (arith, h)

-- the invariant speaks of the guests only
same_vms-IsFiled : (s t : State) → t.vms ≡ s.vms → IsFiled s → IsFiled t
unfolding IsFiled lookup_vm
same_vms-IsFiled s t same filed = rw (same) filed

vms-finish_task : (node upid exit : Text) (s : State) → (finish_task node upid exit s).vms ≡ s.vms
unfolding finish_task
vms-finish_task node upid exit s = ground arith

vms-add_node : (node : Text) (s : State) → (add_node node s).vms ≡ s.vms
unfolding add_node
vms-add_node node s = ground arith

Step-IsFiled : (s t : State) → Step s t → IsFiled s → IsFiled t
unfolding add_vm add_container put_ct set_vm_config set_vm_agent_result set_ct_config add_user
    add_task seed_version
Step-IsFiled _ _ (request route r s) filed = serve-IsFiled route r s filed
Step-IsFiled _ _ (other_request parse_float route r s) filed =
    same_vms-IsFiled s _ (vms-serve_other parse_float route r s) filed
Step-IsFiled _ _ (seed_vm node vmid name status s) filed =
    put_vm-IsFiled node vmid s filed _ refl refl
Step-IsFiled _ _ (seed_config node vmid fields s) filed =
    update_vm-IsFiled node vmid s filed _ (λ r. (refl, refl))
Step-IsFiled _ _ (seed_agent node vmid code out err s) filed =
    update_vm-IsFiled node vmid s filed _ (λ r. (refl, refl))
Step-IsFiled _ _ (seed_ct node vmid name status s) filed = same_vms-IsFiled s _ refl filed
Step-IsFiled _ _ (seed_ct_config node vmid fields s) filed =
    same_vms-IsFiled s _ (vms-update_ct node vmid _ s) filed
Step-IsFiled _ _ (seed_user username password s) filed = same_vms-IsFiled s _ refl filed
Step-IsFiled _ _ (seed_node node s) filed = same_vms-IsFiled s _ (vms-add_node node s) filed
Step-IsFiled _ _ (seed_task node upid kind id user start log s) filed =
    same_vms-IsFiled s _ refl filed
Step-IsFiled _ _ (end_task node upid exit s) filed =
    same_vms-IsFiled s _ (vms-finish_task node upid exit s) filed
Step-IsFiled _ _ (seed_release version release repo_id s) filed = same_vms-IsFiled s _ refl filed

-- In every state that a new server comes to, by seeding guests, containers, users, nodes, tasks and
-- the release, and by requests for guests, containers, high availability, the network, access control,
-- the firewall, metrics, backups, the cluster, Ceph and storages, uploads aside, in any order, each
-- QEMU guest is stored under its own node and number.
pub Reachable-IsFiled : (s : State) → Reachable s → IsFiled s
Reachable-IsFiled _ fresh = new-IsFiled
Reachable-IsFiled _ (after {s = s} {t = t} reached step) =
    Step-IsFiled s t step (Reachable-IsFiled s reached)
