-- ===== src/Mock/Store.antt =====
-- Seeding and the helpers that the handlers share: proxmox/mockpve/server.go, qemu.go.
pub mod Reads
pub mod Finished
use proxmox_go_sdk.Base.{
  ℕ, Bool, true, false, Option, none, some, List, [], ◌∷◌, ◌++◌, is_some, if◌then◌else◌,
}
use proxmox_go_sdk.Base.Eq.{text_Eq}
use proxmox_go_sdk.Base.Map.{Map, lookup, insert, erase, contains}
use proxmox_go_sdk.Base.Text.{Text, text}
use proxmox_go_sdk.Base.Number.{ℤ, pos, int_Eq, format_nat}
use proxmox_go_sdk.Tasks.Wait.{LogLine}
use proxmox_go_sdk.Mock.{State, VmRecord, TaskRecord, Value, string}

abbrev pub task_user : Text
task_user = text "root@pam"

abbrev pub stopped : Text
stopped = text "stopped"

abbrev pub running : Text
running = text "running"

-- The state of a server made by `New` without options.
abbrev pub new : State
new = record {
  version = record {
    version = text "9.0.3";
    release = text "9.0";
    repo_id = text "mockpve";
    console = text "xtermjs";
  };
  nodes = (text "pve", []) ∷ [];
  tickets = [];
  users = [];
  vms = [];
  containers = [];
  ha = record { resources = []; rules = []; crs = []; armed = true; resource_mode = []; repl = [] };
  firewall = [];
  ceph = record { pools = []; osds = [] };
  cluster = record {
    resources = [];
    status = [];
    clustered = false;
    name = [];
    self_node = [];
    members = [];
    join_queue = [];
  };
  storage = record { stores = []; content = []; zfs_pools = []; cfg_version = 0; cfg_digest = [] };
  metric_servers = [];
  pbs = record { jobs = []; seq = 0 };
  access = record { users = []; groups = []; roles = []; acls = []; tokens = [] };
  sdn = record { zones = []; vnets = []; fabrics = []; subnets = []; fabric_nodes = [] };
  cluster_options = [];
}

unfoldable pub seed_version : Text → Text → Text → State → State
seed_version version release repo_id s = record s {
  version = record {
    version = version;
    release = release;
    repo_id = repo_id;
    console = text "xtermjs";
  };
}

-- a missing entry of a map of maps, made before it is written
abbrev pub or_empty_map {ℓ} : {A : Type ℓ} → Option (List A) → List A
or_empty_map none = []
or_empty_map (some m) = m

unfoldable pub add_node : Text → State → State
add_node node s = if contains node s.nodes then s else record s { nodes = insert node [] s.nodes }

-- the record that `AddTask` stores: a running task
abbrev pub new_task : Text → Text → Text → Text → Text → ℤ → List LogLine → TaskRecord
new_task node upid kind id user start log = record {
  upid = upid;
  node = node;
  kind = kind;
  id = id;
  user = user;
  exit_status = [];
  stopped = false;
  start_time = start;
  pid = pos 1000;
  log = log;
}

abbrev pub put_task : Text → Text → TaskRecord → State → State
put_task node upid t s = record s {
  nodes = insert node (insert upid t (or_empty_map (lookup node s.nodes))) s.nodes;
}

unfoldable pub add_task : Text → Text → Text → Text → Text → ℤ → List LogLine → State → State
add_task node upid kind id user start log s =
    put_task node upid (new_task node upid kind id user start log) s

unfoldable pub lookup_task : Text → Text → State → Option TaskRecord
lookup_task node upid s = lookup upid (or_empty_map (lookup node s.nodes))

unfoldable pub finish_task : Text → Text → Text → State → State
finish_task node upid exit s = elim (lookup_task node upid s) [
  | none ↦ s
  | some t ↦ put_task node upid (record t { stopped = true; exit_status = exit }) s
]

unfoldable pub add_user : Text → Text → State → State
add_user username password s = record s { users = insert username password s.users }

-- `lookupVM`
unfoldable pub lookup_vm : Text → ℤ → State → Option VmRecord
lookup_vm node vmid s = lookup vmid (or_empty_map (lookup node s.vms))

-- `vms[node][vmid] = rec`, the inner map made if it is missing
unfoldable pub put_vm : Text → ℤ → VmRecord → State → State
put_vm node vmid rec s = record s {
  vms = insert node (insert vmid rec (or_empty_map (lookup node s.vms))) s.vms;
}

-- `delete(vms[node], vmid)`
unfoldable pub delete_vm : Text → ℤ → State → State
delete_vm node vmid s = elim (lookup node s.vms) [
  | none ↦ s
  | some m ↦ record s { vms = insert node (erase vmid m) s.vms }
]

-- the name stands in the config too
abbrev pub named : Text → Map Text Value
named [] = []
named name = (text "name", string name) ∷ []

abbrev pub new_vm : Text → ℤ → Text → Text → VmRecord
new_vm node vmid name status = record {
  vmid = vmid;
  node = node;
  name = name;
  status = status;
  config = named name;
  snapshots = [];
  agent = none;
}

unfoldable pub add_vm : Text → ℤ → Text → Text → State → State
add_vm node vmid name status s = put_vm node vmid (new_vm node vmid name status) s

-- a change through the pointer that `lookupVM` returns, if it is not nil
unfoldable pub update_vm : Text → ℤ → (VmRecord → VmRecord) → State → State
update_vm node vmid change s = elim (lookup_vm node vmid s) [
  | none ↦ s
  | some rec ↦ put_vm node vmid (change rec) s
]

unfoldable pub merge : Map Text Value → Map Text Value → Map Text Value
merge [] config = config
merge ((k, v) ∷ fields) config = merge fields (insert k v config)

unfoldable pub set_vm_config : Text → ℤ → Map Text Value → State → State
set_vm_config node vmid fields =
    update_vm node vmid (λ r. record r { config = merge fields r.config })

unfoldable pub set_vm_agent_result : Text → ℤ → ℤ → Text → Text → State → State
set_vm_agent_result node vmid code out err =
    update_vm node vmid
      (λ r. record r { agent = some (record { exit_code = code; out_data = out; err_data = err }) })

unfoldable pub vm_exists : Text → ℤ → State → Bool
vm_exists node vmid s = is_some (lookup_vm node vmid s)

-- `FormatInt` prints the clock in base 16
unfoldable pub synth_upid : Text → Text → Text → ℕ → Text
synth_upid node kind id clock =
    text "UPID:"
    ++ (node
        ++ (text ":00000001:00000001:"
            ++ (format_nat 16 clock
                ++ (text ":"
                    ++ (kind ++ (text ":" ++ (id ++ (text ":" ++ (task_user ++ text ":")))))))))

-- a task that is over, with exit status OK
unfoldable pub finished_task : Text → Text → Text → ℕ → State → Text × State
finished_task node kind id clock s =
    let upid = synth_upid node kind id clock in
    (
      upid,
      finish_task node upid (text "OK") (add_task node upid kind id task_user (pos clock) [] s),
    )
