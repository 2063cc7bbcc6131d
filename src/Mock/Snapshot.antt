-- ===== src/Mock/Snapshot.antt =====
-- Snapshots and the guest agent: proxmox/mockpve/qemu.go.
pub mod Lifecycle
use proxmox_go_sdk.Base.{
  ℕ, Bool, true, false, not, Option, none, some, List, [], ◌∷◌, ◌++◌, if◌then◌else◌, map,
}
use proxmox_go_sdk.Base.Eq.{◌==◌, text_Eq}
use proxmox_go_sdk.Base.Map.{lookup, insert, erase, contains}
use proxmox_go_sdk.Base.Text.{Text, text, is_empty}
use proxmox_go_sdk.Base.Number.{ℤ, pos, itoa}
use proxmox_go_sdk.Mock.{
  State, Request, Handler, Checked, passed, ◌>>=◌, ◌>>◌, refuse_if, respond, null, snapshots, exec,
  exec_status, Form, form_get, VmRecord, SnapRecord, SnapshotPayload, ExecStatus, AgentResult,
}
use proxmox_go_sdk.Mock.Store.{lookup_vm, put_vm, update_vm, vm_exists, finished_task}
use proxmox_go_sdk.Mock.Server.{check_auth, parse_form}
use proxmox_go_sdk.Mock.Vm.{path_vmid, find_vm, task_data, no_such_vm}

abbrev pub snapshot_payload : Text × SnapRecord → SnapshotPayload
snapshot_payload (_, snap) = record {
  name = snap.name;
  description = snap.description;
  vm_state = if snap.vm_state then 1 else 0;
  snap_time = snap.snap_time;
}

-- the live state, which PVE appends
abbrev pub current_entry : SnapshotPayload
current_entry = record {
  name = text "current";
  description = text "You are here!";
  vm_state = 0;
  snap_time = pos 0;
}

unfoldable pub handle_snapshot_list : Handler
handle_snapshot_list r s = respond s (do
  check_auth r s
  vmid ← path_vmid r
  rec ← find_vm r.node vmid s
  passed (snapshots (map snapshot_payload rec.snapshots ++ current_entry ∷ []), s))

abbrev pub new_snapshot : Form → Text → SnapRecord
new_snapshot form name = record {
  name = name;
  description = form_get form (text "description");
  vm_state = form_get form (text "vmstate") == text "1";
  snap_time = pos 0;
}

unfoldable pub handle_snapshot_create : Handler
handle_snapshot_create r s = respond s (do
  check_auth r s
  vmid ← path_vmid r
  form ← parse_form r
  refuse_if (is_empty (form_get form (text "snapname"))) 400 (text "missing snapname")
  rec ← find_vm r.node vmid s
  passed (
      task_data (
        finished_task r.node (text "qmsnapshot") (itoa vmid) r.clock (
          put_vm r.node vmid
            (record rec {
              snapshots =
                  insert (form_get form (text "snapname"))
                    (new_snapshot form (form_get form (text "snapname"))) rec.snapshots;
            })
            s))))

abbrev pub has_snapshot : Text → Option VmRecord → Bool
has_snapshot name none = false
has_snapshot name (some rec) = contains name rec.snapshots

-- `snapshotTarget`: the VM's number, where it has the snapshot
unfoldable pub snapshot_target : Request → State → Checked ℤ
snapshot_target r s = do
  vmid ← path_vmid r
  refuse_if (not (has_snapshot r.snap (lookup_vm r.node vmid s))) 404 (text "no such snapshot")
  passed vmid

unfoldable pub handle_snapshot_rollback : Handler
handle_snapshot_rollback r s = respond s (do
  check_auth r s
  vmid ← snapshot_target r s
  passed (task_data (finished_task r.node (text "qmrollback") (itoa vmid) r.clock s)))

abbrev pub drop_snapshot : Text → VmRecord → VmRecord
drop_snapshot name rec = record rec { snapshots = erase name rec.snapshots }

unfoldable pub handle_snapshot_delete : Handler
handle_snapshot_delete r s = respond s (do
  check_auth r s
  vmid ← snapshot_target r s
  passed (
      task_data (
        finished_task r.node (text "qmdelsnapshot") (itoa vmid) r.clock
          (update_vm r.node vmid (drop_snapshot r.snap) s))))

abbrev pub agent_pid : ℕ
agent_pid = 1000

-- `agentVMExists`
unfoldable pub agent_vm_exists : Request → State → Checked (Unit {0})
agent_vm_exists r s = do
  vmid ← path_vmid r
  refuse_if (not (vm_exists r.node vmid s)) 404 no_such_vm

unfoldable pub handle_agent_ping : Handler
handle_agent_ping r s = respond s (do check_auth r s; agent_vm_exists r s; passed (null, s))

-- `len(form["command"]) == 0`
abbrev pub no_values : Option (List Text) → Bool
no_values (some (v ∷ vs)) = false
no_values _ = true

unfoldable pub handle_agent_exec : Handler
handle_agent_exec r s = respond s (do
  check_auth r s
  agent_vm_exists r s
  form ← parse_form r
  refuse_if (no_values (lookup (text "command") form)) 400 (text "missing command")
  passed (exec agent_pid, s))

abbrev pub agent_payload : Option AgentResult → ExecStatus
agent_payload none = record { exited = 1; exit_code = pos 0; out_data = []; err_data = [] }
agent_payload (some a) = record {
  exited = 1;
  exit_code = a.exit_code;
  out_data = a.out_data;
  err_data = a.err_data;
}

unfoldable pub handle_agent_exec_status : Handler
handle_agent_exec_status r s = respond s (do
  check_auth r s
  vmid ← path_vmid r
  rec ← find_vm r.node vmid s
  passed (exec_status (agent_payload rec.agent), s))
