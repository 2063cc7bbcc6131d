-- ===== src/Mock/Container.antt =====
-- Containers, with the records of the guests: proxmox/mockpve/lxc.go.
pub mod Routes
pub mod Isolation
pub mod Lifecycle
mod Tests
use proxmox_go_sdk.Base.{
  Bool, false, ◌||◌, not, Option, none, some, List, [], ◌∷◌, ◌++◌, is_some, map, if◌then◌else◌,
}
use proxmox_go_sdk.Base.Eq.{text_Eq}
use proxmox_go_sdk.Base.Map.{Map, lookup, insert, erase}
use proxmox_go_sdk.Base.Text.{Text, text, is_empty}
use proxmox_go_sdk.Base.Number.{ℤ, pos, atoi, itoa, int_Eq}
use proxmox_go_sdk.Mock.{
  State, Request, Handler, Checked, passed, ◌>>=◌, ◌>>◌, refuse_if, found_or, respond, null,
  listing, vm, vm_config, snapshots, Form, form_get, Value, string, VmRecord, ListEntry, SnapRecord,
  SnapshotPayload,
}
use proxmox_go_sdk.Mock.Store.{finished_task, stopped, or_empty_map, merge}
use proxmox_go_sdk.Mock.Server.{check_auth, parse_form}
use proxmox_go_sdk.Mock.Vm.{
  path_vmid, task_data, no_such_vm, apply_config_form, Power, verb, power_status,
}
use proxmox_go_sdk.Mock.Snapshot.{current_entry, has_snapshot, drop_snapshot}

unfoldable pub lookup_ct : Text → ℤ → State → Option VmRecord
lookup_ct node vmid s = lookup vmid (or_empty_map (lookup node s.containers))

unfoldable pub put_ct : Text → ℤ → VmRecord → State → State
put_ct node vmid rec s = record s {
  containers = insert node (insert vmid rec (or_empty_map (lookup node s.containers))) s.containers;
}

unfoldable pub delete_ct : Text → ℤ → State → State
delete_ct node vmid s = elim (lookup node s.containers) [
  | none ↦ s
  | some m ↦ record s { containers = insert node (erase vmid m) s.containers }
]

-- the name stands in the config as the hostname
abbrev pub hosted : Text → Map Text Value
hosted [] = []
hosted name = (text "hostname", string name) ∷ []

abbrev pub new_ct : Text → ℤ → Text → Text → VmRecord
new_ct node vmid name status = record {
  vmid = vmid;
  node = node;
  name = name;
  status = status;
  config = hosted name;
  snapshots = [];
  agent = none;
}

unfoldable pub add_container : Text → ℤ → Text → Text → State → State
add_container node vmid name status s = put_ct node vmid (new_ct node vmid name status) s

unfoldable pub update_ct : Text → ℤ → (VmRecord → VmRecord) → State → State
update_ct node vmid change s = elim (lookup_ct node vmid s) [
  | none ↦ s
  | some rec ↦ put_ct node vmid (change rec) s
]

unfoldable pub set_ct_config : Text → ℤ → Map Text Value → State → State
set_ct_config node vmid fields =
    update_ct node vmid (λ r. record r { config = merge fields r.config })

unfoldable pub ct_exists : Text → ℤ → State → Bool
ct_exists node vmid s = is_some (lookup_ct node vmid s)

unfoldable pub find_ct : Text → ℤ → State → Checked VmRecord
find_ct node vmid s = found_or (lookup_ct node vmid s) 404 no_such_vm

-- the form is checked, and no volume is stored
unfoldable pub handle_download_url : Handler
handle_download_url r s = respond s (do
  check_auth r s
  form ← parse_form r
  refuse_if (is_empty (form_get form (text "url")) || is_empty (form_get form (text "filename")))
      400 (text "missing url or filename")
  passed (task_data (finished_task r.node (text "download") r.storage r.clock s)))

abbrev pub ct_entry : ℤ × VmRecord → ListEntry
ct_entry (_, rec) = record {
  vmid = rec.vmid;
  name = rec.name;
  status = rec.status;
  template = pos 0;
}

unfoldable pub handle_ct_list : Handler
handle_ct_list r s = respond s (do
  check_auth r s
  passed (listing (map ct_entry (or_empty_map (lookup r.node s.containers))), s))

unfoldable pub handle_ct_status : Handler
handle_ct_status r s = respond s (do
  check_auth r s
  vmid ← path_vmid r
  rec ← find_ct r.node vmid s
  passed (vm (record { vmid = rec.vmid; name = rec.name; status = rec.status }), s))

unfoldable pub handle_ct_config : Handler
handle_ct_config r s = respond s (do
  check_auth r s
  vmid ← path_vmid r
  rec ← find_ct r.node vmid s
  passed (vm_config rec.config, s))

unfoldable pub handle_ct_set_config : Handler
handle_ct_set_config r s = respond s (do
  check_auth r s
  vmid ← path_vmid r
  form ← parse_form r
  rec ← find_ct r.node vmid s
  passed (null, put_ct r.node vmid (apply_config_form form rec) s))

unfoldable pub handle_ct_create : Handler
handle_ct_create r s = respond s (do
  check_auth r s
  form ← parse_form r
  id ← found_or (atoi (form_get form (text "vmid"))) 400 (text "invalid vmid")
  passed (
      task_data (
        finished_task r.node (text "vzcreate") (itoa id) r.clock (
          update_ct r.node id (apply_config_form (erase (text "vmid") form))
            (add_container r.node id (form_get form (text "hostname")) stopped s)))))

unfoldable pub handle_ct_clone : Handler
handle_ct_clone r s = respond s (do
  check_auth r s
  src ← path_vmid r
  refuse_if (not (ct_exists r.node src s)) 404 no_such_vm
  form ← parse_form r
  new_id ← found_or (atoi (form_get form (text "newid"))) 400 (text "invalid newid")
  passed (
      task_data (
        finished_task r.node (text "vzclone") (itoa src) r.clock
          (add_container r.node new_id (form_get form (text "hostname")) stopped s))))

unfoldable pub handle_ct_delete : Handler
handle_ct_delete r s = respond s (do
  check_auth r s
  vmid ← path_vmid r
  refuse_if (not (ct_exists r.node vmid s)) 404 no_such_vm
  passed (
      task_data
        (finished_task r.node (text "vzdestroy") (itoa vmid) r.clock (delete_ct r.node vmid s))))

unfoldable pub handle_ct_power : Power → Handler
handle_ct_power action r s = respond s (do
  check_auth r s
  vmid ← path_vmid r
  rec ← find_ct r.node vmid s
  passed (
      task_data (
        finished_task r.node (text "vz" ++ verb action) (itoa vmid) r.clock
          (put_ct r.node vmid (record rec { status = power_status action }) s))))

-- no memory state is reported for a container
abbrev pub ct_snapshot_payload : Text × SnapRecord → SnapshotPayload
ct_snapshot_payload (_, snap) = record {
  name = snap.name;
  description = snap.description;
  vm_state = 0;
  snap_time = snap.snap_time;
}

unfoldable pub handle_ct_snapshot_list : Handler
handle_ct_snapshot_list r s = respond s (do
  check_auth r s
  vmid ← path_vmid r
  rec ← find_ct r.node vmid s
  passed (snapshots (map ct_snapshot_payload rec.snapshots ++ current_entry ∷ []), s))

abbrev pub new_ct_snapshot : Form → Text → SnapRecord
new_ct_snapshot form name = record {
  name = name;
  description = form_get form (text "description");
  vm_state = false;
  snap_time = pos 0;
}

unfoldable pub handle_ct_snapshot_create : Handler
handle_ct_snapshot_create r s = respond s (do
  check_auth r s
  vmid ← path_vmid r
  form ← parse_form r
  refuse_if (is_empty (form_get form (text "snapname"))) 400 (text "missing snapname")
  rec ← find_ct r.node vmid s
  passed (
      task_data (
        finished_task r.node (text "vzsnapshot") (itoa vmid) r.clock (
          put_ct r.node vmid
            (record rec {
              snapshots =
                  insert (form_get form (text "snapname"))
                    (new_ct_snapshot form (form_get form (text "snapname"))) rec.snapshots;
            })
            s))))

-- `lxcSnapshotTarget`
unfoldable pub ct_snapshot_target : Request → State → Checked ℤ
ct_snapshot_target r s = do
  vmid ← path_vmid r
  refuse_if (not (has_snapshot r.snap (lookup_ct r.node vmid s))) 404 (text "no such snapshot")
  passed vmid

unfoldable pub handle_ct_snapshot_rollback : Handler
handle_ct_snapshot_rollback r s = respond s (do
  check_auth r s
  vmid ← ct_snapshot_target r s
  passed (task_data (finished_task r.node (text "vzrollback") (itoa vmid) r.clock s)))

unfoldable pub handle_ct_snapshot_delete : Handler
handle_ct_snapshot_delete r s = respond s (do
  check_auth r s
  vmid ← ct_snapshot_target r s
  passed (
      task_data (
        finished_task r.node (text "vzdelsnapshot") (itoa vmid) r.clock
          (update_ct r.node vmid (drop_snapshot r.snap) s))))
