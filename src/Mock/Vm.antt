-- ===== src/Mock/Vm.antt =====
-- The life of a QEMU guest: proxmox/mockpve/qemu.go, and `applyConfigForm` of lxc.go.
pub mod Forms
pub mod Created
pub mod Lifecycle
use proxmox_go_sdk.Base.{◌||◌, not, Option, none, some, List, [], ◌∷◌, ◌++◌, if◌then◌else◌, map}
use proxmox_go_sdk.Base.Eq.{◌==◌, text_Eq}
use proxmox_go_sdk.Base.Map.{Map, lookup, insert, erase}
use proxmox_go_sdk.Base.Text.{Text, text, is_empty, split, comma, trim_space}
use proxmox_go_sdk.Base.Number.{ℤ, pos, atoi, itoa}
use proxmox_go_sdk.Mock.{
  State, Request, Handler, Checked, passed, ◌>>=◌, ◌>>◌, refuse_if, found_or, respond, null, upid,
  listing, vm, vm_config, Form, form_get, Value, number, string, VmRecord, ListEntry, Payload,
}
use proxmox_go_sdk.Mock.Store.{
  lookup_vm, put_vm, delete_vm, add_vm, update_vm, vm_exists, finished_task, stopped, running,
  or_empty_map,
}
use proxmox_go_sdk.Mock.Server.{check_auth, parse_form}

abbrev pub no_such_vm : Text
no_such_vm = text "no such VM"

-- `strconv.Atoi(r.PathValue("vmid"))`
unfoldable pub path_vmid : Request → Checked ℤ
path_vmid r = found_or (atoi r.vmid) 400 (text "invalid vmid")

unfoldable pub find_vm : Text → ℤ → State → Checked VmRecord
find_vm node vmid s = found_or (lookup_vm node vmid s) 404 no_such_vm

-- the data of a handler that ends in a finished task
abbrev pub task_data : Text × State → Payload × State
task_data (u, s) = (upid u, s)

-- an int where the text is one, and the text otherwise
unfoldable pub parse_config_value : Text → Value
parse_config_value v = elim (atoi v) [ none ↦ string v | some n ↦ number n ]

unfoldable pub delete_keys : List Text → Map Text Value → Map Text Value
delete_keys [] config = config
delete_keys (k ∷ ks) config = delete_keys ks (erase (trim_space k) config)

-- the loop over the form's keys, each with `form.Get(key)` of the whole form
unfoldable pub set_keys : Form → Form → Map Text Value → Map Text Value
set_keys form [] config = config
set_keys form ((key, vs) ∷ rest) config = set_keys form rest (
    if key == text "delete"
    then config
    else insert key (parse_config_value (form_get form key)) config)

-- `strings.Split` of the `delete` value, which is skipped when empty
abbrev pub deleted_keys : Form → List Text
deleted_keys form =
    if is_empty (form_get form (text "delete"))
    then []
    else split comma (form_get form (text "delete"))

unfoldable pub apply_config_form : Form → VmRecord → VmRecord
apply_config_form form rec = record rec {
  config = set_keys form form (delete_keys (deleted_keys form) rec.config);
}

-- the `template` field of an entry: an int in the config, or 0
abbrev pub template_flag : Option Value → ℤ
template_flag (some (number n)) = n
template_flag _ = pos 0

abbrev pub list_entry : ℤ × VmRecord → ListEntry
list_entry (_, rec) = record {
  vmid = rec.vmid;
  name = rec.name;
  status = rec.status;
  template = template_flag (lookup (text "template") rec.config);
}

unfoldable pub handle_list : Handler
handle_list r s =
    respond s
      (do check_auth r s; passed (listing (map list_entry (or_empty_map (lookup r.node s.vms))), s))

unfoldable pub handle_status : Handler
handle_status r s = respond s (do
  check_auth r s
  vmid ← path_vmid r
  rec ← find_vm r.node vmid s
  passed (vm (record { vmid = rec.vmid; name = rec.name; status = rec.status }), s))

-- `fmt.Sprintf("%v", v)`
abbrev pub print_value : Value → Value
print_value (number n) = string (itoa n)
print_value (string t) = string t

-- a config read reports the memory as a string
unfoldable pub served_config : Map Text Value → Map Text Value
served_config config = elim (lookup (text "memory") config) [
  | none ↦ config
  | some v ↦ insert (text "memory") (print_value v) config
]

unfoldable pub handle_config : Handler
handle_config r s = respond s (do
  check_auth r s
  vmid ← path_vmid r
  rec ← find_vm r.node vmid s
  passed (vm_config (served_config rec.config), s))

unfoldable pub handle_set_config : Handler
handle_set_config r s = respond s (do
  check_auth r s
  vmid ← path_vmid r
  form ← parse_form r
  rec ← find_vm r.node vmid s
  passed (null, put_vm r.node vmid (apply_config_form form rec) s))

unfoldable pub handle_create : Handler
handle_create r s = respond s (do
  check_auth r s
  form ← parse_form r
  id ← found_or (atoi (form_get form (text "vmid"))) 400 (text "invalid vmid")
  passed (
      task_data (
        finished_task r.node (text "qmcreate") (form_get form (text "vmid")) r.clock (
          update_vm r.node id (apply_config_form (erase (text "vmid") form))
            (add_vm r.node id (form_get form (text "name")) stopped s)))))

unfoldable pub handle_clone : Handler
handle_clone r s = respond s (do
  check_auth r s
  src ← path_vmid r
  refuse_if (not (vm_exists r.node src s)) 404 no_such_vm
  form ← parse_form r
  new_id ← found_or (atoi (form_get form (text "newid"))) 400 (text "invalid newid")
  passed (
      task_data (
        finished_task r.node (text "qmclone") (itoa src) r.clock
          (add_vm r.node new_id (form_get form (text "name")) stopped s))))

unfoldable pub handle_template : Handler
handle_template r s = respond s (do
  check_auth r s
  vmid ← path_vmid r
  rec ← find_vm r.node vmid s
  refuse_if (not (rec.status == stopped)) 400
      (text "you can't convert a VM to template if the VM is running")
  passed (
      task_data (
        finished_task r.node (text "qmtemplate") (itoa vmid) r.clock (
          put_vm r.node vmid
            (record rec { config = insert (text "template") (number (pos 1)) rec.config }) s))))

unfoldable pub handle_delete : Handler
handle_delete r s = respond s (do
  check_auth r s
  vmid ← path_vmid r
  refuse_if (not (vm_exists r.node vmid s)) 404 no_such_vm
  passed (
      task_data
        (finished_task r.node (text "qmdestroy") (itoa vmid) r.clock (delete_vm r.node vmid s))))

-- The verbs of `qemuPowerStatus`, one route for each.
pub data Power : Type 0 where
  start : Power
  stop : Power
  shutdown : Power
  reboot : Power
  suspend : Power
  resume : Power

unfoldable pub verb : Power → Text
verb start = text "start"
verb stop = text "stop"
verb shutdown = text "shutdown"
verb reboot = text "reboot"
verb suspend = text "suspend"
verb resume = text "resume"

unfoldable pub power_status : Power → Text
power_status start = running
power_status stop = stopped
power_status shutdown = stopped
power_status reboot = running
power_status suspend = text "suspended"
power_status resume = running

unfoldable pub handle_power : Power → Handler
handle_power action r s = respond s (do
  check_auth r s
  vmid ← path_vmid r
  rec ← find_vm r.node vmid s
  passed (
      task_data (
        finished_task r.node (text "qm" ++ verb action) (itoa vmid) r.clock
          (put_vm r.node vmid (record rec { status = power_status action }) s))))

unfoldable pub handle_resize : Handler
handle_resize r s = respond s (do
  check_auth r s
  vmid ← path_vmid r
  refuse_if (not (vm_exists r.node vmid s)) 404 no_such_vm
  passed (null, s))

unfoldable pub handle_move_disk : Handler
handle_move_disk r s = respond s (do
  check_auth r s
  vmid ← path_vmid r
  form ← parse_form r
  refuse_if (is_empty (form_get form (text "disk")) || is_empty (form_get form (text "storage")))
      400 (text "missing disk or storage")
  refuse_if (not (vm_exists r.node vmid s)) 404 no_such_vm
  passed (task_data (finished_task r.node (text "qmmove") (itoa vmid) r.clock s)))

-- stored under the target first, deleted under the source last; the task runs on the source
unfoldable pub handle_migrate : Handler
handle_migrate r s = respond s (do
  check_auth r s
  vmid ← path_vmid r
  form ← parse_form r
  refuse_if (is_empty (form_get form (text "target"))) 400 (text "missing target")
  rec ← find_vm r.node vmid s
  passed (
      task_data (
        finished_task r.node (text "qmigrate") (itoa vmid) r.clock (
          delete_vm r.node vmid (
            put_vm (form_get form (text "target")) vmid
              (record rec { node = form_get form (text "target") }) s)))))
