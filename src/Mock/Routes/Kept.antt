-- ===== src/Mock/Routes/Kept.antt =====
-- The invariant of the store along every route: proxmox/mockpve/qemu.go.
use proxmox_go_sdk.Base.{◌≡◌, refl, some}
use proxmox_go_sdk.Base.Eq.{text_Eq}
use proxmox_go_sdk.Base.Map.{erase}
use proxmox_go_sdk.Base.Text.{Text, text}
use proxmox_go_sdk.Base.Number.{ℤ, atoi}
use proxmox_go_sdk.Mock.{Request, State, VmRecord, Payload, form_get, refuse_if, Form, found_or}
use proxmox_go_sdk.Mock.Checks.{bind-Grants, found-Grants, then-Grants, respond-keeps}
use proxmox_go_sdk.Mock.Store.{lookup_vm, add_vm}
use proxmox_go_sdk.Mock.Server.{check_auth, parse_form}
use proxmox_go_sdk.Mock.Vm.{
  path_vmid, find_vm, handle_delete, handle_template, handle_status, handle_power, Power,
  handle_create, apply_config_form, handle_config, handle_set_config, handle_clone, handle_resize,
  handle_move_disk, handle_migrate,
}
use proxmox_go_sdk.Mock.Routes.Filed.{
  IsFiled, put_vm-IsFiled, delete_vm-IsFiled, update_vm-IsFiled, replaced_vm-IsFiled,
  finished_task-IsFiled,
}

abbrev pub Filed : Payload × State → Type 0
Filed a = IsFiled a.1

-- a handler that only looks
pub handle_status-IsFiled : (r : Request) (s : State) → IsFiled s → IsFiled (handle_status r s).1
unfolding handle_status
handle_status-IsFiled r s filed = respond-keeps IsFiled s _ filed (
    then-Grants Filed (check_auth r s) _ (λ _.
      bind-Grants Filed (path_vmid r) _
        (λ vmid _. bind-Grants Filed (find_vm r.node vmid s) _ (λ rec _. filed))))

pub handle_config-IsFiled : (r : Request) (s : State) → IsFiled s → IsFiled (handle_config r s).1
unfolding handle_config
handle_config-IsFiled r s filed = respond-keeps IsFiled s _ filed (
    then-Grants Filed (check_auth r s) _ (λ _.
      bind-Grants Filed (path_vmid r) _
        (λ vmid _. bind-Grants Filed (find_vm r.node vmid s) _ (λ rec _. filed))))

pub handle_set_config-IsFiled :
    (r : Request) (s : State) → IsFiled s → IsFiled (handle_set_config r s).1
unfolding handle_set_config find_vm apply_config_form
handle_set_config-IsFiled r s filed = respond-keeps IsFiled s _ filed (
    then-Grants Filed (check_auth r s) _ (λ _. bind-Grants Filed (path_vmid r) _ (λ vmid _.
      bind-Grants Filed (parse_form r) _ (λ form _.
        found-Grants Filed (lookup_vm r.node vmid s) _ _ _
          (λ rec e. replaced_vm-IsFiled r.node vmid _ filed rec e _ refl refl)))))

apply_config_form-keeps :
    (form : Form) (r : VmRecord)
    → ((apply_config_form form r).node ≡ r.node) × ((apply_config_form form r).vmid ≡ r.vmid)
unfolding apply_config_form
apply_config_form-keeps form r = (refl, refl)

pub handle_create-IsFiled : (r : Request) (s : State) → IsFiled s → IsFiled (handle_create r s).1
unfolding handle_create add_vm
handle_create-IsFiled r s filed = respond-keeps IsFiled s _ filed (
    then-Grants Filed (check_auth r s) _ (λ _. bind-Grants Filed (parse_form r) _ (λ form _.
      bind-Grants Filed (found_or (atoi (form_get form (text "vmid"))) _ _) _ (λ id _.
        finished_task-IsFiled r.node _
          (update_vm-IsFiled r.node id _ (put_vm-IsFiled r.node id _ filed _ refl refl) _
            (apply_config_form-keeps (erase (text "vmid") form)))
          _ _ _))))

pub handle_clone-IsFiled : (r : Request) (s : State) → IsFiled s → IsFiled (handle_clone r s).1
unfolding handle_clone add_vm
handle_clone-IsFiled r s filed = respond-keeps IsFiled s _ filed (
    then-Grants Filed (check_auth r s) _ (λ _. bind-Grants Filed (path_vmid r) _ (λ vmid _.
      then-Grants Filed (refuse_if _ _ _) _ (λ _. bind-Grants Filed (parse_form r) _ (λ form _.
        bind-Grants Filed (found_or (atoi (form_get form (text "newid"))) _ _) _ (λ id _.
          finished_task-IsFiled r.node _ (put_vm-IsFiled r.node id _ filed _ refl refl) _ _ _))))))

pub handle_template-IsFiled :
    (r : Request) (s : State) → IsFiled s → IsFiled (handle_template r s).1
unfolding handle_template find_vm
handle_template-IsFiled r s filed = respond-keeps IsFiled s _ filed (
    then-Grants Filed (check_auth r s) _ (λ _. bind-Grants Filed (path_vmid r) _ (λ vmid _.
      found-Grants Filed (lookup_vm r.node vmid s) _ _ _ (λ rec e.
        then-Grants Filed (refuse_if _ _ _) _ (λ _.
          finished_task-IsFiled r.node _ (replaced_vm-IsFiled r.node vmid _ filed rec e _ refl refl)
            _ _ _)))))

pub handle_delete-IsFiled : (r : Request) (s : State) → IsFiled s → IsFiled (handle_delete r s).1
unfolding handle_delete
handle_delete-IsFiled r s filed = respond-keeps IsFiled s _ filed (
    then-Grants Filed (check_auth r s) _ (λ _. bind-Grants Filed (path_vmid r) _ (λ vmid _.
      then-Grants Filed (refuse_if _ _ _) _
        (λ _. finished_task-IsFiled r.node _ (delete_vm-IsFiled r.node vmid _ filed) _ _ _))))

pub handle_power-IsFiled :
    (action : Power) (r : Request) (s : State) → IsFiled s → IsFiled (handle_power action r s).1
unfolding handle_power find_vm
handle_power-IsFiled action r s filed = respond-keeps IsFiled s _ filed (
    then-Grants Filed (check_auth r s) _ (λ _. bind-Grants Filed (path_vmid r) _ (λ vmid _.
      found-Grants Filed (lookup_vm r.node vmid s) _ _ _ (λ rec e.
        finished_task-IsFiled r.node _ (replaced_vm-IsFiled r.node vmid _ filed rec e _ refl refl) _
          _ _))))

pub handle_resize-IsFiled : (r : Request) (s : State) → IsFiled s → IsFiled (handle_resize r s).1
unfolding handle_resize
handle_resize-IsFiled r s filed = respond-keeps IsFiled s _ filed (
    then-Grants Filed (check_auth r s) _ (λ _.
      bind-Grants Filed (path_vmid r) _
        (λ vmid _. then-Grants Filed (refuse_if _ _ _) _ (λ _. filed))))

pub handle_move_disk-IsFiled :
    (r : Request) (s : State) → IsFiled s → IsFiled (handle_move_disk r s).1
unfolding handle_move_disk
handle_move_disk-IsFiled r s filed = respond-keeps IsFiled s _ filed (
    then-Grants Filed (check_auth r s) _ (λ _. bind-Grants Filed (path_vmid r) _ (λ vmid _.
      bind-Grants Filed (parse_form r) _ (λ form _. then-Grants Filed (refuse_if _ _ _) _ (λ _.
        then-Grants Filed (refuse_if _ _ _) _
          (λ _. finished_task-IsFiled r.node _ (filed) _ _ _))))))

filed_at :
    (node : Text) (vmid : ℤ) (s : State)
    → IsFiled s
    → (rec : VmRecord) → lookup_vm node vmid s ≡ some rec
    → rec.vmid ≡ vmid
unfolding IsFiled
filed_at node vmid s filed rec e = (filed node vmid rec e).1

pub handle_migrate-IsFiled : (r : Request) (s : State) → IsFiled s → IsFiled (handle_migrate r s).1
unfolding handle_migrate find_vm
handle_migrate-IsFiled r s filed = respond-keeps IsFiled s _ filed (
    then-Grants Filed (check_auth r s) _ (λ _. bind-Grants Filed (path_vmid r) _ (λ vmid _.
      bind-Grants Filed (parse_form r) _ (λ form _. then-Grants Filed (refuse_if _ _ _) _ (λ _.
        found-Grants Filed (lookup_vm r.node vmid s) _ _ _ (λ rec e.
          finished_task-IsFiled r.node _
            (delete_vm-IsFiled r.node vmid _
              (put_vm-IsFiled _ vmid _ filed _ refl (filed_at r.node vmid s filed rec e)))
            _ _ _))))))
