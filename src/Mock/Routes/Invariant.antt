-- ===== src/Mock/Routes/Invariant.antt =====
-- The invariant of the store along the remaining routes, and so along all of them.
use proxmox_go_sdk.Base.{refl, ◌≡◌, arith}
use proxmox_go_sdk.Mock.{Request, State, refuse_if, found_or}
use proxmox_go_sdk.Mock.Checks.{bind-Grants, found-Grants, then-Grants, respond-keeps}
use proxmox_go_sdk.Mock.Store.{lookup_vm, lookup_task}
use proxmox_go_sdk.Mock.Server.{
  check_auth, parse_form, handle_version, handle_task_status, handle_task_log, handle_ticket, login,
}
use proxmox_go_sdk.Mock.Vm.{path_vmid, find_vm, handle_list}
use proxmox_go_sdk.Mock.Snapshot.{
  snapshot_target, agent_vm_exists, drop_snapshot, handle_snapshot_list, handle_snapshot_create,
  handle_snapshot_rollback, handle_snapshot_delete, handle_agent_ping, handle_agent_exec,
  handle_agent_exec_status,
}
use proxmox_go_sdk.Mock.Routes.Kept.{
  Filed, handle_status-IsFiled, handle_config-IsFiled, handle_set_config-IsFiled,
  handle_create-IsFiled, handle_clone-IsFiled, handle_template-IsFiled, handle_delete-IsFiled,
  handle_power-IsFiled, handle_resize-IsFiled, handle_move_disk-IsFiled, handle_migrate-IsFiled,
}
use proxmox_go_sdk.Mock.Routes.{
  Route, serve, get_version, post_ticket, get_task_status, get_task_log, get_qemu, post_qemu,
  get_status, get_config, put_config, post_clone, post_template, delete_qemu, post_power,
  put_resize, post_move_disk, post_migrate, get_snapshot, post_snapshot, post_rollback,
  delete_snapshot, post_agent_ping, post_agent_exec, get_exec_status,
}
use proxmox_go_sdk.Mock.Routes.Filed.{
  IsFiled, finished_task-IsFiled, replaced_vm-IsFiled, update_vm-IsFiled,
}

handle_version-IsFiled : (r : Request) (s : State) → IsFiled s → IsFiled (handle_version r s).1
unfolding handle_version
handle_version-IsFiled r s filed =
    respond-keeps IsFiled s _ filed (then-Grants Filed (check_auth r s) _ (λ _. filed))

handle_task_status-IsFiled :
    (r : Request) (s : State) → IsFiled s → IsFiled (handle_task_status r s).1
unfolding handle_task_status
handle_task_status-IsFiled r s filed = respond-keeps IsFiled s _ filed (
    then-Grants Filed (check_auth r s) _
      (λ _. bind-Grants Filed (found_or (lookup_task r.node r.upid s) _ _) _ (λ t _. filed)))

handle_task_log-IsFiled : (r : Request) (s : State) → IsFiled s → IsFiled (handle_task_log r s).1
unfolding handle_task_log
handle_task_log-IsFiled r s filed = respond-keeps IsFiled s _ filed (
    then-Grants Filed (check_auth r s) _
      (λ _. bind-Grants Filed (found_or (lookup_task r.node r.upid s) _ _) _ (λ t _. filed)))

handle_list-IsFiled : (r : Request) (s : State) → IsFiled s → IsFiled (handle_list r s).1
unfolding handle_list
handle_list-IsFiled r s filed =
    respond-keeps IsFiled s _ filed (then-Grants Filed (check_auth r s) _ (λ _. filed))

handle_snapshot_list-IsFiled :
    (r : Request) (s : State) → IsFiled s → IsFiled (handle_snapshot_list r s).1
unfolding handle_snapshot_list
handle_snapshot_list-IsFiled r s filed = respond-keeps IsFiled s _ filed (
    then-Grants Filed (check_auth r s) _ (λ _.
      bind-Grants Filed (path_vmid r) _
        (λ vmid _. bind-Grants Filed (find_vm r.node vmid s) _ (λ rec _. filed))))

handle_snapshot_create-IsFiled :
    (r : Request) (s : State) → IsFiled s → IsFiled (handle_snapshot_create r s).1
unfolding handle_snapshot_create find_vm
handle_snapshot_create-IsFiled r s filed = respond-keeps IsFiled s _ filed (
    then-Grants Filed (check_auth r s) _ (λ _. bind-Grants Filed (path_vmid r) _ (λ vmid _.
      bind-Grants Filed (parse_form r) _ (λ form _. then-Grants Filed (refuse_if _ _ _) _ (λ _.
        found-Grants Filed (lookup_vm r.node vmid s) _ _ _ (λ rec e.
          finished_task-IsFiled r.node _ (replaced_vm-IsFiled r.node vmid _ filed rec e _ refl refl)
            _ _ _))))))

handle_snapshot_rollback-IsFiled :
    (r : Request) (s : State) → IsFiled s → IsFiled (handle_snapshot_rollback r s).1
unfolding handle_snapshot_rollback
handle_snapshot_rollback-IsFiled r s filed = respond-keeps IsFiled s _ filed (
    then-Grants Filed (check_auth r s) _ (λ _.
      bind-Grants Filed (snapshot_target r s) _
        (λ vmid _. finished_task-IsFiled r.node _ (filed) _ _ _)))

handle_snapshot_delete-IsFiled :
    (r : Request) (s : State) → IsFiled s → IsFiled (handle_snapshot_delete r s).1
unfolding handle_snapshot_delete
handle_snapshot_delete-IsFiled r s filed = respond-keeps IsFiled s _ filed (
    then-Grants Filed (check_auth r s) _ (λ _. bind-Grants Filed (snapshot_target r s) _ (λ vmid _.
      finished_task-IsFiled r.node _
        (update_vm-IsFiled r.node vmid _ filed (drop_snapshot r.snap) (λ rec. (refl, refl))) _ _
        _)))

handle_agent_ping-IsFiled :
    (r : Request) (s : State) → IsFiled s → IsFiled (handle_agent_ping r s).1
unfolding handle_agent_ping
handle_agent_ping-IsFiled r s filed = respond-keeps IsFiled s _ filed (
    then-Grants Filed (check_auth r s) _
      (λ _. then-Grants Filed (agent_vm_exists r s) _ (λ _. filed)))

handle_agent_exec-IsFiled :
    (r : Request) (s : State) → IsFiled s → IsFiled (handle_agent_exec r s).1
unfolding handle_agent_exec
handle_agent_exec-IsFiled r s filed = respond-keeps IsFiled s _ filed (
    then-Grants Filed (check_auth r s) _ (λ _. then-Grants Filed (agent_vm_exists r s) _ (λ _.
      bind-Grants Filed (parse_form r) _
        (λ form _. then-Grants Filed (refuse_if _ _ _) _ (λ _. filed)))))

handle_agent_exec_status-IsFiled :
    (r : Request) (s : State) → IsFiled s → IsFiled (handle_agent_exec_status r s).1
unfolding handle_agent_exec_status
handle_agent_exec_status-IsFiled r s filed = respond-keeps IsFiled s _ filed (
    then-Grants Filed (check_auth r s) _ (λ _.
      bind-Grants Filed (path_vmid r) _
        (λ vmid _. bind-Grants Filed (find_vm r.node vmid s) _ (λ rec _. filed))))

vms-handle_ticket : (r : Request) (s : State) → ((handle_ticket r s).1).vms ≡ s.vms
unfolding handle_ticket login
vms-handle_ticket r s = ground arith

handle_ticket-IsFiled : (r : Request) (s : State) → IsFiled s → IsFiled (handle_ticket r s).1
unfolding IsFiled lookup_vm
handle_ticket-IsFiled r s filed = rw (vms-handle_ticket r s) filed

-- Whatever route of server.go or qemu.go serves a request, the invariant is kept: every guest is
-- stored under its own node and number.
pub serve-IsFiled :
    (route : Route) (r : Request) (s : State) → IsFiled s → IsFiled (serve route r s).1
unfolding serve
serve-IsFiled get_version = handle_version-IsFiled
serve-IsFiled get_task_status = handle_task_status-IsFiled
serve-IsFiled get_task_log = handle_task_log-IsFiled
serve-IsFiled get_qemu = handle_list-IsFiled
serve-IsFiled post_qemu = handle_create-IsFiled
serve-IsFiled get_status = handle_status-IsFiled
serve-IsFiled get_config = handle_config-IsFiled
serve-IsFiled put_config = handle_set_config-IsFiled
serve-IsFiled post_clone = handle_clone-IsFiled
serve-IsFiled post_template = handle_template-IsFiled
serve-IsFiled delete_qemu = handle_delete-IsFiled
serve-IsFiled (post_power action) = handle_power-IsFiled action
serve-IsFiled put_resize = handle_resize-IsFiled
serve-IsFiled post_move_disk = handle_move_disk-IsFiled
serve-IsFiled post_migrate = handle_migrate-IsFiled
serve-IsFiled get_snapshot = handle_snapshot_list-IsFiled
serve-IsFiled post_snapshot = handle_snapshot_create-IsFiled
serve-IsFiled post_rollback = handle_snapshot_rollback-IsFiled
serve-IsFiled delete_snapshot = handle_snapshot_delete-IsFiled
serve-IsFiled post_agent_ping = handle_agent_ping-IsFiled
serve-IsFiled post_agent_exec = handle_agent_exec-IsFiled
serve-IsFiled get_exec_status = handle_agent_exec_status-IsFiled
serve-IsFiled post_ticket = handle_ticket-IsFiled
