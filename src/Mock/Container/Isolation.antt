-- ===== src/Mock/Container/Isolation.antt =====
-- Guests and containers are apart: a request for containers leaves the guests as they were.
use proxmox_go_sdk.Mock.Guests.{Same, SameData}
use proxmox_go_sdk.Base.{◌≡◌, refl, ◌∙◌, Option-cases, inl, inr}
use proxmox_go_sdk.Base.Eq.{text_Eq}
use proxmox_go_sdk.Base.Map.{lookup, erase}
use proxmox_go_sdk.Base.Text.{Text, text}
use proxmox_go_sdk.Base.Number.{ℤ, atoi}
use proxmox_go_sdk.Mock.{Request, State, VmRecord, form_get, refuse_if, found_or}
use proxmox_go_sdk.Mock.Checks.{bind-Grants, then-Grants, respond-keeps}
use proxmox_go_sdk.Mock.Store.Reads.{vms-finished_task}
use proxmox_go_sdk.Mock.Server.{check_auth, parse_form}
use proxmox_go_sdk.Mock.Vm.{path_vmid, Power, apply_config_form}
use proxmox_go_sdk.Mock.Snapshot.{drop_snapshot}
use proxmox_go_sdk.Mock.Container.{
  put_ct, delete_ct, update_ct, add_container, find_ct, lookup_ct, ct_snapshot_target,
  handle_ct_list, handle_ct_create, handle_ct_status, handle_ct_config, handle_ct_set_config,
  handle_ct_clone, handle_ct_delete, handle_ct_power, handle_ct_snapshot_list,
  handle_ct_snapshot_create, handle_ct_snapshot_rollback, handle_ct_snapshot_delete,
  handle_download_url,
}
use proxmox_go_sdk.Mock.Container.Routes.{
  CtRoute, serve_ct, get_lxc, post_lxc, get_ct_status, get_ct_config, put_ct_config, post_ct_clone,
  delete_lxc, post_ct_power, get_ct_snapshot, post_ct_snapshot, post_ct_rollback,
  delete_ct_snapshot, post_download_url,
}

vms-delete_ct : (node : Text) (vmid : ℤ) (s : State) → Same s (delete_ct node vmid s)
unfolding delete_ct
vms-delete_ct node vmid s = elim (Option-cases (lookup node s.containers)) [
  | inl e ↦ rw (delete_ct, e) refl
  | inr (m, e) ↦ rw (delete_ct, e) refl
]

pub vms-update_ct :
    (node : Text) (vmid : ℤ) (change : VmRecord → VmRecord) (s : State)
    → Same s (update_ct node vmid change s)
unfolding put_ct update_ct
vms-update_ct node vmid change s = elim (Option-cases (lookup_ct node vmid s)) [
  | inl e ↦ rw (update_ct, e) refl
  | inr (rec, e) ↦ rw (update_ct, e) refl
]

vms-handle_download_url : (r : Request) (s : State) → Same s ((handle_download_url r s).1)
unfolding handle_download_url
vms-handle_download_url r s = respond-keeps (Same s) s _ refl (
    then-Grants (SameData s) (check_auth r s) _ (λ _.
      bind-Grants (SameData s) (parse_form r) _ (λ form _.
        then-Grants (SameData s) (refuse_if _ _ _) _ (λ _. vms-finished_task r.node _ _ _ _))))

vms-handle_ct_list : (r : Request) (s : State) → Same s ((handle_ct_list r s).1)
unfolding handle_ct_list
vms-handle_ct_list r s =
    respond-keeps (Same s) s _ refl (then-Grants (SameData s) (check_auth r s) _ (λ _. refl))

vms-handle_ct_status : (r : Request) (s : State) → Same s ((handle_ct_status r s).1)
unfolding handle_ct_status
vms-handle_ct_status r s = respond-keeps (Same s) s _ refl (
    then-Grants (SameData s) (check_auth r s) _ (λ _.
      bind-Grants (SameData s) (path_vmid r) _
        (λ vmid _. bind-Grants (SameData s) (find_ct r.node vmid s) _ (λ rec _. refl))))

vms-handle_ct_config : (r : Request) (s : State) → Same s ((handle_ct_config r s).1)
unfolding handle_ct_config
vms-handle_ct_config r s = respond-keeps (Same s) s _ refl (
    then-Grants (SameData s) (check_auth r s) _ (λ _.
      bind-Grants (SameData s) (path_vmid r) _
        (λ vmid _. bind-Grants (SameData s) (find_ct r.node vmid s) _ (λ rec _. refl))))

vms-handle_ct_set_config : (r : Request) (s : State) → Same s ((handle_ct_set_config r s).1)
unfolding handle_ct_set_config put_ct
vms-handle_ct_set_config r s = respond-keeps (Same s) s _ refl (
    then-Grants (SameData s) (check_auth r s) _ (λ _.
      bind-Grants (SameData s) (path_vmid r) _ (λ vmid _.
        bind-Grants (SameData s) (parse_form r) _
          (λ form _. bind-Grants (SameData s) (find_ct r.node vmid s) _ (λ rec _. refl)))))

vms-handle_ct_create : (r : Request) (s : State) → Same s ((handle_ct_create r s).1)
unfolding handle_ct_create add_container put_ct
vms-handle_ct_create r s = respond-keeps (Same s) s _ refl (
    then-Grants (SameData s) (check_auth r s) _ (λ _.
      bind-Grants (SameData s) (parse_form r) _ (λ form _.
        bind-Grants (SameData s) (found_or (atoi (form_get form (text "vmid"))) _ _) _ (λ id _.
          vms-finished_task r.node _ _ _ _
          ∙ vms-update_ct r.node id (apply_config_form (erase (text "vmid") form)) _))))

vms-handle_ct_clone : (r : Request) (s : State) → Same s ((handle_ct_clone r s).1)
unfolding handle_ct_clone add_container put_ct
vms-handle_ct_clone r s = respond-keeps (Same s) s _ refl (
    then-Grants (SameData s) (check_auth r s) _ (λ _.
      bind-Grants (SameData s) (path_vmid r) _ (λ vmid _.
        then-Grants (SameData s) (refuse_if _ _ _) _ (λ _.
          bind-Grants (SameData s) (parse_form r) _ (λ form _.
            bind-Grants (SameData s) (found_or (atoi (form_get form (text "newid"))) _ _) _
              (λ id _. vms-finished_task r.node _ _ _ _))))))

vms-handle_ct_delete : (r : Request) (s : State) → Same s ((handle_ct_delete r s).1)
unfolding handle_ct_delete
vms-handle_ct_delete r s = respond-keeps (Same s) s _ refl (
    then-Grants (SameData s) (check_auth r s) _ (λ _.
      bind-Grants (SameData s) (path_vmid r) _ (λ vmid _.
        then-Grants (SameData s) (refuse_if _ _ _) _
          (λ _. vms-finished_task r.node _ _ _ _ ∙ vms-delete_ct r.node vmid s))))

vms-handle_ct_power :
    (action : Power) (r : Request) (s : State) → Same s ((handle_ct_power action r s).1)
unfolding handle_ct_power put_ct
vms-handle_ct_power action r s = respond-keeps (Same s) s _ refl (
    then-Grants (SameData s) (check_auth r s) _ (λ _.
      bind-Grants (SameData s) (path_vmid r) _ (λ vmid _.
        bind-Grants (SameData s) (find_ct r.node vmid s) _
          (λ rec _. vms-finished_task r.node _ _ _ _))))

vms-handle_ct_snapshot_list : (r : Request) (s : State) → Same s ((handle_ct_snapshot_list r s).1)
unfolding handle_ct_snapshot_list
vms-handle_ct_snapshot_list r s = respond-keeps (Same s) s _ refl (
    then-Grants (SameData s) (check_auth r s) _ (λ _.
      bind-Grants (SameData s) (path_vmid r) _
        (λ vmid _. bind-Grants (SameData s) (find_ct r.node vmid s) _ (λ rec _. refl))))

vms-handle_ct_snapshot_create :
    (r : Request) (s : State) → Same s ((handle_ct_snapshot_create r s).1)
unfolding handle_ct_snapshot_create put_ct
vms-handle_ct_snapshot_create r s = respond-keeps (Same s) s _ refl (
    then-Grants (SameData s) (check_auth r s) _ (λ _.
      bind-Grants (SameData s) (path_vmid r) _ (λ vmid _.
        bind-Grants (SameData s) (parse_form r) _ (λ form _.
          then-Grants (SameData s) (refuse_if _ _ _) _ (λ _.
            bind-Grants (SameData s) (find_ct r.node vmid s) _
              (λ rec _. vms-finished_task r.node _ _ _ _))))))

vms-handle_ct_snapshot_rollback :
    (r : Request) (s : State) → Same s ((handle_ct_snapshot_rollback r s).1)
unfolding handle_ct_snapshot_rollback
vms-handle_ct_snapshot_rollback r s = respond-keeps (Same s) s _ refl (
    then-Grants (SameData s) (check_auth r s) _ (λ _.
      bind-Grants (SameData s) (ct_snapshot_target r s) _
        (λ vmid _. vms-finished_task r.node _ _ _ _)))

vms-handle_ct_snapshot_delete :
    (r : Request) (s : State) → Same s ((handle_ct_snapshot_delete r s).1)
unfolding handle_ct_snapshot_delete
vms-handle_ct_snapshot_delete r s = respond-keeps (Same s) s _ refl (
    then-Grants (SameData s) (check_auth r s) _ (λ _.
      bind-Grants (SameData s) (ct_snapshot_target r s) _ (λ vmid _.
        vms-finished_task r.node _ _ _ _ ∙ vms-update_ct r.node vmid (drop_snapshot r.snap) s)))

-- Whatever route for containers serves a request, and whatever it answers, every QEMU guest is as
-- before, the one with the same number included.
pub vms-serve_ct :
    (route : CtRoute) (r : Request) (s : State) → ((serve_ct route r s).1).vms ≡ s.vms
unfolding serve_ct
vms-serve_ct get_lxc r s = vms-handle_ct_list r s
vms-serve_ct post_lxc r s = vms-handle_ct_create r s
vms-serve_ct get_ct_status r s = vms-handle_ct_status r s
vms-serve_ct get_ct_config r s = vms-handle_ct_config r s
vms-serve_ct put_ct_config r s = vms-handle_ct_set_config r s
vms-serve_ct post_ct_clone r s = vms-handle_ct_clone r s
vms-serve_ct delete_lxc r s = vms-handle_ct_delete r s
vms-serve_ct (post_ct_power action) r s = vms-handle_ct_power action r s
vms-serve_ct get_ct_snapshot r s = vms-handle_ct_snapshot_list r s
vms-serve_ct post_ct_snapshot r s = vms-handle_ct_snapshot_create r s
vms-serve_ct post_ct_rollback r s = vms-handle_ct_snapshot_rollback r s
vms-serve_ct delete_ct_snapshot r s = vms-handle_ct_snapshot_delete r s
vms-serve_ct post_download_url r s = vms-handle_download_url r s
