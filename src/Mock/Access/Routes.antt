-- ===== src/Mock/Access/Routes.antt =====
-- The routes of proxmox/mockpve/access.go, each served by its handler; none of them touches a guest.
use proxmox_go_sdk.Mock.Guests.{Same, SameData}
use proxmox_go_sdk.Base.{Bool-cases, inl, inr, ◌≡◌, refl}
use proxmox_go_sdk.Base.Eq.{◌==◌, text_Eq}
use proxmox_go_sdk.Base.Text.{text}
use proxmox_go_sdk.Mock.{form_get, Handler, State, Request, refuse_if, found_or}
use proxmox_go_sdk.Mock.Server.{check_auth, parse_form}
use proxmox_go_sdk.Mock.Collection.{find_record, path_value, put_record}
use proxmox_go_sdk.Mock.Collection.Keeps.{
  handle_all-keeps, handle_one-keeps, handle_new-keeps, handle_change-keeps, handle_drop-keeps,
}
use proxmox_go_sdk.Mock.Checks.{bind-Grants, then-Grants, respond-keeps}
use proxmox_go_sdk.Mock.Access.{
  user_records, group_records, role_records, handle_user_list, handle_user_get, handle_user_create,
  handle_user_update, handle_user_delete, handle_group_list, handle_group_get, handle_group_create,
  handle_group_update, handle_group_delete, handle_role_list, handle_role_get, handle_role_create,
  handle_role_update, handle_role_delete,
}
use proxmox_go_sdk.Mock.Access.Acl.{handle_acl_list, handle_acl_set, set_acls}
use proxmox_go_sdk.Mock.Access.Tokens.{
  token_records, handle_token_list, handle_token_get, handle_token_create, handle_token_update,
  handle_token_delete,
}

pub data AccessRoute : Type 0 where
  get_users : AccessRoute
  post_users : AccessRoute
  get_user : AccessRoute
  put_user : AccessRoute
  delete_user : AccessRoute
  get_groups : AccessRoute
  post_groups : AccessRoute
  get_group : AccessRoute
  put_group : AccessRoute
  delete_group : AccessRoute
  get_roles : AccessRoute
  post_roles : AccessRoute
  get_role : AccessRoute
  put_role : AccessRoute
  delete_role : AccessRoute
  get_acl : AccessRoute
  put_acl : AccessRoute
  get_tokens : AccessRoute
  get_token : AccessRoute
  post_token : AccessRoute
  put_token : AccessRoute
  delete_token : AccessRoute

unfoldable pub serve_access : AccessRoute → Handler
serve_access get_users = handle_user_list
serve_access post_users = handle_user_create
serve_access get_user = handle_user_get
serve_access put_user = handle_user_update
serve_access delete_user = handle_user_delete
serve_access get_groups = handle_group_list
serve_access post_groups = handle_group_create
serve_access get_group = handle_group_get
serve_access put_group = handle_group_update
serve_access delete_group = handle_group_delete
serve_access get_roles = handle_role_list
serve_access post_roles = handle_role_create
serve_access get_role = handle_role_get
serve_access put_role = handle_role_update
serve_access delete_role = handle_role_delete
serve_access get_acl = handle_acl_list
serve_access put_acl = handle_acl_set
serve_access get_tokens = handle_token_list
serve_access get_token = handle_token_get
serve_access post_token = handle_token_create
serve_access put_token = handle_token_update
serve_access delete_token = handle_token_delete

vms-handle_acl_list : (r : Request) (s : State) → Same s ((handle_acl_list r s).1)
unfolding handle_acl_list
vms-handle_acl_list r s =
    respond-keeps (Same s) s _ refl (then-Grants (SameData s) (check_auth r s) _ (λ _. refl))

vms-handle_acl_set : (r : Request) (s : State) → Same s ((handle_acl_set r s).1)
unfolding handle_acl_set set_acls
vms-handle_acl_set r s = respond-keeps (Same s) s _ refl (
    then-Grants (SameData s) (check_auth r s) _ (λ _.
      bind-Grants (SameData s) (parse_form r) _
        (λ form _. then-Grants (SameData s) (refuse_if _ _ _) _ (λ _. refl))))

vms-handle_token_create : (r : Request) (s : State) → Same s ((handle_token_create r s).1)
unfolding handle_token_create put_record
vms-handle_token_create r s = respond-keeps (Same s) s _ refl (
    then-Grants (SameData s) (check_auth r s) _
      (λ _. bind-Grants (SameData s) (parse_form r) _ (λ form _. refl)))

vms-handle_token_update : (r : Request) (s : State) → Same s ((handle_token_update r s).1)
unfolding handle_token_update put_record
vms-handle_token_update r s = respond-keeps (Same s) s _ refl (
    then-Grants (SameData s) (check_auth r s) _ (λ _.
      bind-Grants (SameData s) (parse_form r) _ (λ form _.
        bind-Grants (SameData s)
          (found_or
            (find_record (token_records (path_value r (text "userid")))
              (path_value r (text "tokenid")) s)
            _ _)
          _
          (λ rec _. elim (Bool-cases (form_get form (text "regenerate") == text "1")) [
            | inl e ↦ rw e refl
            | inr e ↦ rw e refl
          ]))))

-- Whatever request for access control is served, and whatever it answers, every QEMU guest is as
-- before.
pub vms-serve_access :
    (route : AccessRoute) (r : Request) (s : State) → ((serve_access route r s).1).vms ≡ s.vms
unfolding serve_access handle_user_list handle_user_get handle_user_create handle_user_update
    handle_user_delete handle_group_list handle_group_get handle_group_create handle_group_update
    handle_group_delete handle_role_list handle_role_get handle_role_create handle_role_update
    handle_role_delete handle_token_list handle_token_get handle_token_delete
vms-serve_access get_users r s = handle_all-keeps user_records (Same s) (λ m t e. e) r s refl _ _
vms-serve_access post_users r s = handle_new-keeps user_records (Same s) (λ m t e. e) r s refl _ _ _
vms-serve_access get_user r s = handle_one-keeps user_records (Same s) (λ m t e. e) r s refl _
vms-serve_access put_user r s = handle_change-keeps user_records (Same s) (λ m t e. e) r s refl _ _
vms-serve_access delete_user r s = handle_drop-keeps user_records (Same s) (λ m t e. e) r s refl _
vms-serve_access get_groups r s = handle_all-keeps group_records (Same s) (λ m t e. e) r s refl _ _
vms-serve_access post_groups r s =
    handle_new-keeps group_records (Same s) (λ m t e. e) r s refl _ _ _
vms-serve_access get_group r s = handle_one-keeps group_records (Same s) (λ m t e. e) r s refl _
vms-serve_access put_group r s =
    handle_change-keeps group_records (Same s) (λ m t e. e) r s refl _ _
vms-serve_access delete_group r s = handle_drop-keeps group_records (Same s) (λ m t e. e) r s refl _
vms-serve_access get_roles r s = handle_all-keeps role_records (Same s) (λ m t e. e) r s refl _ _
vms-serve_access post_roles r s = handle_new-keeps role_records (Same s) (λ m t e. e) r s refl _ _ _
vms-serve_access get_role r s = handle_one-keeps role_records (Same s) (λ m t e. e) r s refl _
vms-serve_access put_role r s = handle_change-keeps role_records (Same s) (λ m t e. e) r s refl _ _
vms-serve_access delete_role r s = handle_drop-keeps role_records (Same s) (λ m t e. e) r s refl _
vms-serve_access get_acl r s = vms-handle_acl_list r s
vms-serve_access put_acl r s = vms-handle_acl_set r s
vms-serve_access get_tokens r s =
    handle_all-keeps (token_records _) (Same s) (λ m t e. e) r s refl _ _
vms-serve_access get_token r s = handle_one-keeps (token_records _) (Same s) (λ m t e. e) r s refl _
vms-serve_access post_token r s = vms-handle_token_create r s
vms-serve_access put_token r s = vms-handle_token_update r s
vms-serve_access delete_token r s =
    handle_drop-keeps (token_records _) (Same s) (λ m t e. e) r s refl _
