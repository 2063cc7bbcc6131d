-- ===== src/Mock/Routes/Denied/Permissions.antt =====
-- Requests that are not let in: the handlers of proxmox/mockpve/access.go.
use proxmox_go_sdk.Base.{◌≡◌, false}
use proxmox_go_sdk.Mock.{Request, State, error_of}
use proxmox_go_sdk.Mock.Server.{is_authorized, authentication_failure}
use proxmox_go_sdk.Mock.Routes.Denied.{denied}
use proxmox_go_sdk.Mock.Access.Routes.{
  AccessRoute, serve_access, get_users, post_users, get_user, put_user, delete_user, get_groups,
  post_groups, get_group, put_group, delete_group, get_roles, post_roles, get_role, put_role,
  delete_role, get_acl, put_acl, get_tokens, get_token, post_token, put_token, delete_token,
}
use proxmox_go_sdk.Mock.Access.{
  handle_user_list, handle_user_create, handle_user_get, handle_user_update, handle_user_delete,
  handle_group_list, handle_group_create, handle_group_get, handle_group_update,
  handle_group_delete, handle_role_list, handle_role_create, handle_role_get, handle_role_update,
  handle_role_delete,
}
use proxmox_go_sdk.Mock.Access.Acl.{handle_acl_list, handle_acl_set}
use proxmox_go_sdk.Mock.Access.Tokens.{
  handle_token_list, handle_token_get, handle_token_create, handle_token_update,
  handle_token_delete,
}
use proxmox_go_sdk.Mock.{respond}
use proxmox_go_sdk.Mock.Collection.{handle_all}
use proxmox_go_sdk.Mock.Collection.{handle_new}
use proxmox_go_sdk.Mock.Collection.{handle_one}
use proxmox_go_sdk.Mock.Collection.{handle_change}
use proxmox_go_sdk.Mock.Collection.{handle_drop}

pub serve_access_refused :
    (route : AccessRoute) (r : Request) (s : State)
    → is_authorized r s ≡ false
    → serve_access route r s ≡ (error_of 401 authentication_failure, s)
unfolding serve_access handle_user_list handle_user_create handle_user_get handle_user_update
    handle_user_delete handle_group_list handle_group_create handle_group_get handle_group_update
    handle_group_delete handle_role_list handle_role_create handle_role_get handle_role_update
    handle_role_delete handle_acl_list handle_acl_set handle_token_list handle_token_get
    handle_token_create handle_token_update handle_token_delete respond handle_all handle_new
    handle_one handle_change handle_drop
serve_access_refused get_users r s h = denied r s _ h
serve_access_refused post_users r s h = denied r s _ h
serve_access_refused get_user r s h = denied r s _ h
serve_access_refused put_user r s h = denied r s _ h
serve_access_refused delete_user r s h = denied r s _ h
serve_access_refused get_groups r s h = denied r s _ h
serve_access_refused post_groups r s h = denied r s _ h
serve_access_refused get_group r s h = denied r s _ h
serve_access_refused put_group r s h = denied r s _ h
serve_access_refused delete_group r s h = denied r s _ h
serve_access_refused get_roles r s h = denied r s _ h
serve_access_refused post_roles r s h = denied r s _ h
serve_access_refused get_role r s h = denied r s _ h
serve_access_refused put_role r s h = denied r s _ h
serve_access_refused delete_role r s h = denied r s _ h
serve_access_refused get_acl r s h = denied r s _ h
serve_access_refused put_acl r s h = denied r s _ h
serve_access_refused get_tokens r s h = denied r s _ h
serve_access_refused get_token r s h = denied r s _ h
serve_access_refused post_token r s h = denied r s _ h
serve_access_refused put_token r s h = denied r s _ h
serve_access_refused delete_token r s h = denied r s _ h
