-- ===== src/Mock/Access/Tests.antt =====
-- A grant and its revocation.
use proxmox_go_sdk.Base.{◌≡◌, refl, some, none, [], ◌∷◌, true, false}
use proxmox_go_sdk.Base.Eq.{text_Eq, text_eq}
use proxmox_go_sdk.Base.Text.{text, cut_prefix, contains_text}
use proxmox_go_sdk.Mock.{Request, Form, State}
use proxmox_go_sdk.Mock.Store.{new}
use proxmox_go_sdk.Mock.Server.{has_token}
use proxmox_go_sdk.Mock.Access.Acl.{add_acl, handle_acl_set}
use proxmox_go_sdk.Mock.Access.Revoked.{grants, grants-handle_acl_set}
use proxmox_go_sdk.Mock.Access.Acl.{set_acls}
use proxmox_go_sdk.Mock.Access.Acl.{is_entry}
use proxmox_go_sdk.Mock.Server.{is_authorized}
use proxmox_go_sdk.Mock.{form_get}
use proxmox_go_sdk.Base.Map.{lookup}
use proxmox_go_sdk.Mock.Access.Acl.{split_csv}
use proxmox_go_sdk.Base.Text.{split}
use proxmox_go_sdk.Mock.Access.Revoked.{names}
use proxmox_go_sdk.Mock.Access.Acl.{acl_subjects}
use proxmox_go_sdk.Mock.Access.Revoked.{lists_role}

abbrev revocation : Form
revocation =
    (text "path", text "/vms" ∷ [])
    ∷ (text "roles", text "PVEAdmin,PVEAuditor" ∷ [])
    ∷ (text "users", text "ann@pve" ∷ [])
    ∷ (text "delete", text "1" ∷ [])
    ∷ []

abbrev request : Request
request = record {
  authorization = text "PVEAPIToken=root@pam!ci=x";
  cookie = none;
  node = [];
  vmid = [];
  snap = [];
  upid = [];
  storage = [];
  path = [];
  query = [];
  form = some revocation;
  clock = 255;
}

abbrev start : State
start = add_acl (text "/vms") (text "ann@pve") (text "PVEAuditor") true new

start_grants : grants (text "/vms") (text "ann@pve") (text "PVEAuditor") start.access.acls ≡ true
unfolding grants add_acl set_acls is_entry text_eq
start_grants = refl

grants-handle_acl_set_example :
    grants
      (text "/vms")
      (text "ann@pve")
      (text "PVEAuditor")
      (handle_acl_set request start).1.access.acls
    ≡ false
unfolding is_authorized has_token cut_prefix contains_text form_get lookup text_eq split_csv split
    names acl_subjects lists_role
grants-handle_acl_set_example =
    grants-handle_acl_set request start revocation (text "ann@pve") (text "PVEAuditor") refl refl
      refl refl
