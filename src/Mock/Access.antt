-- ===== src/Mock/Access.antt =====
-- Users, groups and roles: proxmox/mockpve/access.go. The passwords of the ticket endpoint are kept
-- elsewhere in the state.
pub mod Acl
pub mod Tokens
pub mod Routes
pub mod Revoked
mod Tests
use proxmox_go_sdk.Base.{
  ◌≡◌, refl, ℕ, Bool, true, false, not, Option, none, some, List, [], ◌∷◌, ◌++◌, if◌then◌else◌, map,
}
use proxmox_go_sdk.Base.Eq.{◌==◌, text_Eq}
use proxmox_go_sdk.Base.Map.{Map, insert}
use proxmox_go_sdk.Base.Text.{Text, text, is_empty, split, join, comma}
use proxmox_go_sdk.Base.Number.{ℤ, pos}
use proxmox_go_sdk.Mock.{
  State, Handler, Checked, passed, ◌>>=◌, ◌>>◌, found_or, respond, Form, form_get, user, users,
  group, groups, roles, privileges, null,
}
use proxmox_go_sdk.Mock.AccessRecords.{
  UserRecord, GroupRecord, RoleRecord, UserPayload, RolePayload,
}
use proxmox_go_sdk.Mock.Server.{check_auth}
use proxmox_go_sdk.Mock.Ha.{flag}
use proxmox_go_sdk.Mock.Collection.{
  Collection, path_value, text_or, flag_or, find_record, put_record, handle_all, handle_one,
  handle_new, handle_change, handle_drop,
}

unfoldable pub user_payload : UserRecord → UserPayload
user_payload rec = record {
  userid = rec.userid;
  enable = flag rec.enable;
  expire = rec.expire;
  first_name = rec.first_name;
  last_name = rec.last_name;
  email = rec.email;
  comment = rec.comment;
  groups = rec.groups;
}

unfoldable pub role_payload : RoleRecord → RolePayload
role_payload rec = record {
  roleid = rec.roleid;
  privs = join (comma ∷ []) rec.privs;
  special = flag rec.special;
}

abbrev pub user_records : Collection UserRecord
user_records = record {
  entries = λ s. s.access.users;
  set_entries = λ m s. record s { access = record s.access { users = m } };
  missing = text "no such user";
  payload = λ rec. user (user_payload rec);
  entries_set = λ m s. refl;
}

abbrev pub group_records : Collection GroupRecord
group_records = record {
  entries = λ s. s.access.groups;
  set_entries = λ m s. record s { access = record s.access { groups = m } };
  missing = text "no such group";
  payload = group;
  entries_set = λ m s. refl;
}

-- the keys of a role's privileges, each with a 1
unfoldable pub privilege_map : List Text → Map Text ℕ → Map Text ℕ
privilege_map [] out = out
privilege_map (p ∷ ps) out = privilege_map ps (insert p 1 out)

abbrev pub role_records : Collection RoleRecord
role_records = record {
  entries = λ s. s.access.roles;
  set_entries = λ m s. record s { access = record s.access { roles = m } };
  missing = text "no such role";
  payload = λ rec. privileges (privilege_map rec.privs []);
  entries_set = λ m s. refl;
}

unfoldable pub add_access_user : Text → State → State
add_access_user userid = put_record user_records userid (record {
  userid = userid;
  email = [];
  comment = [];
  first_name = [];
  last_name = [];
  enable = true;
  expire = pos 0;
  groups = [];
})

unfoldable pub add_group : Text → State → State
add_group groupid =
    put_record group_records groupid (record { groupid = groupid; comment = []; members = [] })

unfoldable pub add_role : Text → List Text → State → State
add_role roleid privs =
    put_record role_records roleid (record { roleid = roleid; privs = privs; special = false })

-- `if v := form.Get(key); v != "" { field = strings.Split(v, ",") }`
unfoldable pub list_or : List Text → Form → Text → List Text
list_or old form key = if is_empty (form_get form key) then old else split comma (form_get form key)

unfoldable pub new_user : Form → Text → UserRecord
new_user form userid = record {
  userid = userid;
  email = form_get form (text "email");
  comment = form_get form (text "comment");
  first_name = form_get form (text "firstname");
  last_name = form_get form (text "lastname");
  enable = not (form_get form (text "enable") == text "0");
  expire = pos 0;
  groups = list_or [] form (text "groups");
}

unfoldable pub apply_user_form : Form → UserRecord → UserRecord
apply_user_form form rec = record rec {
  email = text_or rec.email form (text "email");
  comment = text_or rec.comment form (text "comment");
  groups = list_or rec.groups form (text "groups");
  enable = flag_or rec.enable form (text "enable");
}

unfoldable pub handle_user_list : Handler
handle_user_list = handle_all user_records user_payload users

unfoldable pub handle_user_get : Handler
handle_user_get r = handle_one user_records (path_value r (text "userid")) r

unfoldable pub handle_user_create : Handler
handle_user_create = handle_new user_records (text "userid") (text "missing userid") new_user

unfoldable pub handle_user_update : Handler
handle_user_update r = handle_change user_records (path_value r (text "userid")) apply_user_form r

unfoldable pub handle_user_delete : Handler
handle_user_delete r = handle_drop user_records (path_value r (text "userid")) r

unfoldable pub new_group : Form → Text → GroupRecord
new_group form groupid = record {
  groupid = groupid;
  comment = form_get form (text "comment");
  members = [];
}

unfoldable pub apply_group_form : Form → GroupRecord → GroupRecord
apply_group_form form rec = record rec { comment = text_or rec.comment form (text "comment") }

unfoldable pub handle_group_list : Handler
handle_group_list = handle_all group_records (λ rec. rec) groups

unfoldable pub handle_group_get : Handler
handle_group_get r = handle_one group_records (path_value r (text "groupid")) r

unfoldable pub handle_group_create : Handler
handle_group_create = handle_new group_records (text "groupid") (text "missing groupid") new_group

unfoldable pub handle_group_update : Handler
handle_group_update r =
    handle_change group_records (path_value r (text "groupid")) apply_group_form r

unfoldable pub handle_group_delete : Handler
handle_group_delete r = handle_drop group_records (path_value r (text "groupid")) r

unfoldable pub new_role : Form → Text → RoleRecord
new_role form roleid = record {
  roleid = roleid;
  privs = list_or [] form (text "privs");
  special = false;
}

-- the privileges are replaced, or added to where `append` is 1
unfoldable pub apply_role_form : Form → RoleRecord → RoleRecord
apply_role_form form rec =
    if is_empty (form_get form (text "privs"))
    then rec
    else if form_get form (text "append") == text "1"
    then record rec { privs = rec.privs ++ split comma (form_get form (text "privs")) }
    else record rec { privs = split comma (form_get form (text "privs")) }

unfoldable pub handle_role_list : Handler
handle_role_list = handle_all role_records role_payload roles

unfoldable pub handle_role_get : Handler
handle_role_get r = handle_one role_records (path_value r (text "roleid")) r

unfoldable pub handle_role_create : Handler
handle_role_create = handle_new role_records (text "roleid") (text "missing roleid") new_role

unfoldable pub handle_role_update : Handler
handle_role_update r = handle_change role_records (path_value r (text "roleid")) apply_role_form r

unfoldable pub handle_role_delete : Handler
handle_role_delete r = handle_drop role_records (path_value r (text "roleid")) r
