-- ===== src/Mock/Access/Acl.antt =====
-- The access control list: proxmox/mockpve/access.go.
use proxmox_go_sdk.Base.{
  Bool, true, false, not, ◌&&◌, ◌||◌, List, [], ◌∷◌, ◌++◌, if◌then◌else◌, map,
}
use proxmox_go_sdk.Base.Eq.{◌==◌, text_Eq}
use proxmox_go_sdk.Base.Text.{Text, text, is_empty, split, comma}
use proxmox_go_sdk.Mock.{
  State, Handler, passed, ◌>>=◌, ◌>>◌, refuse_if, respond, Form, form_get, acls, null,
}
use proxmox_go_sdk.Mock.AccessRecords.{AclRecord, AclPayload}
use proxmox_go_sdk.Mock.Server.{check_auth, parse_form}
use proxmox_go_sdk.Mock.Ha.{flag}

unfoldable pub set_acls : List AclRecord → State → State
set_acls list s = record s { access = record s.access { acls = list } }

unfoldable pub add_acl : Text → Text → Text → Bool → State → State
add_acl path ugid roleid propagate s =
    set_acls
      (s.access.acls
        ++ record {
          path = path;
          roleid = roleid;
          kind = text "user";
          ugid = ugid;
          propagate = propagate;
        }
          ∷ [])
      s

unfoldable pub acl_payload : AclRecord → AclPayload
acl_payload rec = record {
  path = rec.path;
  roleid = rec.roleid;
  kind = rec.kind;
  ugid = rec.ugid;
  propagate = flag rec.propagate;
}

unfoldable pub handle_acl_list : Handler
handle_acl_list r s =
    respond s (do check_auth r s; passed (acls (map acl_payload s.access.acls), s))

-- `splitCSV`
unfoldable pub split_csv : Text → List Text
split_csv s = if is_empty s then [] else split comma s

pub record AclSubject : Type 0 where
  pub ugid : Text
  pub kind : Text

abbrev pub subjects_of : Text → List Text → List AclSubject
subjects_of kind = map (λ u. record { ugid = u; kind = kind })

unfoldable pub acl_subjects : Form → List AclSubject
acl_subjects form =
    subjects_of (text "user") (split_csv (form_get form (text "users")))
    ++ (subjects_of (text "group") (split_csv (form_get form (text "groups")))
        ++ subjects_of (text "token") (split_csv (form_get form (text "tokens"))))

-- whether an entry is the one that is removed
unfoldable pub is_entry : Text → Text → Text → AclRecord → Bool
is_entry path ugid role a = (a.path == path) && ((a.ugid == ugid) && (a.roleid == role))

unfoldable pub remove_acl : List AclRecord → Text → Text → Text → List AclRecord
remove_acl [] path ugid role = []
remove_acl (a ∷ list) path ugid role =
    let rest = remove_acl list path ugid role in
    if is_entry path ugid role a then rest else a ∷ rest

-- What a request grants or revokes, but for the subjects and the roles.
pub record AclChange : Type 0 where
  pub path : Text
  pub remove : Bool
  pub propagate : Bool

-- the body of the two loops
unfoldable pub change_acl : AclChange → AclSubject → Text → List AclRecord → List AclRecord
change_acl c subject role list =
    if c.remove
    then remove_acl list c.path subject.ugid role
    else list
      ++ record {
        path = c.path;
        roleid = role;
        kind = subject.kind;
        ugid = subject.ugid;
        propagate = c.propagate;
      }
        ∷ []

-- the inner loop, over the roles
unfoldable pub change_roles : AclChange → AclSubject → List Text → List AclRecord → List AclRecord
change_roles c subject [] list = list
change_roles c subject (role ∷ roles) list =
    change_roles c subject roles (change_acl c subject role list)

-- the outer loop, over the subjects
unfoldable pub change_subjects :
    AclChange → List AclSubject → List Text → List AclRecord → List AclRecord
change_subjects c [] roles list = list
change_subjects c (subject ∷ subjects) roles list =
    change_subjects c subjects roles (change_roles c subject roles list)

abbrev pub is_none_of : List Text → Bool
is_none_of [] = true
is_none_of (x ∷ xs) = false

unfoldable pub change_of : Form → AclChange
change_of form = record {
  path = form_get form (text "path");
  remove = form_get form (text "delete") == text "1";
  propagate = not (form_get form (text "propagate") == text "0");
}

unfoldable pub handle_acl_set : Handler
handle_acl_set r s = respond s (do
  check_auth r s
  form ← parse_form r
  refuse_if
      (is_empty (form_get form (text "path"))
        || is_none_of (split_csv (form_get form (text "roles"))))
      400 (text "missing path or roles")
  passed (
    null,
    set_acls
        (change_subjects (change_of form) (acl_subjects form)
          (split_csv (form_get form (text "roles"))) s.access.acls)
        s,
  ))
