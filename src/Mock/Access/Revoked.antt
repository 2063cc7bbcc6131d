-- ===== src/Mock/Access/Revoked.antt =====
-- Which entries the access control list holds after a request: `handleACLSet` of
-- proxmox/mockpve/access.go.
use proxmox_go_sdk.Base.{
  ◌≡◌, refl, Bool, false, not, ◌&&◌, ◌||◌, List, [], ◌∷◌, ◌++◌, arith, if◌then◌else◌, true,
}
use proxmox_go_sdk.Base.Eq.{◌==◌, text_Eq, text_eq_iff}
use proxmox_go_sdk.Base.Text.{Text, text}
use proxmox_go_sdk.Mock.AccessRecords.{AclRecord}
use proxmox_go_sdk.Mock.{Request, State, Form, form_get, respond, found_or, refuse_if}
use proxmox_go_sdk.Mock.Server.{check_auth, parse_form, is_authorized}
use proxmox_go_sdk.Mock.Access.Acl.{
  handle_acl_set, set_acls, change_of, split_csv, acl_subjects, is_none_of,
}
use proxmox_go_sdk.Base.{some}
use proxmox_go_sdk.Base.Text.{is_empty}
use proxmox_go_sdk.Mock.Access.Acl.{
  AclSubject, is_entry, remove_acl, AclChange, change_acl, change_roles, change_subjects,
}

-- whether a list has an entry for this path, subject and role
unfoldable pub grants : Text → Text → Text → List AclRecord → Bool
grants path ugid role [] = false
grants path ugid role (a ∷ list) = is_entry path ugid role a || grants path ugid role list

unfoldable pub names : Text → List AclSubject → Bool
names ugid [] = false
names ugid (u ∷ us) = (u.ugid == ugid) || names ugid us

unfoldable pub lists_role : Text → List Text → Bool
lists_role role [] = false
lists_role role (x ∷ xs) = (x == role) || lists_role role xs

grants-append :
    (path ugid role : Text) (xs ys : List AclRecord)
    → grants path ugid role (xs ++ ys) ≡ (grants path ugid role xs || grants path ugid role ys)
unfolding grants
grants-append path ugid role [] ys = refl
grants-append path ugid role (x ∷ xs) ys = ground (arith, grants-append path ugid role xs ys)

-- whether the entry that a change is about is this one
abbrev same_entry : Text → Text → Text → Text → Text → Text → Bool
same_entry p u r path ugid role = (p == path) && ((u == ugid) && (r == role))

grants-remove_acl :
    (path ugid role : Text) (list : List AclRecord) (p u r : Text)
    → grants path ugid role (remove_acl list p u r)
      ≡ (grants path ugid role list && not (same_entry p u r path ugid role))
unfolding grants remove_acl is_entry
grants-remove_acl path ugid role [] p u r = refl
grants-remove_acl path ugid role (a ∷ list) p u r = ground (
  arith,
  text_eq_iff a.path path,
  text_eq_iff a.ugid ugid,
  text_eq_iff a.roleid role,
  text_eq_iff a.path p,
  text_eq_iff a.ugid u,
  text_eq_iff a.roleid r,
  text_eq_iff p path,
  text_eq_iff u ugid,
  text_eq_iff r role,
  grants-remove_acl path ugid role list p u r,
)

-- an entry after it is set (`hit`): revoked, or granted
abbrev outcome : Bool → Bool → Bool → Bool
outcome remove hit before = if hit then not remove else before

module _ (c : AclChange) (ugid role : Text) where
  -- what one turn of the inner loop does to the entry for this subject and role
  grants-change_acl :
      (subject : AclSubject) (r : Text) (list : List AclRecord)
      → grants c.path ugid role (change_acl c subject r list)
        ≡ outcome c.remove ((subject.ugid == ugid) && (r == role)) (grants c.path ugid role list)
  unfolding change_acl grants is_entry
  grants-change_acl subject r list = ground (
    arith,
    grants-remove_acl c.path ugid role list c.path subject.ugid r,
    grants-append c.path ugid role list (
        record {
          path = c.path;
          roleid = r;
          kind = subject.kind;
          ugid = subject.ugid;
          propagate = c.propagate;
        }
        ∷ []),
    text_eq_iff c.path c.path,
  )

  grants-change_roles :
      (subject : AclSubject) (roles : List Text) (list : List AclRecord)
      → grants c.path ugid role (change_roles c subject roles list)
        ≡ outcome c.remove
            ((subject.ugid == ugid) && lists_role role roles)
            (grants c.path ugid role list)
  unfolding change_roles lists_role
  grants-change_roles subject [] list = ground arith
  grants-change_roles subject (r ∷ roles) list = ground (
    arith,
    grants-change_roles subject roles (change_acl c subject r list),
    grants-change_acl subject r list,
  )

  -- After a request, the list has an entry for the request's path, a subject and a role: if both are
  -- named by the request, exactly when it does not delete, and otherwise exactly when it had one.
  pub grants-change_subjects :
      (subjects : List AclSubject) (roles : List Text) (list : List AclRecord)
      → grants c.path ugid role (change_subjects c subjects roles list) ≡ (
          if names ugid subjects && lists_role role roles
          then not c.remove
          else grants c.path ugid role list)
  unfolding change_subjects names
  grants-change_subjects [] roles list = refl
  grants-change_subjects (u ∷ us) roles list = ground (
    arith,
    grants-change_subjects us roles (change_roles c u roles list),
    grants-change_roles u roles list,
  )

-- An authorized request with a path and at least one role is granted or revoked whole: afterwards the
-- list has an entry for that path, a subject and a role, if both are named by the request, exactly when
-- `delete` is not 1, and otherwise exactly when it had one before.
pub grants-handle_acl_set :
    (r : Request) (s : State) (form : Form) (ugid role : Text)
    → is_authorized r s ≡ true
    → r.form ≡ some form
    → is_empty (form_get form (text "path")) ≡ false
    → is_none_of (split_csv (form_get form (text "roles"))) ≡ false
    → grants (form_get form (text "path")) ugid role (handle_acl_set r s).1.access.acls ≡ (
        if names ugid (acl_subjects form)
          && lists_role role (split_csv (form_get form (text "roles")))
        then not (form_get form (text "delete") == text "1")
        else grants (form_get form (text "path")) ugid role s.access.acls)
unfolding handle_acl_set respond parse_form found_or check_auth refuse_if set_acls change_of
grants-handle_acl_set r s form ugid role authorized parsed has_path has_role =
    rw (authorized, parsed, has_path, has_role)
      (grants-change_subjects (change_of form) ugid role (acl_subjects form)
        (split_csv (form_get form (text "roles"))) s.access.acls)
