-- ===== src/Mock/Tests.antt =====
-- The server at concrete inputs: one guest, a login, a token.
use proxmox_go_sdk.Base.{refl, ◌≡◌, some, none, [], ◌∷◌, arith, true}
use proxmox_go_sdk.Base.Eq.{text_Eq}
use proxmox_go_sdk.Base.Text.{Text, text, join, trim_space}
use proxmox_go_sdk.Base.Number.{pos, itoa}
use proxmox_go_sdk.Mock.{
  State, Request, Form, VmRecord, lookup, data_of, error_of, upid, task, ticket, number, string,
  Value,
}
use proxmox_go_sdk.Mock.Store.{
  put_vm, new, add_vm, add_user, lookup_vm, finished_task, new_vm, synth_upid, stopped,
}
use proxmox_go_sdk.Base.Map.{lookup, Map}
use proxmox_go_sdk.Mock.Store.Finished.{synthetic, parse_upid-synth_upid}
use proxmox_go_sdk.Mock.Server.{
  authentication_failure, is_authorized, handle_task_status, handle_ticket,
}
use proxmox_go_sdk.Mock.Vm.{handle_migrate, handle_template, handle_create, apply_config_form}
use proxmox_go_sdk.Mock.Vm.Forms.{lookup-apply_config_form, is_deleted}
use proxmox_go_sdk.Mock.Vm.Lifecycle.{
  lookup_vm-handle_migrate, lookup_vm-handle_template, lookup_vm-handle_create,
}
use proxmox_go_sdk.Mock.Snapshot.{
  new_snapshot, handle_snapshot_create, handle_snapshot_rollback, handle_snapshot_delete,
}
use proxmox_go_sdk.Mock.Snapshot.Lifecycle.{
  rollback-handle_snapshot_create, rollback-handle_snapshot_delete,
}
use proxmox_go_sdk.Mock.Routes.Others.{serve_other, of_ct}
use proxmox_go_sdk.Mock.Container.Routes.{delete_lxc}
use proxmox_go_sdk.Mock.Routes.{serve, post_template, post_migrate}
use proxmox_go_sdk.Mock.Routes.Access.{serve_unauthorized}
use proxmox_go_sdk.Mock.Routes.Filed.{IsFiled, put_vm-IsFiled}
use proxmox_go_sdk.Mock.Routes.Reachable.{Reachable-IsFiled, new-IsFiled, fresh, after, seed_vm}
use proxmox_go_sdk.Mock.Routes.Reachable
use proxmox_go_sdk.Mock.Routes.Reports.{status-finished_task, login_accepted}
use proxmox_go_sdk.Tasks.Upid.{parse_upid}
use proxmox_go_sdk.Pverr.{ok}
use proxmox_go_sdk.Mock.Server.{has_token}
use proxmox_go_sdk.Base.Text.{cut_prefix}
use proxmox_go_sdk.Mock.Server.{has_ticket}
use proxmox_go_sdk.Mock.Store.{put_vm}
use proxmox_go_sdk.Base.Map.{insert}
use proxmox_go_sdk.Base.Text.{contains_text}
use proxmox_go_sdk.Base.Number.{parse_int}
use proxmox_go_sdk.Base.Eq.{text_eq}
use proxmox_go_sdk.Base.Number.{int_eq}
use proxmox_go_sdk.Mock.{form_get}
use proxmox_go_sdk.Mock.Server.{any_value}

abbrev pve : Text
pve = text "pve"

abbrev web : State
web =
    add_user (text "root@pam") (text "secret")
      (add_vm pve (pos 100) (text "web") (text "stopped") new)

abbrev request : Request
request = record {
  authorization = text "PVEAPIToken=root@pam!ci=x";
  cookie = none;
  node = pve;
  vmid = text "100";
  snap = text "before";
  upid = [];
  storage = [];
  path = [];
  query = [];
  form = some [];
  clock = 255;
}

abbrev with_form : Form → Request
with_form form = record request { form = some form }

abbrev anonymous : Request
anonymous = record request { authorization = text "Bearer x" }

abbrev to_pve2 : Form
to_pve2 = (text "target", text "pve2" ∷ []) ∷ []

abbrev snapshot_form : Form
snapshot_form = (text "snapname", text "before" ∷ []) ∷ []

abbrev create_form : Form
create_form =
    (text "vmid", text "101" ∷ [])
    ∷ (text "name", text "db" ∷ [])
    ∷ (text "cores", text "4" ∷ [])
    ∷ []

abbrev login_form : Form
login_form = (text "username", text "root@pam" ∷ []) ∷ (text "password", text "secret" ∷ []) ∷ []

-- what `lookup_vm` finds of the guest that the tests use
abbrev web_record : VmRecord
web_record = new_vm pve (pos 100) (text "web") (text "stopped")

serve_unauthorized_example :
    (serve post_template anonymous web ≡ (error_of 401 authentication_failure, web))
    × (serve_other (λ t. none) (of_ct delete_lxc) anonymous web
        ≡ (error_of 401 authentication_failure, web))
unfolding is_authorized has_token cut_prefix has_ticket
serve_unauthorized_example =
    serve_unauthorized (λ t. none) post_template (of_ct delete_lxc) anonymous web refl (λ e. cc)

web-IsFiled : IsFiled web
unfolding add_user add_vm put_vm insert IsFiled lookup_vm
web-IsFiled = put_vm-IsFiled pve (pos 100) new new-IsFiled web_record refl refl

lookup_vm-handle_migrate_example :
    lookup_vm (text "pve2") (pos 100) (handle_migrate (with_form to_pve2) web).1
    ≡ some (record web_record { node = text "pve2" })
unfolding is_authorized has_token cut_prefix contains_text parse_int lookup_vm lookup add_user
    add_vm put_vm insert text_eq int_eq form_get
lookup_vm-handle_migrate_example =
    lookup_vm-handle_migrate (with_form to_pve2) web refl (pos 100) web_record refl refl to_pve2
      (text "pve2") (pos 100) refl refl

-- A guest that is migrated to its own node is gone.
self_migration :
    lookup_vm pve (pos 100) (handle_migrate (with_form ((text "target", pve ∷ []) ∷ [])) web).1
    ≡ none
unfolding is_authorized has_token cut_prefix contains_text parse_int lookup_vm lookup add_user
    add_vm put_vm insert text_eq int_eq form_get
self_migration =
    lookup_vm-handle_migrate (with_form ((text "target", pve ∷ []) ∷ [])) web refl (pos 100)
      web_record refl refl ((text "target", pve ∷ []) ∷ []) pve (pos 100) refl refl

lookup_vm-handle_template_example :
    ((handle_template request web).0
      ≡ data_of (upid (synth_upid pve (text "qmtemplate") (itoa (pos 100)) 255)))
    × (lookup_vm pve (pos 100) (handle_template request web).1
        ≡ some (record web_record {
          config = (text "name", string (text "web")) ∷ (text "template", number (pos 1)) ∷ [];
        }))
unfolding is_authorized has_token cut_prefix contains_text parse_int lookup_vm lookup add_user
    add_vm put_vm insert text_eq int_eq
lookup_vm-handle_template_example =
    lookup_vm-handle_template request web refl (pos 100) web_record refl refl pve (pos 100)

lookup_vm-handle_create_example :
    (config : Map Text Value) × (lookup_vm pve
        (pos 101)
        (handle_create (with_form create_form) web).1
      ≡ some (record {
        vmid = pos 101;
        node = pve;
        name = text "db";
        status = text "stopped";
        config = config;
        snapshots = [];
        agent = none;
      }))
    × (lookup (text "cores") config ≡ some (number (pos 4)))
unfolding is_authorized has_token cut_prefix contains_text parse_int form_get lookup text_eq int_eq
lookup_vm-handle_create_example =
    lookup_vm-handle_create (with_form create_form) web refl create_form (pos 101) pve (pos 101)
      (text "cores") refl refl

abbrev config_form : Form
config_form = (text "delete", text "cores, name" ∷ []) ∷ (text "cores", text "4" ∷ []) ∷ []

lookup-apply_config_form_example :
    lookup (text "name") (apply_config_form config_form web_record).config ≡ none
unfolding lookup text_eq form_get join is_deleted trim_space
lookup-apply_config_form_example =
    lookup-apply_config_form (text "name") config_form (text "cores" ∷ text " name" ∷ []) web_record
      (refl, omega arith, (λ e. cc))

rollback-handle_snapshot_create_example :
    (handle_snapshot_rollback request (handle_snapshot_create (with_form snapshot_form) web).1).0
    ≡ data_of (upid (synth_upid pve (text "qmrollback") (itoa (pos 100)) 255))
unfolding is_authorized has_token cut_prefix contains_text parse_int lookup_vm lookup add_user
    add_vm put_vm insert text_eq int_eq form_get
rollback-handle_snapshot_create_example =
    rollback-handle_snapshot_create (with_form snapshot_form) web refl (pos 100) web_record refl
      refl snapshot_form request refl refl refl refl refl

abbrev snapped_record : VmRecord
snapped_record = record web_record {
  snapshots = (text "before", new_snapshot snapshot_form (text "before")) ∷ [];
}

abbrev snapped : State
snapped = put_vm pve (pos 100) snapped_record web

rollback-handle_snapshot_delete_example :
    (handle_snapshot_rollback request (handle_snapshot_delete request snapped).1).0
    ≡ error_of 404 (text "no such snapshot")
unfolding is_authorized has_token cut_prefix contains_text parse_int lookup_vm lookup put_vm insert
    add_user add_vm text_eq int_eq
rollback-handle_snapshot_delete_example =
    rollback-handle_snapshot_delete request snapped refl (pos 100) snapped_record refl refl request
      refl refl refl refl refl

parse_upid-synth_upid_example :
    parse_upid (synth_upid pve (text "qmstart") (text "100") 255)
    ≡ ok (synthetic pve (text "qmstart") (text "100") 255)
parse_upid-synth_upid_example =
    parse_upid-synth_upid pve (text "qmstart") (text "100") 255 (omega arith) (omega arith)
      (omega arith) (omega arith)

abbrev after_start : Text × State
after_start = finished_task pve (text "qmstart") (text "100") 255 web

abbrev poll : Request
poll = record request { upid = after_start.0 }

status-finished_task_example :
    (handle_task_status poll after_start.1).0
    ≡ data_of (
        task (record {
          upid = after_start.0;
          node = pve;
          kind = text "qmstart";
          id = text "100";
          user = text "root@pam";
          status = text "stopped";
          exit_status = text "OK";
          pid = pos 1000;
          start_time = pos 255;
        }))
unfolding is_authorized has_token cut_prefix contains_text
status-finished_task_example =
    status-finished_task pve (text "qmstart") (text "100") 255 web poll refl refl refl

abbrev with_cookie : Request
with_cookie = record anonymous { cookie = some (text "mock-ticket-root@pam") }

login_accepted_example :
    ((handle_ticket (with_form login_form) web).0
      ≡ data_of (
          ticket (record {
            ticket = text "mock-ticket-root@pam";
            csrf = text "mock-csrf-root@pam";
            username = text "root@pam";
          })))
    × (is_authorized with_cookie (handle_ticket (with_form login_form) web).1 ≡ true)
unfolding lookup add_user insert add_vm put_vm text_eq any_value
login_accepted_example =
    login_accepted (with_form login_form) with_cookie web login_form refl refl refl

Reachable-IsFiled_example :
    IsFiled
      (serve post_migrate (with_form to_pve2) (add_vm pve (pos 100) (text "web") stopped new)).1
Reachable-IsFiled_example =
    Reachable-IsFiled
      (serve post_migrate (with_form to_pve2) (add_vm pve (pos 100) (text "web") stopped new)).1
      (after (after fresh (seed_vm pve (pos 100) (text "web") stopped new)) (
        Reachable.request post_migrate (with_form to_pve2)
          (add_vm pve (pos 100) (text "web") stopped new)))
