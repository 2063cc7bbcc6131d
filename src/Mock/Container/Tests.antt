-- ===== src/Mock/Container/Tests.antt =====
-- A container and a guest with the same number.
use proxmox_go_sdk.Base.{◌≡◌, refl, some, none, [], ◌∷◌}
use proxmox_go_sdk.Base.Eq.{text_Eq}
use proxmox_go_sdk.Base.Text.{Text, text}
use proxmox_go_sdk.Base.Number.{pos}
use proxmox_go_sdk.Mock.Routes.Others.{serve_other, of_ct, vms-serve_other}
use proxmox_go_sdk.Mock.{State, Request, Form}
use proxmox_go_sdk.Mock.Store.{new, add_vm, stopped}
use proxmox_go_sdk.Mock.Container.{add_container, lookup_ct, handle_ct_create}
use proxmox_go_sdk.Mock.Container.Lifecycle.{lookup_ct-handle_ct_create}
use proxmox_go_sdk.Mock.{Value, string}
use proxmox_go_sdk.Base.Map.{Map, lookup}
use proxmox_go_sdk.Base.Eq.{text_eq}
use proxmox_go_sdk.Base.Text.{cut_prefix, contains_text}
use proxmox_go_sdk.Base.Number.{parse_int, int_eq}
use proxmox_go_sdk.Mock.{form_get}
use proxmox_go_sdk.Mock.Server.{is_authorized, has_token}
use proxmox_go_sdk.Mock.Container.Routes.{delete_lxc}

abbrev pve : Text
pve = text "pve"

abbrev both : State
both =
    add_container pve (pos 100) (text "proxy") stopped
      (add_vm pve (pos 100) (text "web") stopped new)

abbrev form : Form
form = (text "vmid", text "101" ∷ []) ∷ (text "hostname", text "cache" ∷ []) ∷ []

abbrev sent : Request
sent = record {
  authorization = text "PVEAPIToken=root@pam!ci=x";
  cookie = none;
  node = pve;
  vmid = text "100";
  snap = [];
  upid = [];
  storage = [];
  path = [];
  query = [];
  form = some form;
  clock = 255;
}

vms-serve_other_example : ((serve_other (λ t. none) (of_ct delete_lxc) sent both).1).vms ≡ both.vms
vms-serve_other_example = vms-serve_other (λ t. none) (of_ct delete_lxc) sent both

lookup_ct-handle_ct_create_example :
    (config : Map Text Value) × (lookup_ct pve (pos 101) (handle_ct_create sent both).1
      ≡ some (record {
        vmid = pos 101;
        node = pve;
        name = text "cache";
        status = text "stopped";
        config = config;
        snapshots = [];
        agent = none;
      }))
    × (lookup (text "hostname") config ≡ some (string (text "cache")))
unfolding is_authorized has_token cut_prefix contains_text parse_int form_get lookup text_eq int_eq
lookup_ct-handle_ct_create_example =
    lookup_ct-handle_ct_create sent both form (pos 101) pve (pos 101) (text "hostname") refl refl
      refl
