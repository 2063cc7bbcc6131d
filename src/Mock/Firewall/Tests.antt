-- ===== src/Mock/Firewall/Tests.antt =====
-- IP sets renamed.
use proxmox_go_sdk.Base.{◌≡◌, refl, some, none, [], ◌∷◌}
use proxmox_go_sdk.Base.Eq.{text_Eq, text_eq}
use proxmox_go_sdk.Base.Text.{Text, text, cut_prefix, contains_text}
use proxmox_go_sdk.Mock.{Request, Form, State}
use proxmox_go_sdk.Mock.FirewallRecords.{FwIpsetRecord}
use proxmox_go_sdk.Mock.Store.{new}
use proxmox_go_sdk.Mock.Server.{has_token}
use proxmox_go_sdk.Mock.Firewall.Ipsets.{lookup_ipset, put_ipset, handle_ipset_create}
use proxmox_go_sdk.Mock.Firewall.Routes.{set_scope_key, cluster}
use proxmox_go_sdk.Mock.Firewall.Renamed.{lookup_ipset-handle_ipset_create}
use proxmox_go_sdk.Mock.Server.{is_authorized}
use proxmox_go_sdk.Mock.{form_get}
use proxmox_go_sdk.Base.Map.{lookup}
use proxmox_go_sdk.Mock.Firewall.{scope_of}
use proxmox_go_sdk.Mock.Firewall.Ipsets.{set_ipsets}
use proxmox_go_sdk.Mock.Firewall.{put_scope}
use proxmox_go_sdk.Base.Map.{insert}

abbrev blocked : FwIpsetRecord
blocked = record { name = text "blocked"; comment = text "by hand"; entries = [] }

abbrev start : State
start = put_ipset (text "cluster") (text "blocked") blocked new

abbrev renaming : Text → Form
renaming name = (text "name", name ∷ []) ∷ (text "rename", text "blocked" ∷ []) ∷ []

abbrev request : Text → Request
request name = record {
  authorization = text "PVEAPIToken=root@pam!ci=x";
  cookie = none;
  node = [];
  vmid = [];
  snap = [];
  upid = [];
  storage = [];
  path = [];
  query = [];
  form = some (renaming name);
  clock = 255;
}

lookup_ipset-handle_ipset_create_example :
    lookup_ipset
      (text "cluster")
      (text "denied")
      (handle_ipset_create (set_scope_key cluster) (request (text "denied")) start).1
    ≡ some (record blocked { name = text "denied" })
unfolding is_authorized has_token cut_prefix contains_text form_get lookup text_eq lookup_ipset
    scope_of put_ipset set_ipsets put_scope insert set_scope_key
lookup_ipset-handle_ipset_create_example =
    lookup_ipset-handle_ipset_create (set_scope_key cluster) (request (text "denied")) start
      (renaming (text "denied")) blocked (text "denied") refl refl refl refl refl

-- the set that is renamed to its own name is lost
renamed_to_itself :
    lookup_ipset
      (text "cluster")
      (text "blocked")
      (handle_ipset_create (set_scope_key cluster) (request (text "blocked")) start).1
    ≡ none
unfolding is_authorized has_token cut_prefix contains_text form_get lookup text_eq lookup_ipset
    scope_of put_ipset set_ipsets put_scope insert set_scope_key
renamed_to_itself =
    lookup_ipset-handle_ipset_create (set_scope_key cluster) (request (text "blocked")) start
      (renaming (text "blocked")) blocked (text "blocked") refl refl refl refl refl
