-- ===== src/Mock/Firewall/Ipsets.antt =====
-- The IP sets of a scope: proxmox/mockpve/firewall.go.
use proxmox_go_sdk.Base.{Option, none, some, [], if◌then◌else◌, map}
use proxmox_go_sdk.Base.Eq.{◌==◌, text_Eq}
use proxmox_go_sdk.Base.Map.{Map, lookup, insert, erase}
use proxmox_go_sdk.Base.Text.{Text, text, is_empty}
use proxmox_go_sdk.Mock.{
  State, Request, Response, Handler, Checked, passed, ◌>>=◌, ◌>>◌, found_or, refuse_if, respond,
  Form, form_get, ipsets, ipset_entries, null,
}
use proxmox_go_sdk.Mock.FirewallRecords.{
  FwIpsetRecord, FwEntryRecord, FwIpsetPayload, FwEntryPayload,
}
use proxmox_go_sdk.Mock.Server.{check_auth, parse_form}
use proxmox_go_sdk.Mock.Ha.{flag}
use proxmox_go_sdk.Mock.Collection.{path_value}
use proxmox_go_sdk.Mock.Firewall.{answer_in, scope_of, open_scope, put_scope, ScopeKey}

unfoldable pub entry_payload : FwEntryRecord → FwEntryPayload
entry_payload e = record { cidr = e.cidr; no_match = flag e.no_match; comment = e.comment }

abbrev pub ipset_payload : FwIpsetRecord → FwIpsetPayload
ipset_payload rec = record { name = rec.name; comment = rec.comment }

unfoldable pub lookup_ipset : Text → Text → State → Option FwIpsetRecord
lookup_ipset key name s = lookup name (scope_of key s).ipsets

unfoldable pub set_ipsets : Map Text FwIpsetRecord → Text → State → State
set_ipsets sets key s = put_scope key (record (scope_of key s) { ipsets = sets }) s

unfoldable pub put_ipset : Text → Text → FwIpsetRecord → State → State
put_ipset key name rec s = set_ipsets (insert name rec (scope_of key s).ipsets) key s

unfoldable pub drop_ipset : Text → Text → State → State
drop_ipset key name s = set_ipsets (erase name (scope_of key s).ipsets) key s

unfoldable pub handle_ipset_list : ScopeKey → Handler
handle_ipset_list key r s = answer_in s (check_auth r s) (λ _.
    let t = open_scope (key r) s in
    respond t (passed (ipsets (map (λ e. ipset_payload e.1) (scope_of (key r) t).ipsets), t)))

-- the set goes under its new name, and then leaves the old one
unfoldable pub move_ipset : Text → Text → Text → FwIpsetRecord → State → State
move_ipset key old new_name rec s =
    drop_ipset key old (put_ipset key new_name (record rec { name = new_name }) s)

unfoldable pub rename_ipset : Text → Text → Text → State → Response × State
rename_ipset key old new_name s =
    let t = open_scope key s in
    respond t (do
      rec ← found_or (lookup_ipset key old t) 404 (text "no such firewall ipset")
      passed (null, move_ipset key old new_name rec t))

unfoldable pub new_ipset : Form → FwIpsetRecord
new_ipset form = record {
  name = form_get form (text "name");
  comment = form_get form (text "comment");
  entries = [];
}

unfoldable pub create_ipset : Text → Form → State → Response × State
create_ipset key form s =
    let t = open_scope key s in
    respond t (passed (null, put_ipset key (form_get form (text "name")) (new_ipset form) t))

-- the form, if it has a name
unfoldable pub named_form : Request → State → Checked Form
named_form r s = do
  check_auth r s
  form ← parse_form r
  refuse_if (is_empty (form_get form (text "name"))) 400 (text "missing name")
  passed form

unfoldable pub handle_ipset_create : ScopeKey → Handler
handle_ipset_create key r s = answer_in s (named_form r s) (λ form.
    if is_empty (form_get form (text "rename"))
    then create_ipset (key r) form s
    else rename_ipset (key r) (form_get form (text "rename")) (form_get form (text "name")) s)

unfoldable pub handle_ipset_delete : ScopeKey → Handler
handle_ipset_delete key r s = answer_in s (check_auth r s) (λ _.
    let t = open_scope (key r) s in
    respond t (do
      rec ←
          found_or (lookup_ipset (key r) (path_value r (text "name")) t) 404
            (text "no such firewall ipset")
      passed (null, drop_ipset (key r) (path_value r (text "name")) t)))

unfoldable pub handle_entry_list : ScopeKey → Handler
handle_entry_list key r s = answer_in s (check_auth r s) (λ _.
    let t = open_scope (key r) s in
    respond t (do
      rec ←
          found_or (lookup_ipset (key r) (path_value r (text "name")) t) 404
            (text "no such firewall ipset")
      passed (ipset_entries (map (λ e. entry_payload e.1) rec.entries), t)))

-- an entry is written, whether or not it was there
unfoldable pub add_entry : Form → FwIpsetRecord → FwIpsetRecord
add_entry form rec = record rec {
  entries =
      insert (form_get form (text "cidr"))
        (record {
          cidr = form_get form (text "cidr");
          no_match = form_get form (text "nomatch") == text "1";
          comment = form_get form (text "comment");
        })
        rec.entries;
}

unfoldable pub cidr_form : Request → State → Checked Form
cidr_form r s = do
  check_auth r s
  form ← parse_form r
  refuse_if (is_empty (form_get form (text "cidr"))) 400 (text "missing cidr")
  passed form

unfoldable pub handle_entry_add : ScopeKey → Handler
handle_entry_add key r s = answer_in s (cidr_form r s) (λ form.
    let t = open_scope (key r) s in
    respond t (do
      rec ←
          found_or (lookup_ipset (key r) (path_value r (text "name")) t) 404
            (text "no such firewall ipset")
      passed (null, put_ipset (key r) (path_value r (text "name")) (add_entry form rec) t)))

-- a set and an entry of it, if both are there
unfoldable pub lookup_entry : Text → Option FwIpsetRecord → Option FwIpsetRecord
lookup_entry cidr none = none
lookup_entry cidr (some rec) = elim (lookup cidr rec.entries) [ none ↦ none | some e ↦ some rec ]

unfoldable pub handle_entry_delete : ScopeKey → Handler
handle_entry_delete key r s = answer_in s (check_auth r s) (λ _.
    let t = open_scope (key r) s in
    respond t (do
      rec ←
          found_or
            (lookup_entry (path_value r (text "cidr"))
              (lookup_ipset (key r) (path_value r (text "name")) t))
            404 (text "no such firewall ipset entry")
      passed (
        null,
        put_ipset (key r) (path_value r (text "name"))
            (record rec { entries = erase (path_value r (text "cidr")) rec.entries }) t,
      )))
