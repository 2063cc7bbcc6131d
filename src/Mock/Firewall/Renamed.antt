-- ===== src/Mock/Firewall/Renamed.antt =====
-- What becomes of the sets of a scope when one is renamed: `fwIPSetCreate` and `fwRenameIPSet` of
-- proxmox/mockpve/firewall.go.
use proxmox_go_sdk.Base.{◌≡◌, refl, true, false, none, some, if◌then◌else◌}
use proxmox_go_sdk.Base.Eq.{◌==◌, text_Eq, eq_refl}
use proxmox_go_sdk.Base.Map.{insert, erase, lookup-insert, lookup-erase}
use proxmox_go_sdk.Base.Text.{Text, text, is_empty}
use proxmox_go_sdk.Mock.{Request, State, Form, form_get, respond, found_or, refuse_if, passed}
use proxmox_go_sdk.Mock.FirewallRecords.{FwIpsetRecord, FwScope}
use proxmox_go_sdk.Mock.Server.{check_auth, parse_form, is_authorized}
use proxmox_go_sdk.Mock.Firewall.{ScopeKey, answer_in, scope_of, open_scope, put_scope}
use proxmox_go_sdk.Mock.Firewall.Ipsets.{
  lookup_ipset, set_ipsets, put_ipset, drop_ipset, move_ipset, rename_ipset, named_form,
  handle_ipset_create,
}

scope_of-put_scope :
    (key : Text) (sc : FwScope) (s : State) → scope_of key (put_scope key sc s) ≡ sc
unfolding scope_of put_scope
scope_of-put_scope key sc s = rw (lookup-insert key key sc s.firewall, eq_refl key) refl

lookup_ipset-open_scope :
    (key name : Text) (s : State)
    → lookup_ipset key name (open_scope key s) ≡ lookup_ipset key name s
unfolding lookup_ipset open_scope
lookup_ipset-open_scope key name s = rw (scope_of-put_scope key (scope_of key s) s) refl

lookup_ipset-put_ipset :
    (key name j : Text) (rec : FwIpsetRecord) (s : State)
    → lookup_ipset key j (put_ipset key name rec s)
      ≡ (if name == j then some rec else lookup_ipset key j s)
unfolding lookup_ipset put_ipset set_ipsets
lookup_ipset-put_ipset key name j rec s =
    rw
      (scope_of-put_scope key
        (record (scope_of key s) { ipsets = insert name rec (scope_of key s).ipsets }) s)
      (lookup-insert name j rec (scope_of key s).ipsets)

lookup_ipset-drop_ipset :
    (key name j : Text) (s : State)
    → lookup_ipset key j (drop_ipset key name s)
      ≡ (if name == j then none else lookup_ipset key j s)
unfolding lookup_ipset drop_ipset set_ipsets
lookup_ipset-drop_ipset key name j s =
    rw
      (scope_of-put_scope key
        (record (scope_of key s) { ipsets = erase name (scope_of key s).ipsets }) s)
      (lookup-erase name j (scope_of key s).ipsets)

lookup_ipset-move_ipset :
    (key old new_name j : Text) (rec : FwIpsetRecord) (s : State)
    → lookup_ipset key j (move_ipset key old new_name rec s) ≡ (
        if old == j
        then none
        else if new_name == j
        then some (record rec { name = new_name })
        else lookup_ipset key j s)
unfolding move_ipset
lookup_ipset-move_ipset key old new_name j rec s =
    rw
      (
        lookup_ipset-drop_ipset key old j
            (put_ipset key new_name (record rec { name = new_name }) s),
        lookup_ipset-put_ipset key new_name j (record rec { name = new_name }) s,
      )
      refl

lookup_ipset-rename_ipset :
    (key old new_name j : Text) (rec : FwIpsetRecord) (s : State)
    → lookup_ipset key old s ≡ some rec
    → lookup_ipset key j (rename_ipset key old new_name s).1 ≡ (
        if old == j
        then none
        else if new_name == j
        then some (record rec { name = new_name })
        else lookup_ipset key j s)
unfolding rename_ipset respond found_or
lookup_ipset-rename_ipset key old new_name j rec s found =
    rw
      (
        lookup_ipset-open_scope key old s,
        found,
        lookup_ipset-move_ipset key old new_name j rec (open_scope key s),
        lookup_ipset-open_scope key j s,
      )
      refl

named_form-passed :
    (r : Request) (s : State) (form : Form)
    → is_authorized r s ≡ true
    → r.form ≡ some form
    → is_empty (form_get form (text "name")) ≡ false
    → named_form r s ≡ passed form
unfolding named_form check_auth parse_form refuse_if found_or
named_form-passed r s form authorized parsed named = rw (authorized, parsed, named) refl

-- An authorized request that renames a set that the scope has. Under the old name there is no set
-- afterwards, under the new one is the set that was moved, with that name, and every other set is as
-- before. Where the two names are one, no set is left under it.
pub lookup_ipset-handle_ipset_create :
    (key : ScopeKey) (r : Request) (s : State) (form : Form) (rec : FwIpsetRecord) (j : Text)
    → is_authorized r s ≡ true
    → r.form ≡ some form
    → is_empty (form_get form (text "name")) ≡ false
    → is_empty (form_get form (text "rename")) ≡ false
    → lookup_ipset (key r) (form_get form (text "rename")) s ≡ some rec
    → lookup_ipset (key r) j (handle_ipset_create key r s).1 ≡ (
        if form_get form (text "rename") == j
        then none
        else if form_get form (text "name") == j
        then some (record rec { name = form_get form (text "name") })
        else lookup_ipset (key r) j s)
unfolding handle_ipset_create answer_in
lookup_ipset-handle_ipset_create key r s form rec j authorized parsed named renamed found =
    rw (named_form-passed r s form authorized parsed named, renamed)
      (lookup_ipset-rename_ipset (key r) (form_get form (text "rename"))
        (form_get form (text "name")) j rec s found)
