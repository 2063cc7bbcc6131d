-- ===== src/Mock/Firewall/Routes.antt =====
-- The routes of proxmox/mockpve/firewall.go in each scope; none of them touches a guest.
use proxmox_go_sdk.Mock.Guests.{Same, SameData}
use proxmox_go_sdk.Base.{◌≡◌, refl, ◌++◌, Bool-cases, inl, inr, Option}
use proxmox_go_sdk.Base.Text.{Text, text, is_empty}
use proxmox_go_sdk.Mock.{
  ◌>>=◌, Handler, State, Request, Response, Payload, form_get, Checked, refused, passed, found_or,
  respond,
}
use proxmox_go_sdk.Mock.Server.{check_auth}
use proxmox_go_sdk.Mock.Checks.{Grants, bind-Grants, respond-keeps}
use proxmox_go_sdk.Mock.Firewall.{
  ScopeKey, answer_in, open_scope, put_scope, set_rules, handle_fw_rule_list, handle_fw_rule_create,
  handle_fw_rule_get, handle_fw_rule_update, handle_fw_rule_delete, handle_fw_options_get,
  handle_fw_options_set,
}
use proxmox_go_sdk.Mock.Firewall.Ipsets.{
  put_ipset, drop_ipset, set_ipsets, move_ipset, rename_ipset, create_ipset, handle_ipset_list,
  handle_ipset_create, handle_ipset_delete, handle_entry_list, handle_entry_add,
  handle_entry_delete,
}

-- The guests that a firewall is served under, `fwGuestKinds`.
pub data FwGuestKind : Type 0 where
  qemu : FwGuestKind
  lxc : FwGuestKind

-- The scopes with IP sets, and all scopes.
pub data FwSetScope : Type 0 where
  cluster : FwSetScope
  guest : FwGuestKind → FwSetScope

pub data FwRuleScope : Type 0 where
  of_sets : FwSetScope → FwRuleScope
  node : FwRuleScope

-- `registerFirewallScope`
pub data FwRuleRoute : Type 0 where
  get_rules : FwRuleRoute
  post_rules : FwRuleRoute
  get_rule : FwRuleRoute
  put_rule : FwRuleRoute
  delete_rule : FwRuleRoute
  get_options : FwRuleRoute
  put_options : FwRuleRoute

-- `registerFirewallIPSetScope`
pub data FwSetRoute : Type 0 where
  get_ipsets : FwSetRoute
  post_ipsets : FwSetRoute
  get_ipset : FwSetRoute
  post_ipset : FwSetRoute
  delete_ipset : FwSetRoute
  delete_entry : FwSetRoute

pub data FirewallRoute : Type 0 where
  at_scope : FwRuleScope → FwRuleRoute → FirewallRoute
  at_sets : FwSetScope → FwSetRoute → FirewallRoute

abbrev pub guest_kind : FwGuestKind → Text
guest_kind qemu = text "qemu"
guest_kind lxc = text "lxc"

unfoldable pub set_scope_key : FwSetScope → ScopeKey
set_scope_key cluster r = text "cluster"
set_scope_key (guest kind) r = text "guest:" ++ (guest_kind kind ++ (text ":" ++ r.vmid))

unfoldable pub scope_key : FwRuleScope → ScopeKey
scope_key (of_sets scope) r = set_scope_key scope r
scope_key node r = text "node:" ++ r.node

unfoldable pub serve_rules : ScopeKey → FwRuleRoute → Handler
serve_rules key get_rules = handle_fw_rule_list key
serve_rules key post_rules = handle_fw_rule_create key
serve_rules key get_rule = handle_fw_rule_get key
serve_rules key put_rule = handle_fw_rule_update key
serve_rules key delete_rule = handle_fw_rule_delete key
serve_rules key get_options = handle_fw_options_get key
serve_rules key put_options = handle_fw_options_set key

unfoldable pub serve_ipsets : ScopeKey → FwSetRoute → Handler
serve_ipsets key get_ipsets = handle_ipset_list key
serve_ipsets key post_ipsets = handle_ipset_create key
serve_ipsets key get_ipset = handle_entry_list key
serve_ipsets key post_ipset = handle_entry_add key
serve_ipsets key delete_ipset = handle_ipset_delete key
serve_ipsets key delete_entry = handle_entry_delete key

unfoldable pub serve_firewall : FirewallRoute → Handler
serve_firewall (at_scope scope route) = serve_rules (scope_key scope) route
serve_firewall (at_sets scope route) = serve_ipsets (set_scope_key scope) route

pub answer_in-keeps {ℓ} :
    {A : Type ℓ} (s : State) (c : Checked A) (next : A → Response × State)
    → ((a : A) → Same s (next a).1)
    → Same s (answer_in s c next).1
unfolding answer_in
answer_in-keeps s (refused code message) next kept = refl
answer_in-keeps s (passed a) next kept = kept a

-- a handler whose last check, on the opened scope, is a lookup
found_or-keeps {ℓ} :
    {A : Type ℓ} (s t : State) (found : Option A) (message : Text)
    (next : A → Checked (Payload × State))
    → Same s t
    → ((a : A) → Grants (SameData s) (next a))
    → Same s (respond t (found_or found 404 message >>= next)).1
found_or-keeps s t found message next kept rest =
    respond-keeps (Same s) t _ kept
      (bind-Grants (SameData s) (found_or found 404 message) next (λ a _. rest a))

vms-serve_rules :
    (key : ScopeKey) (route : FwRuleRoute) (r : Request) (s : State)
    → Same s (serve_rules key route r s).1
unfolding serve_rules handle_fw_rule_list handle_fw_rule_create handle_fw_rule_get
    handle_fw_rule_update handle_fw_rule_delete handle_fw_options_get handle_fw_options_set respond
    open_scope put_scope set_rules
vms-serve_rules key get_rules r s = answer_in-keeps s (check_auth r s) _ (λ _. refl)
vms-serve_rules key post_rules r s = answer_in-keeps s _ _ (λ _. refl)
vms-serve_rules key get_rule r s =
    answer_in-keeps s (check_auth r s) _ (λ _. found_or-keeps s _ _ _ _ refl (λ at. refl))
vms-serve_rules key put_rule r s =
    answer_in-keeps s _ _ (λ _. found_or-keeps s _ _ _ _ refl (λ at. refl))
vms-serve_rules key delete_rule r s =
    answer_in-keeps s (check_auth r s) _ (λ _. found_or-keeps s _ _ _ _ refl (λ at. refl))
vms-serve_rules key get_options r s = answer_in-keeps s (check_auth r s) _ (λ _. refl)
vms-serve_rules key put_options r s = answer_in-keeps s _ _ (λ _. refl)

vms-serve_ipsets :
    (key : ScopeKey) (route : FwSetRoute) (r : Request) (s : State)
    → Same s (serve_ipsets key route r s).1
unfolding serve_ipsets handle_ipset_list handle_ipset_create handle_ipset_delete handle_entry_list
    handle_entry_add handle_entry_delete respond open_scope put_scope put_ipset drop_ipset
    set_ipsets move_ipset rename_ipset create_ipset
vms-serve_ipsets key get_ipsets r s = answer_in-keeps s (check_auth r s) _ (λ _. refl)
vms-serve_ipsets key post_ipsets r s = answer_in-keeps s _ _ (λ form.
    elim (Bool-cases (is_empty (form_get form (text "rename")))) [
      | inl e ↦ rw e refl
      | inr e ↦ rw e (found_or-keeps s _ _ _ _ refl (λ rec. refl))
    ])
vms-serve_ipsets key get_ipset r s =
    answer_in-keeps s (check_auth r s) _ (λ _. found_or-keeps s _ _ _ _ refl (λ rec. refl))
vms-serve_ipsets key post_ipset r s =
    answer_in-keeps s _ _ (λ _. found_or-keeps s _ _ _ _ refl (λ rec. refl))
vms-serve_ipsets key delete_ipset r s =
    answer_in-keeps s (check_auth r s) _ (λ _. found_or-keeps s _ _ _ _ refl (λ rec. refl))
vms-serve_ipsets key delete_entry r s =
    answer_in-keeps s (check_auth r s) _ (λ _. found_or-keeps s _ _ _ _ refl (λ rec. refl))

-- Whatever request for the firewall is served, in whatever scope, every QEMU guest is as before.
pub vms-serve_firewall :
    (route : FirewallRoute) (r : Request) (s : State) → ((serve_firewall route r s).1).vms ≡ s.vms
unfolding serve_firewall
vms-serve_firewall (at_scope scope route) r s = vms-serve_rules (scope_key scope) route r s
vms-serve_firewall (at_sets scope route) r s = vms-serve_ipsets (set_scope_key scope) route r s
