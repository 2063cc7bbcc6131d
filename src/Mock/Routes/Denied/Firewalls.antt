-- ===== src/Mock/Routes/Denied/Firewalls.antt =====
-- Requests that are not let in: the handlers of proxmox/mockpve/firewall.go.
use proxmox_go_sdk.Base.{◌≡◌, false}
use proxmox_go_sdk.Mock.{Request, State, error_of}
use proxmox_go_sdk.Mock.Server.{is_authorized, authentication_failure}
use proxmox_go_sdk.Mock.Routes.Denied.{denied_in, denied_then}
use proxmox_go_sdk.Mock.Firewall.{
  ScopeKey, handle_fw_rule_list, handle_fw_rule_create, handle_fw_rule_get, handle_fw_rule_update,
  handle_fw_rule_delete, handle_fw_options_get, handle_fw_options_set,
}
use proxmox_go_sdk.Mock.Firewall.Ipsets.{
  handle_ipset_list, handle_ipset_create, handle_entry_list, handle_entry_add, handle_ipset_delete,
  handle_entry_delete, named_form, cidr_form,
}
use proxmox_go_sdk.Mock.Firewall.Routes.{
  FwRuleRoute, FwSetRoute, FirewallRoute, at_scope, at_sets, serve_rules, serve_ipsets,
  serve_firewall, scope_key, set_scope_key, get_rules, post_rules, get_rule, put_rule, delete_rule,
  get_options, put_options, get_ipsets, post_ipsets, get_ipset, post_ipset, delete_ipset,
  delete_entry,
}

serve_rules_refused :
    (key : ScopeKey) (route : FwRuleRoute) (r : Request) (s : State)
    → is_authorized r s ≡ false
    → serve_rules key route r s ≡ (error_of 401 authentication_failure, s)
unfolding serve_rules handle_fw_rule_list handle_fw_rule_create handle_fw_rule_get
    handle_fw_rule_update handle_fw_rule_delete handle_fw_options_get handle_fw_options_set
serve_rules_refused key get_rules r s h = denied_in r s _ h
serve_rules_refused key post_rules r s h = denied_then r s _ _ h
serve_rules_refused key get_rule r s h = denied_in r s _ h
serve_rules_refused key put_rule r s h = denied_then r s _ _ h
serve_rules_refused key delete_rule r s h = denied_in r s _ h
serve_rules_refused key get_options r s h = denied_in r s _ h
serve_rules_refused key put_options r s h = denied_then r s _ _ h

serve_ipsets_refused :
    (key : ScopeKey) (route : FwSetRoute) (r : Request) (s : State)
    → is_authorized r s ≡ false
    → serve_ipsets key route r s ≡ (error_of 401 authentication_failure, s)
unfolding serve_ipsets handle_ipset_list handle_ipset_create handle_entry_list handle_entry_add
    handle_ipset_delete handle_entry_delete named_form cidr_form
serve_ipsets_refused key get_ipsets r s h = denied_in r s _ h
serve_ipsets_refused key post_ipsets r s h = denied_then r s _ _ h
serve_ipsets_refused key get_ipset r s h = denied_in r s _ h
serve_ipsets_refused key post_ipset r s h = denied_then r s _ _ h
serve_ipsets_refused key delete_ipset r s h = denied_in r s _ h
serve_ipsets_refused key delete_entry r s h = denied_in r s _ h

pub serve_firewall_refused :
    (route : FirewallRoute) (r : Request) (s : State)
    → is_authorized r s ≡ false
    → serve_firewall route r s ≡ (error_of 401 authentication_failure, s)
unfolding serve_firewall
serve_firewall_refused (at_scope scope route) r s h =
    serve_rules_refused (scope_key scope) route r s h
serve_firewall_refused (at_sets scope route) r s h =
    serve_ipsets_refused (set_scope_key scope) route r s h
