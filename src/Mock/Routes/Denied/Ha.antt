-- ===== src/Mock/Routes/Denied/Ha.antt =====
-- Requests that are not let in: the handlers of proxmox/mockpve/ha.go.
use proxmox_go_sdk.Base.{ℕ, Option, ◌≡◌, false}
use proxmox_go_sdk.Base.Text.{Text}
use proxmox_go_sdk.Mock.{Request, State, error_of}
use proxmox_go_sdk.Mock.Server.{is_authorized, authentication_failure}
use proxmox_go_sdk.Mock.Routes.Denied.{denied}
use proxmox_go_sdk.Mock.Ha.Routes.{
  HaRoute, serve_ha, get_ha_resources, post_ha_resources, get_ha_resource, put_ha_resource,
  delete_ha_resource, get_ha_rules, post_ha_rules, get_ha_rule, put_ha_rule, delete_ha_rule,
  get_options, put_options, get_ha_status, get_manager_status, post_arm, post_disarm,
  post_ha_migrate, post_ha_relocate, get_replications, post_replications, get_replication,
  put_replication, delete_replication,
}
use proxmox_go_sdk.Mock.Ha.{
  handle_resource_list, handle_resource_create, handle_resource_get, handle_resource_update,
  handle_resource_delete, handle_rule_list, handle_rule_create, handle_rule_get, handle_rule_update,
  handle_rule_delete, handle_repl_list, handle_repl_create, handle_repl_get, handle_repl_update,
  handle_repl_delete,
}
use proxmox_go_sdk.Mock.Ha.Options.{handle_options_get, handle_options_set}
use proxmox_go_sdk.Mock.Ha.Switch.{
  handle_status_current, handle_manager_status, handle_arm, handle_disarm, handle_resource_move,
}
use proxmox_go_sdk.Mock.{respond}
use proxmox_go_sdk.Mock.Collection.{handle_all}
use proxmox_go_sdk.Mock.Collection.{handle_new}
use proxmox_go_sdk.Mock.Collection.{handle_one}
use proxmox_go_sdk.Mock.Collection.{handle_change}
use proxmox_go_sdk.Mock.Collection.{handle_drop}

pub serve_ha_refused :
    (parse_float : Text → Option ℕ) (route : HaRoute) (r : Request) (s : State)
    → is_authorized r s ≡ false
    → serve_ha parse_float route r s ≡ (error_of 401 authentication_failure, s)
unfolding serve_ha handle_resource_list handle_resource_create handle_resource_get
    handle_resource_update handle_resource_delete handle_rule_list handle_rule_create
    handle_rule_get handle_rule_update handle_rule_delete handle_options_get handle_options_set
    handle_status_current handle_manager_status handle_arm handle_disarm handle_resource_move
    handle_repl_list handle_repl_create handle_repl_get handle_repl_update handle_repl_delete
    respond handle_all handle_new handle_one handle_change handle_drop
serve_ha_refused parse_float get_ha_resources r s h = denied r s _ h
serve_ha_refused parse_float post_ha_resources r s h = denied r s _ h
serve_ha_refused parse_float get_ha_resource r s h = denied r s _ h
serve_ha_refused parse_float put_ha_resource r s h = denied r s _ h
serve_ha_refused parse_float delete_ha_resource r s h = denied r s _ h
serve_ha_refused parse_float get_ha_rules r s h = denied r s _ h
serve_ha_refused parse_float post_ha_rules r s h = denied r s _ h
serve_ha_refused parse_float get_ha_rule r s h = denied r s _ h
serve_ha_refused parse_float put_ha_rule r s h = denied r s _ h
serve_ha_refused parse_float delete_ha_rule r s h = denied r s _ h
serve_ha_refused parse_float get_options r s h = denied r s _ h
serve_ha_refused parse_float put_options r s h = denied r s _ h
serve_ha_refused parse_float get_ha_status r s h = denied r s _ h
serve_ha_refused parse_float get_manager_status r s h = denied r s _ h
serve_ha_refused parse_float post_arm r s h = denied r s _ h
serve_ha_refused parse_float post_disarm r s h = denied r s _ h
serve_ha_refused parse_float post_ha_migrate r s h = denied r s _ h
serve_ha_refused parse_float post_ha_relocate r s h = denied r s _ h
serve_ha_refused parse_float get_replications r s h = denied r s _ h
serve_ha_refused parse_float post_replications r s h = denied r s _ h
serve_ha_refused parse_float get_replication r s h = denied r s _ h
serve_ha_refused parse_float put_replication r s h = denied r s _ h
serve_ha_refused parse_float delete_replication r s h = denied r s _ h
