-- ===== src/Mock/Ha/Routes.antt =====
-- The routes of proxmox/mockpve/ha.go, each served by its handler; none of them touches a guest.
use proxmox_go_sdk.Mock.Guests.{Same, SameData}
use proxmox_go_sdk.Base.{◌∙◌, Bool-cases, inl, inr, [], ◌∷◌, ℕ, Option, ◌≡◌, refl, List}
use proxmox_go_sdk.Base.Eq.{◌==◌, text_Eq}
use proxmox_go_sdk.Base.Text.{Text, text}
use proxmox_go_sdk.Mock.{Handler, State, Request, Form, refuse_if, found_or}
use proxmox_go_sdk.Mock.Server.{check_auth, parse_form}
use proxmox_go_sdk.Mock.Collection.{find_record, path_value, put_record}
use proxmox_go_sdk.Mock.Collection.Keeps.{
  handle_all-keeps, handle_one-keeps, handle_new-keeps, handle_change-keeps, handle_drop-keeps,
}
use proxmox_go_sdk.Mock.Checks.{bind-Grants, then-Grants, respond-keeps}
use proxmox_go_sdk.Mock.Ha.{
  set_crs, resources, rules, replications, handle_resource_list, handle_resource_create,
  handle_resource_get, handle_resource_update, handle_resource_delete, handle_rule_list,
  handle_rule_create, handle_rule_get, handle_rule_update, handle_rule_delete, handle_repl_list,
  handle_repl_create, handle_repl_get, handle_repl_update, handle_repl_delete,
}
use proxmox_go_sdk.Mock.Ha.Switch.{
  handle_status_current, handle_manager_status, handle_arm, handle_disarm, handle_resource_move,
}
use proxmox_go_sdk.Mock.Ha.Options.{
  handle_options_get, handle_options_set, store_option, store_options,
}

pub data HaRoute : Type 0 where
  get_ha_resources : HaRoute
  post_ha_resources : HaRoute
  get_ha_resource : HaRoute
  put_ha_resource : HaRoute
  delete_ha_resource : HaRoute
  get_ha_rules : HaRoute
  post_ha_rules : HaRoute
  get_ha_rule : HaRoute
  put_ha_rule : HaRoute
  delete_ha_rule : HaRoute
  get_options : HaRoute
  put_options : HaRoute
  get_ha_status : HaRoute
  get_manager_status : HaRoute
  post_arm : HaRoute
  post_disarm : HaRoute
  post_ha_migrate : HaRoute
  post_ha_relocate : HaRoute
  get_replications : HaRoute
  post_replications : HaRoute
  get_replication : HaRoute
  put_replication : HaRoute
  delete_replication : HaRoute

unfoldable pub serve_ha : (Text → Option ℕ) → HaRoute → Handler
serve_ha parse_float get_ha_resources = handle_resource_list
serve_ha parse_float post_ha_resources = handle_resource_create
serve_ha parse_float get_ha_resource = handle_resource_get
serve_ha parse_float put_ha_resource = handle_resource_update
serve_ha parse_float delete_ha_resource = handle_resource_delete
serve_ha parse_float get_ha_rules = handle_rule_list
serve_ha parse_float post_ha_rules = handle_rule_create
serve_ha parse_float get_ha_rule = handle_rule_get
serve_ha parse_float put_ha_rule = handle_rule_update
serve_ha parse_float delete_ha_rule = handle_rule_delete
serve_ha parse_float get_options = handle_options_get
serve_ha parse_float put_options = handle_options_set
serve_ha parse_float get_ha_status = handle_status_current
serve_ha parse_float get_manager_status = handle_manager_status
serve_ha parse_float post_arm = handle_arm
serve_ha parse_float post_disarm = handle_disarm
serve_ha parse_float post_ha_migrate = handle_resource_move
serve_ha parse_float post_ha_relocate = handle_resource_move
serve_ha parse_float get_replications = handle_repl_list
serve_ha parse_float post_replications = handle_repl_create parse_float
serve_ha parse_float get_replication = handle_repl_get
serve_ha parse_float put_replication = handle_repl_update parse_float
serve_ha parse_float delete_replication = handle_repl_delete

vms-store_option : (k : Text) (vs : List Text) (s : State) → Same s (store_option k vs s)
unfolding store_option set_crs
vms-store_option k [] s = refl
vms-store_option k (v ∷ vs) s = elim (Bool-cases (k == text "crs")) [
  | inl e ↦ rw e refl
  | inr e ↦ rw e refl
]

vms-store_options : (form : Form) (s : State) → Same s (store_options form s)
unfolding store_options
vms-store_options [] s = refl
vms-store_options ((k, vs) ∷ form) s =
    vms-store_options form (store_option k vs s) ∙ vms-store_option k vs s

vms-handle_resource_list : (r : Request) (s : State) → Same s ((handle_resource_list r s).1)
unfolding handle_resource_list
vms-handle_resource_list r s = handle_all-keeps resources (Same s) (λ m t e. e) r s refl _ _

vms-handle_resource_create : (r : Request) (s : State) → Same s ((handle_resource_create r s).1)
unfolding handle_resource_create
vms-handle_resource_create r s = handle_new-keeps resources (Same s) (λ m t e. e) r s refl _ _ _

vms-handle_resource_get : (r : Request) (s : State) → Same s ((handle_resource_get r s).1)
unfolding handle_resource_get
vms-handle_resource_get r s = handle_one-keeps resources (Same s) (λ m t e. e) r s refl _

vms-handle_resource_update : (r : Request) (s : State) → Same s ((handle_resource_update r s).1)
unfolding handle_resource_update
vms-handle_resource_update r s = handle_change-keeps resources (Same s) (λ m t e. e) r s refl _ _

vms-handle_resource_delete : (r : Request) (s : State) → Same s ((handle_resource_delete r s).1)
unfolding handle_resource_delete
vms-handle_resource_delete r s = handle_drop-keeps resources (Same s) (λ m t e. e) r s refl _

vms-handle_rule_list : (r : Request) (s : State) → Same s ((handle_rule_list r s).1)
unfolding handle_rule_list
vms-handle_rule_list r s = handle_all-keeps rules (Same s) (λ m t e. e) r s refl _ _

vms-handle_rule_create : (r : Request) (s : State) → Same s ((handle_rule_create r s).1)
unfolding handle_rule_create
vms-handle_rule_create r s = handle_new-keeps rules (Same s) (λ m t e. e) r s refl _ _ _

vms-handle_rule_get : (r : Request) (s : State) → Same s ((handle_rule_get r s).1)
unfolding handle_rule_get
vms-handle_rule_get r s = handle_one-keeps rules (Same s) (λ m t e. e) r s refl _

vms-handle_rule_update : (r : Request) (s : State) → Same s ((handle_rule_update r s).1)
unfolding handle_rule_update
vms-handle_rule_update r s = handle_change-keeps rules (Same s) (λ m t e. e) r s refl _ _

vms-handle_rule_delete : (r : Request) (s : State) → Same s ((handle_rule_delete r s).1)
unfolding handle_rule_delete
vms-handle_rule_delete r s = handle_drop-keeps rules (Same s) (λ m t e. e) r s refl _

vms-handle_options_get : (r : Request) (s : State) → Same s ((handle_options_get r s).1)
unfolding handle_options_get
vms-handle_options_get r s =
    respond-keeps (Same s) s _ refl (then-Grants (SameData s) (check_auth r s) _ (λ _. refl))

vms-handle_options_set : (r : Request) (s : State) → Same s ((handle_options_set r s).1)
unfolding handle_options_set
vms-handle_options_set r s = respond-keeps (Same s) s _ refl (
    then-Grants (SameData s) (check_auth r s) _
      (λ _. bind-Grants (SameData s) (parse_form r) _ (λ form _. vms-store_options form s)))

vms-handle_status_current : (r : Request) (s : State) → Same s ((handle_status_current r s).1)
unfolding handle_status_current
vms-handle_status_current r s =
    respond-keeps (Same s) s _ refl (then-Grants (SameData s) (check_auth r s) _ (λ _. refl))

vms-handle_manager_status : (r : Request) (s : State) → Same s ((handle_manager_status r s).1)
unfolding handle_manager_status
vms-handle_manager_status r s =
    respond-keeps (Same s) s _ refl (then-Grants (SameData s) (check_auth r s) _ (λ _. refl))

vms-handle_arm : (r : Request) (s : State) → Same s ((handle_arm r s).1)
unfolding handle_arm
vms-handle_arm r s =
    respond-keeps (Same s) s _ refl (then-Grants (SameData s) (check_auth r s) _ (λ _. refl))

vms-handle_disarm : (r : Request) (s : State) → Same s ((handle_disarm r s).1)
unfolding handle_disarm
vms-handle_disarm r s = respond-keeps (Same s) s _ refl (
    then-Grants (SameData s) (check_auth r s) _ (λ _.
      bind-Grants (SameData s) (parse_form r) _
        (λ form _. then-Grants (SameData s) (refuse_if _ _ _) _ (λ _. refl))))

vms-handle_resource_move : (r : Request) (s : State) → Same s ((handle_resource_move r s).1)
unfolding handle_resource_move put_record
vms-handle_resource_move r s = respond-keeps (Same s) s _ refl (
    then-Grants (SameData s) (check_auth r s) _ (λ _.
      bind-Grants (SameData s) (parse_form r) _ (λ form _.
        then-Grants (SameData s) (refuse_if _ _ _) _ (λ _.
          bind-Grants (SameData s)
            (found_or (find_record resources (path_value r (text "sid")) s) _ _) _
            (λ rec _. refl)))))

vms-handle_repl_list : (r : Request) (s : State) → Same s ((handle_repl_list r s).1)
unfolding handle_repl_list
vms-handle_repl_list r s = handle_all-keeps replications (Same s) (λ m t e. e) r s refl _ _

vms-handle_repl_create :
    (parse_float : Text → Option ℕ) (r : Request) (s : State)
    → Same s ((handle_repl_create parse_float r s).1)
unfolding handle_repl_create
vms-handle_repl_create parse_float r s =
    handle_new-keeps replications (Same s) (λ m t e. e) r s refl _ _ _

vms-handle_repl_get : (r : Request) (s : State) → Same s ((handle_repl_get r s).1)
unfolding handle_repl_get
vms-handle_repl_get r s = handle_one-keeps replications (Same s) (λ m t e. e) r s refl _

vms-handle_repl_update :
    (parse_float : Text → Option ℕ) (r : Request) (s : State)
    → Same s ((handle_repl_update parse_float r s).1)
unfolding handle_repl_update
vms-handle_repl_update parse_float r s =
    handle_change-keeps replications (Same s) (λ m t e. e) r s refl _ _

vms-handle_repl_delete : (r : Request) (s : State) → Same s ((handle_repl_delete r s).1)
unfolding handle_repl_delete
vms-handle_repl_delete r s = handle_drop-keeps replications (Same s) (λ m t e. e) r s refl _

-- Whatever request for high availability or the datacenter options is served, and whatever it answers,
-- every QEMU guest is as before.
pub vms-serve_ha :
    (parse_float : Text → Option ℕ) (route : HaRoute) (r : Request) (s : State)
    → ((serve_ha parse_float route r s).1).vms ≡ s.vms
unfolding serve_ha
vms-serve_ha parse_float get_ha_resources r s = vms-handle_resource_list r s
vms-serve_ha parse_float post_ha_resources r s = vms-handle_resource_create r s
vms-serve_ha parse_float get_ha_resource r s = vms-handle_resource_get r s
vms-serve_ha parse_float put_ha_resource r s = vms-handle_resource_update r s
vms-serve_ha parse_float delete_ha_resource r s = vms-handle_resource_delete r s
vms-serve_ha parse_float get_ha_rules r s = vms-handle_rule_list r s
vms-serve_ha parse_float post_ha_rules r s = vms-handle_rule_create r s
vms-serve_ha parse_float get_ha_rule r s = vms-handle_rule_get r s
vms-serve_ha parse_float put_ha_rule r s = vms-handle_rule_update r s
vms-serve_ha parse_float delete_ha_rule r s = vms-handle_rule_delete r s
vms-serve_ha parse_float get_options r s = vms-handle_options_get r s
vms-serve_ha parse_float put_options r s = vms-handle_options_set r s
vms-serve_ha parse_float get_ha_status r s = vms-handle_status_current r s
vms-serve_ha parse_float get_manager_status r s = vms-handle_manager_status r s
vms-serve_ha parse_float post_arm r s = vms-handle_arm r s
vms-serve_ha parse_float post_disarm r s = vms-handle_disarm r s
vms-serve_ha parse_float post_ha_migrate r s = vms-handle_resource_move r s
vms-serve_ha parse_float post_ha_relocate r s = vms-handle_resource_move r s
vms-serve_ha parse_float get_replications r s = vms-handle_repl_list r s
vms-serve_ha parse_float post_replications r s = vms-handle_repl_create parse_float r s
vms-serve_ha parse_float get_replication r s = vms-handle_repl_get r s
vms-serve_ha parse_float put_replication r s = vms-handle_repl_update parse_float r s
vms-serve_ha parse_float delete_replication r s = vms-handle_repl_delete r s
