-- ===== src/Mock/Ha/Tests.antt =====
-- A cluster with one resource, its options, and the switch.
use proxmox_go_sdk.Base.{◌≡◌, refl, some, none, [], ◌∷◌, List}
use proxmox_go_sdk.Base.Eq.{text_Eq, text_eq}
use proxmox_go_sdk.Base.Map.{lookup}
use proxmox_go_sdk.Base.Text.{text, cut_prefix, contains_text}
use proxmox_go_sdk.Mock.{Request, Form}
use proxmox_go_sdk.Mock.Store.{new}
use proxmox_go_sdk.Mock.Server.{has_token}
use proxmox_go_sdk.Mock.Collection.Refines.{Op, create, get, delete, run, replay, view, run_refines}
use proxmox_go_sdk.Mock.Ha.{rules, new_rule, apply_rule_form}
use proxmox_go_sdk.Mock.Ha.Options.{merged_options, store_options}
use proxmox_go_sdk.Mock.Ha.Settings.{lookup-store_options}

abbrev request : Request
request = record {
  authorization = text "PVEAPIToken=root@pam!ci=x";
  cookie = none;
  node = text "pve";
  vmid = [];
  snap = [];
  upid = [];
  storage = [];
  path = [];
  query = [];
  form = none;
  clock = 255;
}

abbrev rule_form : Form
rule_form = (text "rule", text "keep" ∷ []) ∷ (text "nodes", text "pve" ∷ []) ∷ []

abbrev calls : List (Op × Request)
calls =
    (create, record request { form = some rule_form })
    ∷ (get (text "keep"), request)
    ∷ (delete (text "keep"), request)
    ∷ (get (text "keep"), request)
    ∷ []

run_refines_example :
    ((run rules (text "rule") (text "missing rule") new_rule apply_rule_form calls new).0
      ≡ (replay rules
          (text "rule")
          (text "missing rule")
          new_rule
          apply_rule_form
          calls
          (view rules new)).0)
    × (view rules
          (run rules (text "rule") (text "missing rule") new_rule apply_rule_form calls new).1
        ≡ (replay rules
            (text "rule")
            (text "missing rule")
            new_rule
            apply_rule_form
            calls
            (view rules new)).1)
unfolding has_token cut_prefix contains_text
run_refines_example =
    run_refines rules (text "rule") (text "missing rule") new_rule apply_rule_form calls new
      (refl, (refl, (refl, (refl, tt))))

abbrev options_form : Form
options_form =
    (text "crs", text "ha=static" ∷ []) ∷ (text "keyboard", text "de" ∷ text "en" ∷ []) ∷ []

lookup-store_options_example :
    lookup (text "keyboard") (merged_options (store_options options_form new)) ≡ some (text "de")
unfolding lookup text_eq
lookup-store_options_example =
    lookup-store_options (text "keyboard") options_form new (refl, (refl, tt)) refl
