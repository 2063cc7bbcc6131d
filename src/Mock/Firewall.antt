-- ===== src/Mock/Firewall.antt =====
-- The firewall's rules and options, in each of its scopes: proxmox/mockpve/firewall.go.
pub mod Ipsets
pub mod Routes
pub mod Renamed
mod Tests
use proxmox_go_sdk.Base.{
  zero, suc, ℕ, Bool, true, false, Option, none, some, List, [], ◌∷◌, ◌++◌, if◌then◌else◌, map, suc,
}
use proxmox_go_sdk.Base.{get_elem?}
use proxmox_go_sdk.Base.Eq.{◌==◌, text_Eq}
use proxmox_go_sdk.Base.Map.{Map, lookup, insert}
use proxmox_go_sdk.Base.Text.{Text, text}
use proxmox_go_sdk.Base.Number.{ℤ, pos, negsuc, atoi}
use proxmox_go_sdk.Mock.{
  State, Request, Response, error_of, Handler, Checked, passed, refused, ◌>>=◌, ◌>>◌, found_or,
  respond, Form, form_get, fw_rule, fw_rules, strings, null,
}
use proxmox_go_sdk.Mock.FirewallRecords.{FwRuleRecord, FwScope, FwRulePayload}
use proxmox_go_sdk.Mock.Server.{check_auth, parse_form}
use proxmox_go_sdk.Mock.Ha.{flag}
use proxmox_go_sdk.Mock.Collection.{path_value, text_or, flag_or}

-- the rest of a handler, once a check has passed; its state is its own
unfoldable pub answer_in {ℓ} :
    {A : Type ℓ} → State → Checked A → (A → Response × State) → Response × State
answer_in s (refused code message) next = (error_of code message, s)
answer_in s (passed found) next = next found

abbrev pub empty_scope : FwScope
empty_scope = record { rules = []; ipsets = []; options = [] }

abbrev pub or_empty_scope : Option FwScope → FwScope
or_empty_scope none = empty_scope
or_empty_scope (some sc) = sc

unfoldable pub put_scope : Text → FwScope → State → State
put_scope key sc s = record s { firewall = insert key sc s.firewall }

-- `fwScopeLocked`: the scope, and the state in which it is stored from then on
unfoldable pub scope_of : Text → State → FwScope
scope_of key s = or_empty_scope (lookup key s.firewall)

unfoldable pub open_scope : Text → State → State
open_scope key s = put_scope key (scope_of key s) s

-- `fwScopeKeyFunc`
abbrev pub ScopeKey : Type 0
ScopeKey = Request → Text

unfoldable pub rule_payload : ℕ → FwRuleRecord → FwRulePayload
rule_payload i rec = record {
  pos = i;
  kind = rec.kind;
  action = rec.action;
  enable = flag rec.enable;
  macro = rec.macro;
  proto = rec.proto;
  source = rec.source;
  dest = rec.dest;
  sport = rec.sport;
  dport = rec.dport;
  iface = rec.iface;
  log = rec.log;
  comment = rec.comment;
}

-- the rules from a position on
unfoldable pub rule_payloads : ℕ → List FwRuleRecord → List FwRulePayload
rule_payloads i [] = []
rule_payloads i (rec ∷ rules) = rule_payload i rec ∷ rule_payloads (suc i) rules

abbrev pub not_negative : Option ℤ → Option ℕ
not_negative (some (pos n)) = some n
not_negative _ = none

unfoldable pub parse_pos : Request → Option ℕ
parse_pos r = not_negative (atoi (path_value r (text "pos")))

-- the rule at a position that parses and is in range
abbrev pub rule_at : Option ℕ → List FwRuleRecord → Option (ℕ × FwRuleRecord)
rule_at none rules = none
rule_at (some i) rules = elim (get_elem? rules i) [ none ↦ none | some rec ↦ some (i, rec) ]

unfoldable pub rule_from_form : Form → FwRuleRecord
rule_from_form form = record {
  kind = form_get form (text "type");
  action = form_get form (text "action");
  enable = form_get form (text "enable") == text "1";
  macro = form_get form (text "macro");
  proto = form_get form (text "proto");
  source = form_get form (text "source");
  dest = form_get form (text "dest");
  sport = form_get form (text "sport");
  dport = form_get form (text "dport");
  iface = form_get form (text "iface");
  log = form_get form (text "log");
  comment = form_get form (text "comment");
}

unfoldable pub apply_fw_rule_form : Form → FwRuleRecord → FwRuleRecord
apply_fw_rule_form form rec = record {
  kind = text_or rec.kind form (text "type");
  action = text_or rec.action form (text "action");
  enable = flag_or rec.enable form (text "enable");
  macro = text_or rec.macro form (text "macro");
  proto = text_or rec.proto form (text "proto");
  source = text_or rec.source form (text "source");
  dest = text_or rec.dest form (text "dest");
  sport = text_or rec.sport form (text "sport");
  dport = text_or rec.dport form (text "dport");
  iface = text_or rec.iface form (text "iface");
  log = text_or rec.log form (text "log");
  comment = text_or rec.comment form (text "comment");
}

-- `sc.rules[pos]` written
unfoldable pub replace_at {ℓ} : {A : Type ℓ} → ℕ → A → List A → List A
replace_at i y [] = []
replace_at zero y (x ∷ xs) = y ∷ xs
replace_at (suc i) y (x ∷ xs) = x ∷ replace_at i y xs

-- `append(sc.rules[:pos], sc.rules[pos+1:]...)`
unfoldable pub remove_at {ℓ} : {A : Type ℓ} → ℕ → List A → List A
remove_at i [] = []
remove_at zero (x ∷ xs) = xs
remove_at (suc i) (x ∷ xs) = x ∷ remove_at i xs

unfoldable pub set_rules : List FwRuleRecord → Text → State → State
set_rules rules key s = put_scope key (record (scope_of key s) { rules = rules }) s

unfoldable pub handle_fw_rule_list : ScopeKey → Handler
handle_fw_rule_list key r s = answer_in s (check_auth r s) (λ _.
    let t = open_scope (key r) s in
    respond t (passed (fw_rules (rule_payloads 0 (scope_of (key r) t).rules), t)))

unfoldable pub handle_fw_rule_create : ScopeKey → Handler
handle_fw_rule_create key r s =
    answer_in s (do check_auth r s; parse_form r)
      (λ form.
        let t = open_scope (key r) s in
        respond t (
          passed
            (null, set_rules ((scope_of (key r) t).rules ++ rule_from_form form ∷ []) (key r) t)))

unfoldable pub handle_fw_rule_get : ScopeKey → Handler
handle_fw_rule_get key r s = answer_in s (check_auth r s) (λ _.
    let t = open_scope (key r) s in
    respond t (do
      at ←
          found_or (rule_at (parse_pos r) (scope_of (key r) t).rules) 404
            (text "no such firewall rule")
      passed (fw_rule (rule_payload at.0 at.1), t)))

unfoldable pub handle_fw_rule_update : ScopeKey → Handler
handle_fw_rule_update key r s =
    answer_in s (do check_auth r s; parse_form r)
      (λ form.
        let t = open_scope (key r) s in
        respond t (do
          at ←
              found_or (rule_at (parse_pos r) (scope_of (key r) t).rules) 404
                (text "no such firewall rule")
          passed (
            null,
            set_rules (replace_at at.0 (apply_fw_rule_form form at.1) (scope_of (key r) t).rules)
                (key r) t,
          )))

unfoldable pub handle_fw_rule_delete : ScopeKey → Handler
handle_fw_rule_delete key r s = answer_in s (check_auth r s) (λ _.
    let t = open_scope (key r) s in
    respond t (do
      at ←
          found_or (rule_at (parse_pos r) (scope_of (key r) t).rules) 404
            (text "no such firewall rule")
      passed (null, set_rules (remove_at at.0 (scope_of (key r) t).rules) (key r) t)))

unfoldable pub handle_fw_options_get : ScopeKey → Handler
handle_fw_options_get key r s = answer_in s (check_auth r s) (λ _.
    let t = open_scope (key r) s in respond t (passed (strings (scope_of (key r) t).options, t)))

-- the first value of each key that has one
unfoldable pub set_options : Form → Map Text Text → Map Text Text
set_options [] options = options
set_options ((k, []) ∷ form) options = set_options form options
set_options ((k, v ∷ vs) ∷ form) options = set_options form (insert k v options)

unfoldable pub handle_fw_options_set : ScopeKey → Handler
handle_fw_options_set key r s =
    answer_in s (do check_auth r s; parse_form r)
      (λ form.
        let t = open_scope (key r) s in
        respond t (
          passed (
            null,
            put_scope (key r)
                (record (scope_of (key r) t) {
                  options = set_options form (scope_of (key r) t).options;
                })
                t,
          )))
