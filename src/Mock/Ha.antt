-- ===== src/Mock/Ha.antt =====
-- High availability: proxmox/mockpve/ha.go. `strconv.ParseFloat` is a parameter.
pub mod Switch
pub mod Options
pub mod Routes
pub mod Settings
mod Tests
use proxmox_go_sdk.Base.{
  ◌≡◌, refl, ℕ, Bool, true, false, ◌||◌, ◌&&◌, not, Option, none, some, List, [], ◌∷◌, ◌++◌,
  if◌then◌else◌, map,
}
use proxmox_go_sdk.Base.Eq.{◌==◌, text_Eq}
use proxmox_go_sdk.Base.Map.{Map, lookup, insert}
use proxmox_go_sdk.Base.Text.{Text, text, is_empty, cut, colon}
use proxmox_go_sdk.Base.Number.{ℤ, pos}
use proxmox_go_sdk.Mock.{
  State, Request, Handler, Checked, passed, ◌>>=◌, ◌>>◌, refuse_if, found_or, respond, null, Form,
  form_get, ha_resource, ha_resources, ha_rule, ha_rules, ha_repl, ha_repls, ha_status, ha_manager,
  strings,
}
use proxmox_go_sdk.Mock.HaRecords.{
  HaReplRecord, HaRuleRecord, HaResourceRecord, HaResourcePayload, HaRulePayload, HaReplPayload,
  HaStatusPayload, ServiceStatus, ManagerStatus,
}
use proxmox_go_sdk.Mock.Server.{check_auth, parse_form}
use proxmox_go_sdk.Mock.Collection.{
  Collection, path_value, text_or, int_or, flag_or, find_record, put_record, handle_all, handle_one,
  handle_new, handle_change, handle_drop,
}

-- what stands before the first colon, if that is not the first byte
unfoldable pub sid_type : Text → Text
sid_type sid = elim (cut colon sid) [ none ↦ [] | some p ↦ p.0 ]

abbrev pub flag : Bool → ℕ
flag b = if b then 1 else 0

unfoldable pub resource_payload : HaResourceRecord → HaResourcePayload
resource_payload rec = record {
  sid = rec.sid;
  kind = rec.kind;
  state = rec.state;
  max_restart = rec.max_restart;
  max_relocate = rec.max_relocate;
  comment = rec.comment;
}

unfoldable pub rule_payload : HaRuleRecord → HaRulePayload
rule_payload rec = record {
  rule = rec.rule;
  kind = rec.kind;
  nodes = rec.nodes;
  resources = rec.resources;
  affinity = rec.affinity;
  disable = flag rec.disable;
  comment = rec.comment;
}

unfoldable pub repl_payload : HaReplRecord → HaReplPayload
repl_payload rec = record {
  id = rec.id;
  kind = rec.kind;
  target = rec.target;
  schedule = rec.schedule;
  rate = rec.rate;
  disable = flag rec.disable;
  comment = rec.comment;
}

abbrev pub resources : Collection HaResourceRecord
resources = record {
  entries = λ s. s.ha.resources;
  set_entries = λ m s. record s { ha = record s.ha { resources = m } };
  missing = text "no such ha resource";
  payload = λ rec. ha_resource (resource_payload rec);
  entries_set = λ m s. refl;
}

abbrev pub rules : Collection HaRuleRecord
rules = record {
  entries = λ s. s.ha.rules;
  set_entries = λ m s. record s { ha = record s.ha { rules = m } };
  missing = text "no such ha rule";
  payload = λ rec. ha_rule (rule_payload rec);
  entries_set = λ m s. refl;
}

abbrev pub replications : Collection HaReplRecord
replications = record {
  entries = λ s. s.ha.repl;
  set_entries = λ m s. record s { ha = record s.ha { repl = m } };
  missing = text "no such replication job";
  payload = λ rec. ha_repl (repl_payload rec);
  entries_set = λ m s. refl;
}

abbrev pub seeded_resource : Text → Text → HaResourceRecord
seeded_resource sid state = record {
  sid = sid;
  kind = sid_type sid;
  state = state;
  node = [];
  max_restart = pos 0;
  max_relocate = pos 0;
  comment = [];
}

unfoldable pub add_ha_resource : Text → Text → State → State
add_ha_resource sid state = put_record resources sid (seeded_resource sid state)

unfoldable pub add_ha_rule : Text → Text → State → State
add_ha_rule rule kind = put_record rules rule (record {
  rule = rule;
  kind = kind;
  nodes = [];
  resources = [];
  affinity = [];
  disable = false;
  comment = [];
})

unfoldable pub set_crs : Text → State → State
set_crs crs s = record s { ha = record s.ha { crs = crs } }

unfoldable pub add_replication_job : Text → Text → Text → State → State
add_replication_job id target schedule = put_record replications id (record {
  id = id;
  kind = text "local";
  target = target;
  schedule = schedule;
  rate = 0;
  disable = false;
  comment = [];
})

abbrev pub or_else : Text → Text → Text
or_else value default = if is_empty value then default else value

-- `float_or old form key` is the parsed number, or `old` where the text is none
module _ (parse_float : Text → Option ℕ) where
  unfoldable pub float_or : ℕ → Form → Text → ℕ
  float_or old form key = elim (parse_float (form_get form key)) [ none ↦ old | some v ↦ v ]

  unfoldable pub new_repl : Form → Text → HaReplRecord
  new_repl form id = record {
    id = id;
    kind = or_else (form_get form (text "type")) (text "local");
    target = form_get form (text "target");
    schedule = form_get form (text "schedule");
    rate = float_or 0 form (text "rate");
    disable = false;
    comment = form_get form (text "comment");
  }

  unfoldable pub apply_repl_form : Form → HaReplRecord → HaReplRecord
  apply_repl_form form rec = record rec {
    target = text_or rec.target form (text "target");
    schedule = text_or rec.schedule form (text "schedule");
    comment = text_or rec.comment form (text "comment");
    disable = flag_or rec.disable form (text "disable");
    rate = float_or rec.rate form (text "rate");
  }

  unfoldable pub handle_repl_create : Handler
  handle_repl_create = handle_new replications (text "id") (text "missing id") new_repl

  unfoldable pub handle_repl_update : Handler
  handle_repl_update r = handle_change replications (path_value r (text "id")) apply_repl_form r

unfoldable pub handle_repl_list : Handler
handle_repl_list = handle_all replications repl_payload ha_repls

unfoldable pub handle_repl_get : Handler
handle_repl_get r = handle_one replications (path_value r (text "id")) r

unfoldable pub handle_repl_delete : Handler
handle_repl_delete r = handle_drop replications (path_value r (text "id")) r

unfoldable pub new_resource : Form → Text → HaResourceRecord
new_resource form sid = record {
  sid = sid;
  kind = sid_type sid;
  state = or_else (form_get form (text "state")) (text "started");
  node = [];
  max_restart = int_or (pos 0) form (text "max_restart");
  max_relocate = int_or (pos 0) form (text "max_relocate");
  comment = form_get form (text "comment");
}

unfoldable pub apply_resource_form : Form → HaResourceRecord → HaResourceRecord
apply_resource_form form rec = record rec {
  state = text_or rec.state form (text "state");
  comment = text_or rec.comment form (text "comment");
  max_restart = int_or rec.max_restart form (text "max_restart");
  max_relocate = int_or rec.max_relocate form (text "max_relocate");
}

unfoldable pub handle_resource_list : Handler
handle_resource_list = handle_all resources resource_payload ha_resources

unfoldable pub handle_resource_get : Handler
handle_resource_get r = handle_one resources (path_value r (text "sid")) r

unfoldable pub handle_resource_create : Handler
handle_resource_create = handle_new resources (text "sid") (text "missing sid") new_resource

unfoldable pub handle_resource_update : Handler
handle_resource_update r = handle_change resources (path_value r (text "sid")) apply_resource_form r

unfoldable pub handle_resource_delete : Handler
handle_resource_delete r = handle_drop resources (path_value r (text "sid")) r

unfoldable pub new_rule : Form → Text → HaRuleRecord
new_rule form rule = record {
  rule = rule;
  kind = form_get form (text "type");
  nodes = form_get form (text "nodes");
  resources = form_get form (text "resources");
  affinity = form_get form (text "affinity");
  disable = form_get form (text "disable") == text "1";
  comment = form_get form (text "comment");
}

unfoldable pub apply_rule_form : Form → HaRuleRecord → HaRuleRecord
apply_rule_form form rec = record rec {
  nodes = text_or rec.nodes form (text "nodes");
  resources = text_or rec.resources form (text "resources");
  affinity = text_or rec.affinity form (text "affinity");
  comment = text_or rec.comment form (text "comment");
  disable = flag_or rec.disable form (text "disable");
}

unfoldable pub handle_rule_list : Handler
handle_rule_list = handle_all rules rule_payload ha_rules

unfoldable pub handle_rule_get : Handler
handle_rule_get r = handle_one rules (path_value r (text "rule")) r

unfoldable pub handle_rule_create : Handler
handle_rule_create = handle_new rules (text "rule") (text "missing rule") new_rule

unfoldable pub handle_rule_update : Handler
handle_rule_update r = handle_change rules (path_value r (text "rule")) apply_rule_form r

unfoldable pub handle_rule_delete : Handler
handle_rule_delete r = handle_drop rules (path_value r (text "rule")) r
