-- ===== src/Mock/Sdn/FabricNodes.antt =====
-- The members of a fabric: proxmox/mockpve/sdn.go.
use proxmox_go_sdk.Base.{Bool, not, Option, none, some, List, [], ◌∷◌, is_some, map}
use proxmox_go_sdk.Base.Eq.{text_Eq}
use proxmox_go_sdk.Base.Map.{lookup, insert}
use proxmox_go_sdk.Base.Text.{Text, text, is_empty}
use proxmox_go_sdk.Mock.{
  State, Handler, passed, ◌>>=◌, ◌>>◌, refuse_if, respond, null, Form, form_get, fabric_node,
  fabric_nodes,
}
use proxmox_go_sdk.Mock.SdnRecords.{FabricNodeRecord, FabricNodePayload}
use proxmox_go_sdk.Mock.Store.{or_empty_map}
use proxmox_go_sdk.Mock.Server.{check_auth, parse_form}
use proxmox_go_sdk.Mock.Collection.{
  Collection, path_value, text_or, find_record, put_record, handle_one, handle_change, handle_drop,
}
use proxmox_go_sdk.Mock.Sdn.{fabric_records, or_empty_map-insert}

unfoldable pub fabric_node_payload : FabricNodeRecord → FabricNodePayload
fabric_node_payload rec = record {
  node_id = rec.node_id;
  fabric = rec.fabric;
  protocol = rec.protocol;
  ip = rec.ip;
  ip6 = rec.ip6;
}

abbrev pub member_records : Text → Collection FabricNodeRecord
member_records f = record {
  entries = λ s. or_empty_map (lookup f s.sdn.fabric_nodes);
  set_entries =
      λ m s. record s { sdn = record s.sdn { fabric_nodes = insert f m s.sdn.fabric_nodes } };
  missing = text "no such sdn fabric node";
  payload = λ rec. fabric_node (fabric_node_payload rec);
  entries_set = λ m s. or_empty_map-insert f m s.sdn.fabric_nodes;
}

abbrev pub has_fabric : Text → State → Bool
has_fabric f s = is_some (find_record fabric_records f s)

-- the fabric's protocol, if it is known
unfoldable pub fabric_protocol : Text → State → Text
fabric_protocol f s = elim (find_record fabric_records f s) [ none ↦ [] | some rec ↦ rec.protocol ]

unfoldable pub add_fabric_node : Text → Text → State → State
add_fabric_node f node s =
    put_record (member_records f) node
      (record {
        node_id = node;
        fabric = f;
        protocol = fabric_protocol f s;
        ip = [];
        ip6 = [];
        interfaces = [];
      })
      s

unfoldable pub handle_member_list : Handler
handle_member_list r s = respond s (do
  check_auth r s
  refuse_if (not (has_fabric (path_value r (text "fabric")) s)) 404 (text "no such sdn fabric")
  passed (
    fabric_nodes (
        map (λ e. fabric_node_payload e.1)
          (or_empty_map (lookup (path_value r (text "fabric")) s.sdn.fabric_nodes))),
    s,
  ))

unfoldable pub handle_member_get : Handler
handle_member_get r = handle_one (member_records (path_value r (text "fabric"))) r.node r

-- `PostForm[key]`
abbrev pub all_values : Option (List Text) → List Text
all_values none = []
all_values (some vs) = vs

unfoldable pub new_member : Text → Form → Text → FabricNodeRecord
new_member f form node = record {
  node_id = node;
  fabric = f;
  protocol = form_get form (text "protocol");
  ip = form_get form (text "ip");
  ip6 = form_get form (text "ip6");
  interfaces = all_values (lookup (text "interfaces") form);
}

unfoldable pub handle_member_create : Handler
handle_member_create r s = respond s (do
  check_auth r s
  form ← parse_form r
  refuse_if (is_empty (form_get form (text "node_id"))) 400 (text "missing node_id")
  refuse_if (not (has_fabric (path_value r (text "fabric")) s)) 404 (text "no such sdn fabric")
  passed (
    null,
    put_record (member_records (path_value r (text "fabric"))) (form_get form (text "node_id"))
        (new_member (path_value r (text "fabric")) form (form_get form (text "node_id"))) s,
  ))

-- `if v := form[key]; len(v) > 0`
abbrev pub values_or : List Text → Option (List Text) → List Text
values_or old (some (v ∷ vs)) = v ∷ vs
values_or old _ = old

unfoldable pub apply_member_form : Form → FabricNodeRecord → FabricNodeRecord
apply_member_form form rec = record rec {
  ip = text_or rec.ip form (text "ip");
  ip6 = text_or rec.ip6 form (text "ip6");
  interfaces = values_or rec.interfaces (lookup (text "interfaces") form);
}

unfoldable pub handle_member_update : Handler
handle_member_update r =
    handle_change (member_records (path_value r (text "fabric"))) r.node apply_member_form r

unfoldable pub handle_member_delete : Handler
handle_member_delete r = handle_drop (member_records (path_value r (text "fabric"))) r.node r
