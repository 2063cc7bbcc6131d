-- ===== src/Mock/Ha/Switch.antt =====
-- The cluster-wide switch, the placement of resources and the live status: proxmox/mockpve/ha.go.
use proxmox_go_sdk.Base.{ℕ, true, false, ◌&&◌, not, List, [], ◌∷◌, ◌++◌, if◌then◌else◌, map}
use proxmox_go_sdk.Base.Eq.{◌==◌, text_Eq}
use proxmox_go_sdk.Base.Map.{Map, insert}
use proxmox_go_sdk.Base.Text.{Text, text, is_empty}
use proxmox_go_sdk.Base.Number.{pos}
use proxmox_go_sdk.Mock.{
  State, Handler, passed, ◌>>=◌, ◌>>◌, refuse_if, found_or, respond, null, form_get, ha_status,
  ha_manager, strings,
}
use proxmox_go_sdk.Mock.HaRecords.{HaResourceRecord, HaStatusPayload, ServiceStatus}
use proxmox_go_sdk.Mock.Server.{check_auth, parse_form}
use proxmox_go_sdk.Mock.Collection.{path_value, find_record, put_record}
use proxmox_go_sdk.Mock.Ha.{resources, or_else}

abbrev pub default_node : Text
default_node = text "pve"

abbrev pub mock_timestamp : ℕ
mock_timestamp = 1752000000

unfoldable pub armed_state : State → Text
armed_state s = if s.ha.armed then text "armed" else text "disarmed"

-- a row with its other columns empty
abbrev pub plain_row : Text → Text → HaStatusPayload
plain_row id status = record {
  id = id;
  kind = id;
  sid = [];
  node = default_node;
  state = [];
  status = status;
  request_state = [];
  quorate = 0;
  armed_state = [];
  resource_mode = [];
  max_restart = pos 0;
  max_relocate = pos 0;
  timestamp = 0;
  comment = [];
}

unfoldable pub service_row : State → HaResourceRecord → HaStatusPayload
service_row s rec = record {
  id = text "service:" ++ rec.sid;
  kind = text "service";
  sid = rec.sid;
  node = or_else rec.node default_node;
  state = rec.state;
  status = rec.state;
  request_state = rec.state;
  quorate = 0;
  armed_state = [];
  resource_mode = s.ha.resource_mode;
  max_restart = rec.max_restart;
  max_relocate = rec.max_relocate;
  timestamp = 0;
  comment = rec.comment;
}

abbrev pub fencing_row : State → HaStatusPayload
fencing_row s = record (plain_row (text "fencing") (text "watchdog")) {
  armed_state = armed_state s;
}

-- quorum, master and fencing, then a row for each resource
unfoldable pub status_rows : State → List HaStatusPayload
status_rows s =
    record (plain_row (text "quorum") (text "OK")) { quorate = 1 }
    ∷ record (plain_row (text "master") (text "active")) { timestamp = mock_timestamp }
    ∷ fencing_row s
    ∷ map (λ e. service_row s e.1) s.ha.resources

unfoldable pub handle_status_current : Handler
handle_status_current r s = respond s (do check_auth r s; passed (ha_status (status_rows s), s))

unfoldable pub services :
    Map Text HaResourceRecord → Map Text ServiceStatus → Map Text ServiceStatus
services [] out = out
services ((_, rec) ∷ rest) out = services rest (
    insert rec.sid
      (record {
        node = or_else rec.node default_node;
        state = rec.state;
        uid = text "mock-" ++ rec.sid;
      })
      out)

unfoldable pub handle_manager_status : Handler
handle_manager_status r s = respond s (do
  check_auth r s
  passed (
    ha_manager (record {
      master_node = default_node;
      node_status = (default_node, text "online") ∷ [];
      service_status = services s.ha.resources [];
      timestamp = mock_timestamp;
      quorum = (text "node", default_node) ∷ (text "quorate", text "1") ∷ [];
    }),
    s,
  ))

unfoldable pub handle_arm : Handler
handle_arm r s = respond s (do
  check_auth r s
  passed (null, record s { ha = record s.ha { armed = true; resource_mode = [] } }))

unfoldable pub handle_disarm : Handler
handle_disarm r s = respond s (do
  check_auth r s
  form ← parse_form r
  refuse_if
      (not (form_get form (text "resource-mode") == text "freeze")
        && not (form_get form (text "resource-mode") == text "ignore"))
      400 (text "missing or invalid resource-mode")
  passed (
    null,
    record s {
      ha = record s.ha { armed = false; resource_mode = form_get form (text "resource-mode") };
    },
  ))

-- migrate and relocate
unfoldable pub handle_resource_move : Handler
handle_resource_move r s = respond s (do
  check_auth r s
  form ← parse_form r
  refuse_if (is_empty (form_get form (text "node"))) 400 (text "missing node")
  rec ←
      found_or (find_record resources (path_value r (text "sid")) s) 404
        (text "no such ha resource")
  passed (
    strings (
        (text "sid", path_value r (text "sid"))
        ∷ (text "requested-node", form_get form (text "node"))
        ∷ []),
    put_record resources (path_value r (text "sid"))
        (record rec { node = form_get form (text "node") }) s,
  ))
