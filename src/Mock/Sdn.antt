-- ===== src/Mock/Sdn.antt =====
-- The software-defined network: zones, VNets, subnets and fabrics of proxmox/mockpve/sdn.go.
pub mod FabricNodes
pub mod Status
pub mod Routes
pub mod Members
pub mod Isolation
pub mod Owned
mod Tests
use proxmox_go_sdk.Base.{
  ◌≡◌, refl, ℕ, Bool, false, Option, none, some, List, [], ◌∷◌, if◌then◌else◌, map,
}
use proxmox_go_sdk.Base.Eq.{◌==◌, text_Eq, eq_refl}
use proxmox_go_sdk.Base.Map.{Map, lookup, insert, erase, lookup-insert}
use proxmox_go_sdk.Base.Text.{Text, text}
use proxmox_go_sdk.Base.Number.{pos}
use proxmox_go_sdk.Mock.{
  State, Handler, Checked, passed, ◌>>=◌, ◌>>◌, refuse_if, found_or, respond, null, Form, form_get,
  zone, zones, vnet, vnets, subnet, subnets, fabric, fabrics,
}
use proxmox_go_sdk.Mock.SdnRecords.{
  ZoneRecord, VnetRecord, SubnetRecord, FabricRecord, SubnetPayload,
}
use proxmox_go_sdk.Mock.Store.{or_empty_map}
use proxmox_go_sdk.Mock.Server.{check_auth}
use proxmox_go_sdk.Mock.Collection.{
  Collection, path_value, text_or, int_or, flag_or, find_record, put_record, drop_record,
  handle_all, handle_one, handle_new, handle_change, handle_drop,
}
use proxmox_go_sdk.Mock.Ha.{flag}

abbrev pub zone_records : Collection ZoneRecord
zone_records = record {
  entries = λ s. s.sdn.zones;
  set_entries = λ m s. record s { sdn = record s.sdn { zones = m } };
  missing = text "no such sdn zone";
  payload = zone;
  entries_set = λ m s. refl;
}

abbrev pub vnet_records : Collection VnetRecord
vnet_records = record {
  entries = λ s. s.sdn.vnets;
  set_entries = λ m s. record s { sdn = record s.sdn { vnets = m } };
  missing = text "no such sdn vnet";
  payload = vnet;
  entries_set = λ m s. refl;
}

unfoldable pub subnet_payload : SubnetRecord → SubnetPayload
subnet_payload rec = record {
  subnet = rec.subnet;
  vnet = rec.vnet;
  gateway = rec.gateway;
  snat = flag rec.snat;
}

-- an inner map after it is written, whether or not it was there
pub or_empty_map-insert :
    {A : Type 0} (k : Text) (m : List A) (outer : Map Text (List A))
    → or_empty_map (lookup k (insert k m outer)) ≡ m
or_empty_map-insert k m outer = rw (lookup-insert k k m outer, eq_refl k) refl

-- the subnets of one VNet, which need not be known
abbrev pub subnet_records : Text → Collection SubnetRecord
subnet_records v = record {
  entries = λ s. or_empty_map (lookup v s.sdn.subnets);
  set_entries = λ m s. record s { sdn = record s.sdn { subnets = insert v m s.sdn.subnets } };
  missing = text "no such sdn subnet";
  payload = λ rec. subnet (subnet_payload rec);
  entries_set = λ m s. or_empty_map-insert v m s.sdn.subnets;
}

abbrev pub fabric_records : Collection FabricRecord
fabric_records = record {
  entries = λ s. s.sdn.fabrics;
  set_entries = λ m s. record s { sdn = record s.sdn { fabrics = m } };
  missing = text "no such sdn fabric";
  payload = fabric;
  entries_set = λ m s. refl;
}

unfoldable pub add_zone : Text → Text → State → State
add_zone name kind = put_record zone_records name (record {
  zone = name;
  kind = kind;
  mtu = pos 0;
  nodes = [];
  ipam = [];
  controller = [];
  vrf_vxlan = pos 0;
  peers = [];
  bridge = [];
})

unfoldable pub add_vnet : Text → Text → State → State
add_vnet name zone_name =
    put_record vnet_records name (record { vnet = name; zone = zone_name; tag = pos 0; alias = [] })

unfoldable pub add_subnet : Text → Text → State → State
add_subnet v cidr =
    put_record (subnet_records v) cidr
      (record { subnet = cidr; vnet = v; gateway = []; snat = false })

unfoldable pub add_fabric : Text → Text → State → State
add_fabric name protocol = put_record fabric_records name (record {
  fabric = name;
  protocol = protocol;
  ip_prefix = [];
  ip6_prefix = [];
  route_filter = [];
})

unfoldable pub new_zone : Form → Text → ZoneRecord
new_zone form name = record {
  zone = name;
  kind = form_get form (text "type");
  mtu = int_or (pos 0) form (text "mtu");
  nodes = form_get form (text "nodes");
  ipam = form_get form (text "ipam");
  controller = form_get form (text "controller");
  vrf_vxlan = int_or (pos 0) form (text "vrf-vxlan");
  peers = form_get form (text "peers");
  bridge = form_get form (text "bridge");
}

unfoldable pub apply_zone_form : Form → ZoneRecord → ZoneRecord
apply_zone_form form rec = record rec {
  nodes = text_or rec.nodes form (text "nodes");
  ipam = text_or rec.ipam form (text "ipam");
  mtu = int_or rec.mtu form (text "mtu");
}

unfoldable pub handle_zone_list : Handler
handle_zone_list = handle_all zone_records (λ rec. rec) zones

unfoldable pub handle_zone_get : Handler
handle_zone_get r = handle_one zone_records (path_value r (text "zone")) r

unfoldable pub handle_zone_create : Handler
handle_zone_create = handle_new zone_records (text "zone") (text "missing zone") new_zone

unfoldable pub handle_zone_update : Handler
handle_zone_update r = handle_change zone_records (path_value r (text "zone")) apply_zone_form r

unfoldable pub handle_zone_delete : Handler
handle_zone_delete r = handle_drop zone_records (path_value r (text "zone")) r

unfoldable pub new_vnet : Form → Text → VnetRecord
new_vnet form name = record {
  vnet = name;
  zone = form_get form (text "zone");
  tag = int_or (pos 0) form (text "tag");
  alias = form_get form (text "alias");
}

unfoldable pub apply_vnet_form : Form → VnetRecord → VnetRecord
apply_vnet_form form rec = record rec {
  alias = text_or rec.alias form (text "alias");
  tag = int_or rec.tag form (text "tag");
}

unfoldable pub handle_vnet_list : Handler
handle_vnet_list = handle_all vnet_records (λ rec. rec) vnets

unfoldable pub handle_vnet_get : Handler
handle_vnet_get r = handle_one vnet_records (path_value r (text "vnet")) r

unfoldable pub handle_vnet_create : Handler
handle_vnet_create = handle_new vnet_records (text "vnet") (text "missing vnet") new_vnet

unfoldable pub handle_vnet_update : Handler
handle_vnet_update r = handle_change vnet_records (path_value r (text "vnet")) apply_vnet_form r

unfoldable pub handle_vnet_delete : Handler
handle_vnet_delete r = handle_drop vnet_records (path_value r (text "vnet")) r

unfoldable pub new_subnet : Text → Form → Text → SubnetRecord
new_subnet v form cidr = record {
  subnet = cidr;
  vnet = v;
  gateway = form_get form (text "gateway");
  snat = form_get form (text "snat") == text "1";
}

unfoldable pub apply_subnet_form : Form → SubnetRecord → SubnetRecord
apply_subnet_form form rec = record rec {
  gateway = text_or rec.gateway form (text "gateway");
  snat = flag_or rec.snat form (text "snat");
}

unfoldable pub handle_subnet_list : Handler
handle_subnet_list r =
    handle_all (subnet_records (path_value r (text "vnet"))) subnet_payload subnets r

unfoldable pub handle_subnet_get : Handler
handle_subnet_get r =
    handle_one (subnet_records (path_value r (text "vnet"))) (path_value r (text "subnet")) r

unfoldable pub handle_subnet_create : Handler
handle_subnet_create r =
    handle_new (subnet_records (path_value r (text "vnet"))) (text "subnet") (text "missing subnet")
      (new_subnet (path_value r (text "vnet"))) r

unfoldable pub handle_subnet_update : Handler
handle_subnet_update r =
    handle_change (subnet_records (path_value r (text "vnet"))) (path_value r (text "subnet"))
      apply_subnet_form r

unfoldable pub handle_subnet_delete : Handler
handle_subnet_delete r =
    handle_drop (subnet_records (path_value r (text "vnet"))) (path_value r (text "subnet")) r

unfoldable pub new_fabric : Form → Text → FabricRecord
new_fabric form name = record {
  fabric = name;
  protocol = form_get form (text "protocol");
  ip_prefix = form_get form (text "ip_prefix");
  ip6_prefix = form_get form (text "ip6_prefix");
  route_filter = form_get form (text "route_filter");
}

unfoldable pub apply_fabric_form : Form → FabricRecord → FabricRecord
apply_fabric_form form rec = record rec {
  protocol = text_or rec.protocol form (text "protocol");
  ip_prefix = text_or rec.ip_prefix form (text "ip_prefix");
  ip6_prefix = text_or rec.ip6_prefix form (text "ip6_prefix");
  route_filter = text_or rec.route_filter form (text "route_filter");
}

unfoldable pub handle_fabric_list : Handler
handle_fabric_list = handle_all fabric_records (λ rec. rec) fabrics

unfoldable pub handle_fabric_get : Handler
handle_fabric_get r = handle_one fabric_records (path_value r (text "fabric")) r

unfoldable pub handle_fabric_create : Handler
handle_fabric_create = handle_new fabric_records (text "id") (text "missing id") new_fabric

unfoldable pub handle_fabric_update : Handler
handle_fabric_update r =
    handle_change fabric_records (path_value r (text "fabric")) apply_fabric_form r

-- the members go with the fabric
unfoldable pub drop_members : Text → State → State
drop_members f s = record s { sdn = record s.sdn { fabric_nodes = erase f s.sdn.fabric_nodes } }

unfoldable pub handle_fabric_delete : Handler
handle_fabric_delete r s = respond s (do
  check_auth r s
  rec ←
      found_or (find_record fabric_records (path_value r (text "fabric")) s) 404
        (text "no such sdn fabric")
  passed (
    null,
    drop_members (path_value r (text "fabric"))
        (drop_record fabric_records (path_value r (text "fabric")) s),
  ))

unfoldable pub handle_sdn_apply : Handler
handle_sdn_apply r s = respond s (do check_auth r s; passed (null, s))
