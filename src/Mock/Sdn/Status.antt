-- ===== src/Mock/Sdn/Status.antt =====
-- The live status of the network on a node, made up from what is stored: proxmox/mockpve/sdn.go.
use proxmox_go_sdk.Base.{not, Option, none, some, List, [], ◌∷◌, is_some, map, if◌then◌else◌}
use proxmox_go_sdk.Base.Eq.{◌==◌, text_Eq}
use proxmox_go_sdk.Base.Map.{Map, lookup}
use proxmox_go_sdk.Base.Text.{Text, text, is_empty}
use proxmox_go_sdk.Mock.{
  State, Request, Handler, Checked, passed, ◌>>=◌, ◌>>◌, refuse_if, found_or, respond,
  zone_statuses, vnet_statuses, zone_bridges, ip_vrfs, mac_vrfs, fabric_ifaces, fabric_neighbors,
  fabric_routes,
}
use proxmox_go_sdk.Mock.SdnRecords.{
  VnetRecord, FabricRecord, FabricNodeRecord, VnetStatus, ZoneBridge, FabricNeighbor, FabricIface,
}
use proxmox_go_sdk.Mock.Store.{or_empty_map}
use proxmox_go_sdk.Mock.Server.{check_auth}
use proxmox_go_sdk.Mock.Collection.{path_value, find_record}
use proxmox_go_sdk.Mock.Sdn.{zone_records, vnet_records, fabric_records}
use proxmox_go_sdk.Mock.Sdn.FabricNodes.{member_records, has_fabric}

unfoldable pub handle_node_zones : Handler
handle_node_zones r s = respond s (do
  check_auth r s
  passed (
    zone_statuses (map (λ e. record { zone = e.1.zone; status = text "available" }) s.sdn.zones),
    s,
  ))

-- the VNets of a zone, in the order of the range
unfoldable pub vnets_of : Text → Map Text VnetRecord → List VnetRecord
vnets_of z [] = []
vnets_of z ((_, rec) ∷ rest) =
    let others = vnets_of z rest in if rec.zone == z then rec ∷ others else others

unfoldable pub check_zone : Request → State → Checked (Unit {0})
check_zone r s =
    refuse_if (not (is_some (find_record zone_records (path_value r (text "zone")) s))) 404
      (text "no such sdn zone")

abbrev pub vnet_status : VnetRecord → VnetStatus
vnet_status rec = record { vnet = rec.vnet; status = text "available"; status_msg = [] }

unfoldable pub handle_zone_content : Handler
handle_zone_content r s = respond s (do
  check_auth r s
  check_zone r s
  passed (vnet_statuses (map vnet_status (vnets_of (path_value r (text "zone")) s.sdn.vnets)), s))

abbrev pub zone_bridge : VnetRecord → ZoneBridge
zone_bridge rec = record {
  name = rec.vnet;
  vlan_filtering = text "0";
  ports = text "tap100i0" ∷ [];
}

unfoldable pub handle_zone_bridges : Handler
handle_zone_bridges r s = respond s (do
  check_auth r s
  check_zone r s
  passed (zone_bridges (map zone_bridge (vnets_of (path_value r (text "zone")) s.sdn.vnets)), s))

unfoldable pub handle_zone_ip_vrf : Handler
handle_zone_ip_vrf r s = respond s (do
  check_auth r s
  check_zone r s
  passed (
    ip_vrfs (
        record {
          ip = text "10.0.0.0/24";
          metric = 20;
          protocol = text "bgp";
          nexthops = text "192.0.2.1" ∷ [];
        }
        ∷ []),
    s,
  ))

unfoldable pub handle_vnet_mac_vrf : Handler
handle_vnet_mac_vrf r s = respond s (do
  check_auth r s
  refuse_if (not (is_some (find_record vnet_records (path_value r (text "vnet")) s))) 404
      (text "no such sdn vnet")
  passed (
    mac_vrfs (
        record { ip = text "10.0.0.10"; mac = text "BC:24:11:00:00:01"; nexthop = text "192.0.2.1" }
        ∷ []),
    s,
  ))

unfoldable pub check_fabric : Request → State → Checked (Unit {0})
check_fabric r s =
    refuse_if (not (has_fabric (path_value r (text "fabric")) s)) 404 (text "no such sdn fabric")

abbrev pub iface_up : Text → FabricIface
iface_up name = record { name = name; state = text "up"; kind = text "Point-to-Point" }

abbrev pub interfaces_of : Option FabricNodeRecord → List Text
interfaces_of none = []
interfaces_of (some rec) = rec.interfaces

unfoldable pub handle_fabric_interfaces : Handler
handle_fabric_interfaces r s = respond s (do
  check_auth r s
  check_fabric r s
  passed (
    fabric_ifaces (
        map iface_up
          (interfaces_of (find_record (member_records (path_value r (text "fabric"))) r.node s))),
    s,
  ))

abbrev pub neighbor_up : Text → FabricNeighbor
neighbor_up name = record { neighbor = name; status = text "Up"; uptime = text "8h24m12s" }

-- the members but the one that asks
unfoldable pub others_of : Text → Map Text FabricNodeRecord → List Text
others_of node [] = []
others_of node ((_, rec) ∷ rest) =
    let others = others_of node rest in if rec.node_id == node then others else rec.node_id ∷ others

unfoldable pub handle_fabric_neighbors : Handler
handle_fabric_neighbors r s = respond s (do
  check_auth r s
  check_fabric r s
  passed (
    fabric_neighbors (
        map neighbor_up (
          others_of r.node
            (or_empty_map (lookup (path_value r (text "fabric")) s.sdn.fabric_nodes)))),
    s,
  ))

abbrev pub route_of : FabricRecord → Text
route_of rec = if is_empty rec.ip_prefix then text "10.0.0.0/24" else rec.ip_prefix

unfoldable pub handle_fabric_routes : Handler
handle_fabric_routes r s = respond s (do
  check_auth r s
  rec ←
      found_or (find_record fabric_records (path_value r (text "fabric")) s) 404
        (text "no such sdn fabric")
  passed (fabric_routes (record { route = route_of rec; via = text "192.0.2.1" ∷ [] } ∷ []), s))
