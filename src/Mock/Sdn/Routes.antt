-- ===== src/Mock/Sdn/Routes.antt =====
-- The routes of proxmox/mockpve/sdn.go, each served by its handler.
use proxmox_go_sdk.Mock.{Handler}
use proxmox_go_sdk.Mock.Sdn.{
  handle_zone_list, handle_zone_create, handle_zone_get, handle_zone_update, handle_zone_delete,
  handle_vnet_list, handle_vnet_create, handle_vnet_get, handle_vnet_update, handle_vnet_delete,
  handle_subnet_list, handle_subnet_create, handle_subnet_get, handle_subnet_update,
  handle_subnet_delete, handle_fabric_list, handle_fabric_create, handle_fabric_get,
  handle_fabric_update, handle_fabric_delete, handle_sdn_apply,
}
use proxmox_go_sdk.Mock.Sdn.FabricNodes.{
  handle_member_list, handle_member_create, handle_member_get, handle_member_update,
  handle_member_delete,
}
use proxmox_go_sdk.Mock.Sdn.Status.{
  handle_node_zones, handle_zone_content, handle_zone_bridges, handle_zone_ip_vrf,
  handle_vnet_mac_vrf, handle_fabric_interfaces, handle_fabric_neighbors, handle_fabric_routes,
}

pub data SdnRoute : Type 0 where
  get_zones : SdnRoute
  post_zones : SdnRoute
  get_zone : SdnRoute
  put_zone : SdnRoute
  delete_zone : SdnRoute
  get_vnets : SdnRoute
  post_vnets : SdnRoute
  get_vnet : SdnRoute
  put_vnet : SdnRoute
  delete_vnet : SdnRoute
  get_subnets : SdnRoute
  post_subnets : SdnRoute
  get_subnet : SdnRoute
  put_subnet : SdnRoute
  delete_subnet : SdnRoute
  get_fabrics : SdnRoute
  post_fabrics : SdnRoute
  get_fabric : SdnRoute
  put_fabric : SdnRoute
  delete_fabric : SdnRoute
  get_members : SdnRoute
  post_members : SdnRoute
  get_member : SdnRoute
  put_member : SdnRoute
  delete_member : SdnRoute
  put_sdn : SdnRoute
  get_node_zones : SdnRoute
  get_zone_content : SdnRoute
  get_zone_bridges : SdnRoute
  get_zone_ip_vrf : SdnRoute
  get_vnet_mac_vrf : SdnRoute
  get_fabric_interfaces : SdnRoute
  get_fabric_neighbors : SdnRoute
  get_fabric_routes : SdnRoute

unfoldable pub serve_sdn : SdnRoute → Handler
serve_sdn get_zones = handle_zone_list
serve_sdn post_zones = handle_zone_create
serve_sdn get_zone = handle_zone_get
serve_sdn put_zone = handle_zone_update
serve_sdn delete_zone = handle_zone_delete
serve_sdn get_vnets = handle_vnet_list
serve_sdn post_vnets = handle_vnet_create
serve_sdn get_vnet = handle_vnet_get
serve_sdn put_vnet = handle_vnet_update
serve_sdn delete_vnet = handle_vnet_delete
serve_sdn get_subnets = handle_subnet_list
serve_sdn post_subnets = handle_subnet_create
serve_sdn get_subnet = handle_subnet_get
serve_sdn put_subnet = handle_subnet_update
serve_sdn delete_subnet = handle_subnet_delete
serve_sdn get_fabrics = handle_fabric_list
serve_sdn post_fabrics = handle_fabric_create
serve_sdn get_fabric = handle_fabric_get
serve_sdn put_fabric = handle_fabric_update
serve_sdn delete_fabric = handle_fabric_delete
serve_sdn get_members = handle_member_list
serve_sdn post_members = handle_member_create
serve_sdn get_member = handle_member_get
serve_sdn put_member = handle_member_update
serve_sdn delete_member = handle_member_delete
serve_sdn put_sdn = handle_sdn_apply
serve_sdn get_node_zones = handle_node_zones
serve_sdn get_zone_content = handle_zone_content
serve_sdn get_zone_bridges = handle_zone_bridges
serve_sdn get_zone_ip_vrf = handle_zone_ip_vrf
serve_sdn get_vnet_mac_vrf = handle_vnet_mac_vrf
serve_sdn get_fabric_interfaces = handle_fabric_interfaces
serve_sdn get_fabric_neighbors = handle_fabric_neighbors
serve_sdn get_fabric_routes = handle_fabric_routes
