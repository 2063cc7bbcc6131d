-- ===== src/Mock/Routes/Denied/Sdn.antt =====
-- Requests that are not let in: the handlers of proxmox/mockpve/sdn.go.
use proxmox_go_sdk.Base.{◌≡◌, false}
use proxmox_go_sdk.Mock.{Request, State, error_of}
use proxmox_go_sdk.Mock.Server.{is_authorized, authentication_failure}
use proxmox_go_sdk.Mock.Routes.Denied.{denied}
use proxmox_go_sdk.Mock.Sdn.Routes.{
  SdnRoute, serve_sdn, get_zones, post_zones, get_zone, put_zone, delete_zone, get_vnets,
  post_vnets, get_vnet, put_vnet, delete_vnet, get_subnets, post_subnets, get_subnet, put_subnet,
  delete_subnet, get_fabrics, post_fabrics, get_fabric, put_fabric, delete_fabric, get_members,
  post_members, get_member, put_member, delete_member, put_sdn, get_node_zones, get_zone_content,
  get_zone_bridges, get_zone_ip_vrf, get_vnet_mac_vrf, get_fabric_interfaces, get_fabric_neighbors,
  get_fabric_routes,
}
use proxmox_go_sdk.Mock.Sdn.{
  handle_zone_list, handle_zone_create, handle_zone_get, handle_zone_update, handle_zone_delete,
  handle_vnet_list, handle_vnet_create, handle_vnet_get, handle_vnet_update, handle_vnet_delete,
  handle_subnet_list, handle_subnet_create, handle_subnet_get, handle_subnet_update,
  handle_subnet_delete, handle_fabric_list, handle_fabric_create, handle_fabric_get,
  handle_fabric_update, handle_fabric_delete, handle_sdn_apply,
}
use proxmox_go_sdk.Mock.Sdn.FabricNodes.{
  handle_member_list, handle_member_create, handle_member_get, handle_member_update,
  handle_member_delete,
}
use proxmox_go_sdk.Mock.Sdn.Status.{
  handle_node_zones, handle_zone_content, handle_zone_bridges, handle_zone_ip_vrf,
  handle_vnet_mac_vrf, handle_fabric_interfaces, handle_fabric_neighbors, handle_fabric_routes,
}
use proxmox_go_sdk.Mock.{respond}
use proxmox_go_sdk.Mock.Collection.{handle_all}
use proxmox_go_sdk.Mock.Collection.{handle_new}
use proxmox_go_sdk.Mock.Collection.{handle_one}
use proxmox_go_sdk.Mock.Collection.{handle_change}
use proxmox_go_sdk.Mock.Collection.{handle_drop}

pub serve_sdn_refused :
    (route : SdnRoute) (r : Request) (s : State)
    → is_authorized r s ≡ false
    → serve_sdn route r s ≡ (error_of 401 authentication_failure, s)
unfolding serve_sdn handle_zone_list handle_zone_create handle_zone_get handle_zone_update
    handle_zone_delete handle_vnet_list handle_vnet_create handle_vnet_get handle_vnet_update
    handle_vnet_delete handle_subnet_list handle_subnet_create handle_subnet_get
    handle_subnet_update handle_subnet_delete handle_fabric_list handle_fabric_create
    handle_fabric_get handle_fabric_update handle_fabric_delete handle_member_list
    handle_member_create handle_member_get handle_member_update handle_member_delete
    handle_sdn_apply handle_node_zones handle_zone_content handle_zone_bridges handle_zone_ip_vrf
    handle_vnet_mac_vrf handle_fabric_interfaces handle_fabric_neighbors handle_fabric_routes
    respond handle_all handle_new handle_one handle_change handle_drop
serve_sdn_refused get_zones r s h = denied r s _ h
serve_sdn_refused post_zones r s h = denied r s _ h
serve_sdn_refused get_zone r s h = denied r s _ h
serve_sdn_refused put_zone r s h = denied r s _ h
serve_sdn_refused delete_zone r s h = denied r s _ h
serve_sdn_refused get_vnets r s h = denied r s _ h
serve_sdn_refused post_vnets r s h = denied r s _ h
serve_sdn_refused get_vnet r s h = denied r s _ h
serve_sdn_refused put_vnet r s h = denied r s _ h
serve_sdn_refused delete_vnet r s h = denied r s _ h
serve_sdn_refused get_subnets r s h = denied r s _ h
serve_sdn_refused post_subnets r s h = denied r s _ h
serve_sdn_refused get_subnet r s h = denied r s _ h
serve_sdn_refused put_subnet r s h = denied r s _ h
serve_sdn_refused delete_subnet r s h = denied r s _ h
serve_sdn_refused get_fabrics r s h = denied r s _ h
serve_sdn_refused post_fabrics r s h = denied r s _ h
serve_sdn_refused get_fabric r s h = denied r s _ h
serve_sdn_refused put_fabric r s h = denied r s _ h
serve_sdn_refused delete_fabric r s h = denied r s _ h
serve_sdn_refused get_members r s h = denied r s _ h
serve_sdn_refused post_members r s h = denied r s _ h
serve_sdn_refused get_member r s h = denied r s _ h
serve_sdn_refused put_member r s h = denied r s _ h
serve_sdn_refused delete_member r s h = denied r s _ h
serve_sdn_refused put_sdn r s h = denied r s _ h
serve_sdn_refused get_node_zones r s h = denied r s _ h
serve_sdn_refused get_zone_content r s h = denied r s _ h
serve_sdn_refused get_zone_bridges r s h = denied r s _ h
serve_sdn_refused get_zone_ip_vrf r s h = denied r s _ h
serve_sdn_refused get_vnet_mac_vrf r s h = denied r s _ h
serve_sdn_refused get_fabric_interfaces r s h = denied r s _ h
serve_sdn_refused get_fabric_neighbors r s h = denied r s _ h
serve_sdn_refused get_fabric_routes r s h = denied r s _ h
