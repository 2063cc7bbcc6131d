-- ===== src/Mock/Sdn/Isolation.antt =====
-- Guests and networks are apart: proxmox/mockpve/sdn.go.
use proxmox_go_sdk.Mock.Guests.{Same, SameData}
use proxmox_go_sdk.Base.{refl, ◌≡◌}
use proxmox_go_sdk.Base.Eq.{text_Eq}
use proxmox_go_sdk.Base.Text.{text}
use proxmox_go_sdk.Mock.{Request, State, refuse_if, found_or}
use proxmox_go_sdk.Mock.Checks.{bind-Grants, then-Grants, respond-keeps}
use proxmox_go_sdk.Mock.Server.{check_auth, parse_form}
use proxmox_go_sdk.Mock.Collection.{path_value, find_record, put_record, drop_record}
use proxmox_go_sdk.Mock.Collection.Keeps.{
  handle_all-keeps, handle_one-keeps, handle_new-keeps, handle_change-keeps, handle_drop-keeps,
}
use proxmox_go_sdk.Mock.Sdn.{
  zone_records, vnet_records, subnet_records, fabric_records, drop_members, handle_zone_list,
  handle_zone_create, handle_zone_get, handle_zone_update, handle_zone_delete, handle_vnet_list,
  handle_vnet_create, handle_vnet_get, handle_vnet_update, handle_vnet_delete, handle_subnet_list,
  handle_subnet_create, handle_subnet_get, handle_subnet_update, handle_subnet_delete,
  handle_fabric_list, handle_fabric_create, handle_fabric_get, handle_fabric_update,
  handle_fabric_delete, handle_sdn_apply,
}
use proxmox_go_sdk.Mock.Sdn.FabricNodes.{
  member_records, handle_member_list, handle_member_create, handle_member_get, handle_member_update,
  handle_member_delete,
}
use proxmox_go_sdk.Mock.Sdn.Status.{
  check_zone, check_fabric, handle_node_zones, handle_zone_content, handle_zone_bridges,
  handle_zone_ip_vrf, handle_vnet_mac_vrf, handle_fabric_interfaces, handle_fabric_neighbors,
  handle_fabric_routes,
}
use proxmox_go_sdk.Mock.Sdn.Routes.{
  SdnRoute, serve_sdn, get_zones, post_zones, get_zone, put_zone, delete_zone, get_vnets,
  post_vnets, get_vnet, put_vnet, delete_vnet, get_subnets, post_subnets, get_subnet, put_subnet,
  delete_subnet, get_fabrics, post_fabrics, get_fabric, put_fabric, delete_fabric, get_members,
  post_members, get_member, put_member, delete_member, put_sdn, get_node_zones, get_zone_content,
  get_zone_bridges, get_zone_ip_vrf, get_vnet_mac_vrf, get_fabric_interfaces, get_fabric_neighbors,
  get_fabric_routes,
}

vms-handle_zone_list : (r : Request) (s : State) → Same s ((handle_zone_list r s).1)
unfolding handle_zone_list
vms-handle_zone_list r s = handle_all-keeps zone_records (Same s) (λ m t e. e) r s refl _ _

vms-handle_zone_create : (r : Request) (s : State) → Same s ((handle_zone_create r s).1)
unfolding handle_zone_create
vms-handle_zone_create r s = handle_new-keeps zone_records (Same s) (λ m t e. e) r s refl _ _ _

vms-handle_zone_get : (r : Request) (s : State) → Same s ((handle_zone_get r s).1)
unfolding handle_zone_get
vms-handle_zone_get r s = handle_one-keeps zone_records (Same s) (λ m t e. e) r s refl _

vms-handle_zone_update : (r : Request) (s : State) → Same s ((handle_zone_update r s).1)
unfolding handle_zone_update
vms-handle_zone_update r s = handle_change-keeps zone_records (Same s) (λ m t e. e) r s refl _ _

vms-handle_zone_delete : (r : Request) (s : State) → Same s ((handle_zone_delete r s).1)
unfolding handle_zone_delete
vms-handle_zone_delete r s = handle_drop-keeps zone_records (Same s) (λ m t e. e) r s refl _

vms-handle_vnet_list : (r : Request) (s : State) → Same s ((handle_vnet_list r s).1)
unfolding handle_vnet_list
vms-handle_vnet_list r s = handle_all-keeps vnet_records (Same s) (λ m t e. e) r s refl _ _

vms-handle_vnet_create : (r : Request) (s : State) → Same s ((handle_vnet_create r s).1)
unfolding handle_vnet_create
vms-handle_vnet_create r s = handle_new-keeps vnet_records (Same s) (λ m t e. e) r s refl _ _ _

vms-handle_vnet_get : (r : Request) (s : State) → Same s ((handle_vnet_get r s).1)
unfolding handle_vnet_get
vms-handle_vnet_get r s = handle_one-keeps vnet_records (Same s) (λ m t e. e) r s refl _

vms-handle_vnet_update : (r : Request) (s : State) → Same s ((handle_vnet_update r s).1)
unfolding handle_vnet_update
vms-handle_vnet_update r s = handle_change-keeps vnet_records (Same s) (λ m t e. e) r s refl _ _

vms-handle_vnet_delete : (r : Request) (s : State) → Same s ((handle_vnet_delete r s).1)
unfolding handle_vnet_delete
vms-handle_vnet_delete r s = handle_drop-keeps vnet_records (Same s) (λ m t e. e) r s refl _

vms-handle_subnet_list : (r : Request) (s : State) → Same s ((handle_subnet_list r s).1)
unfolding handle_subnet_list
vms-handle_subnet_list r s =
    handle_all-keeps (subnet_records (path_value r (text "vnet"))) (Same s) (λ m t e. e) r s refl _
      _

vms-handle_subnet_create : (r : Request) (s : State) → Same s ((handle_subnet_create r s).1)
unfolding handle_subnet_create
vms-handle_subnet_create r s =
    handle_new-keeps (subnet_records (path_value r (text "vnet"))) (Same s) (λ m t e. e) r s refl _
      _ _

vms-handle_subnet_get : (r : Request) (s : State) → Same s ((handle_subnet_get r s).1)
unfolding handle_subnet_get
vms-handle_subnet_get r s =
    handle_one-keeps (subnet_records (path_value r (text "vnet"))) (Same s) (λ m t e. e) r s refl _

vms-handle_subnet_update : (r : Request) (s : State) → Same s ((handle_subnet_update r s).1)
unfolding handle_subnet_update
vms-handle_subnet_update r s =
    handle_change-keeps (subnet_records (path_value r (text "vnet"))) (Same s) (λ m t e. e) r s refl
      _ _

vms-handle_subnet_delete : (r : Request) (s : State) → Same s ((handle_subnet_delete r s).1)
unfolding handle_subnet_delete
vms-handle_subnet_delete r s =
    handle_drop-keeps (subnet_records (path_value r (text "vnet"))) (Same s) (λ m t e. e) r s refl _

vms-handle_fabric_list : (r : Request) (s : State) → Same s ((handle_fabric_list r s).1)
unfolding handle_fabric_list
vms-handle_fabric_list r s = handle_all-keeps fabric_records (Same s) (λ m t e. e) r s refl _ _

vms-handle_fabric_create : (r : Request) (s : State) → Same s ((handle_fabric_create r s).1)
unfolding handle_fabric_create
vms-handle_fabric_create r s = handle_new-keeps fabric_records (Same s) (λ m t e. e) r s refl _ _ _

vms-handle_fabric_get : (r : Request) (s : State) → Same s ((handle_fabric_get r s).1)
unfolding handle_fabric_get
vms-handle_fabric_get r s = handle_one-keeps fabric_records (Same s) (λ m t e. e) r s refl _

vms-handle_fabric_update : (r : Request) (s : State) → Same s ((handle_fabric_update r s).1)
unfolding handle_fabric_update
vms-handle_fabric_update r s = handle_change-keeps fabric_records (Same s) (λ m t e. e) r s refl _ _

vms-handle_fabric_delete : (r : Request) (s : State) → Same s ((handle_fabric_delete r s).1)
unfolding handle_fabric_delete drop_members drop_record
vms-handle_fabric_delete r s = respond-keeps (Same s) s _ refl (
    then-Grants (SameData s) (check_auth r s) _ (λ _.
      bind-Grants (SameData s)
        (found_or (find_record fabric_records (path_value r (text "fabric")) s) _ _) _
        (λ found _. refl)))

vms-handle_member_list : (r : Request) (s : State) → Same s ((handle_member_list r s).1)
unfolding handle_member_list
vms-handle_member_list r s = respond-keeps (Same s) s _ refl (
    then-Grants (SameData s) (check_auth r s) _
      (λ _. then-Grants (SameData s) (refuse_if _ _ _) _ (λ _. refl)))

vms-handle_member_create : (r : Request) (s : State) → Same s ((handle_member_create r s).1)
unfolding handle_member_create put_record
vms-handle_member_create r s = respond-keeps (Same s) s _ refl (
    then-Grants (SameData s) (check_auth r s) _ (λ _.
      bind-Grants (SameData s) (parse_form r) _ (λ found _.
        then-Grants (SameData s) (refuse_if _ _ _) _
          (λ _. then-Grants (SameData s) (refuse_if _ _ _) _ (λ _. refl)))))

vms-handle_member_get : (r : Request) (s : State) → Same s ((handle_member_get r s).1)
unfolding handle_member_get
vms-handle_member_get r s =
    handle_one-keeps (member_records (path_value r (text "fabric"))) (Same s) (λ m t e. e) r s refl
      _

vms-handle_member_update : (r : Request) (s : State) → Same s ((handle_member_update r s).1)
unfolding handle_member_update
vms-handle_member_update r s =
    handle_change-keeps (member_records (path_value r (text "fabric"))) (Same s) (λ m t e. e) r s
      refl _ _

vms-handle_member_delete : (r : Request) (s : State) → Same s ((handle_member_delete r s).1)
unfolding handle_member_delete
vms-handle_member_delete r s =
    handle_drop-keeps (member_records (path_value r (text "fabric"))) (Same s) (λ m t e. e) r s refl
      _

vms-handle_sdn_apply : (r : Request) (s : State) → Same s ((handle_sdn_apply r s).1)
unfolding handle_sdn_apply
vms-handle_sdn_apply r s =
    respond-keeps (Same s) s _ refl (then-Grants (SameData s) (check_auth r s) _ (λ _. refl))

vms-handle_node_zones : (r : Request) (s : State) → Same s ((handle_node_zones r s).1)
unfolding handle_node_zones
vms-handle_node_zones r s =
    respond-keeps (Same s) s _ refl (then-Grants (SameData s) (check_auth r s) _ (λ _. refl))

vms-handle_zone_content : (r : Request) (s : State) → Same s ((handle_zone_content r s).1)
unfolding handle_zone_content
vms-handle_zone_content r s = respond-keeps (Same s) s _ refl (
    then-Grants (SameData s) (check_auth r s) _
      (λ _. then-Grants (SameData s) (check_zone r s) _ (λ _. refl)))

vms-handle_zone_bridges : (r : Request) (s : State) → Same s ((handle_zone_bridges r s).1)
unfolding handle_zone_bridges
vms-handle_zone_bridges r s = respond-keeps (Same s) s _ refl (
    then-Grants (SameData s) (check_auth r s) _
      (λ _. then-Grants (SameData s) (check_zone r s) _ (λ _. refl)))

vms-handle_zone_ip_vrf : (r : Request) (s : State) → Same s ((handle_zone_ip_vrf r s).1)
unfolding handle_zone_ip_vrf
vms-handle_zone_ip_vrf r s = respond-keeps (Same s) s _ refl (
    then-Grants (SameData s) (check_auth r s) _
      (λ _. then-Grants (SameData s) (check_zone r s) _ (λ _. refl)))

vms-handle_vnet_mac_vrf : (r : Request) (s : State) → Same s ((handle_vnet_mac_vrf r s).1)
unfolding handle_vnet_mac_vrf
vms-handle_vnet_mac_vrf r s = respond-keeps (Same s) s _ refl (
    then-Grants (SameData s) (check_auth r s) _
      (λ _. then-Grants (SameData s) (refuse_if _ _ _) _ (λ _. refl)))

vms-handle_fabric_interfaces : (r : Request) (s : State) → Same s ((handle_fabric_interfaces r s).1)
unfolding handle_fabric_interfaces
vms-handle_fabric_interfaces r s = respond-keeps (Same s) s _ refl (
    then-Grants (SameData s) (check_auth r s) _
      (λ _. then-Grants (SameData s) (check_fabric r s) _ (λ _. refl)))

vms-handle_fabric_neighbors : (r : Request) (s : State) → Same s ((handle_fabric_neighbors r s).1)
unfolding handle_fabric_neighbors
vms-handle_fabric_neighbors r s = respond-keeps (Same s) s _ refl (
    then-Grants (SameData s) (check_auth r s) _
      (λ _. then-Grants (SameData s) (check_fabric r s) _ (λ _. refl)))

vms-handle_fabric_routes : (r : Request) (s : State) → Same s ((handle_fabric_routes r s).1)
unfolding handle_fabric_routes
vms-handle_fabric_routes r s = respond-keeps (Same s) s _ refl (
    then-Grants (SameData s) (check_auth r s) _ (λ _.
      bind-Grants (SameData s)
        (found_or (find_record fabric_records (path_value r (text "fabric")) s) _ _) _
        (λ found _. refl)))

-- Whatever request for the network is served, and whatever it answers, every QEMU guest is as before.
pub vms-serve_sdn :
    (route : SdnRoute) (r : Request) (s : State) → ((serve_sdn route r s).1).vms ≡ s.vms
unfolding serve_sdn
vms-serve_sdn get_zones r s = vms-handle_zone_list r s
vms-serve_sdn post_zones r s = vms-handle_zone_create r s
vms-serve_sdn get_zone r s = vms-handle_zone_get r s
vms-serve_sdn put_zone r s = vms-handle_zone_update r s
vms-serve_sdn delete_zone r s = vms-handle_zone_delete r s
vms-serve_sdn get_vnets r s = vms-handle_vnet_list r s
vms-serve_sdn post_vnets r s = vms-handle_vnet_create r s
vms-serve_sdn get_vnet r s = vms-handle_vnet_get r s
vms-serve_sdn put_vnet r s = vms-handle_vnet_update r s
vms-serve_sdn delete_vnet r s = vms-handle_vnet_delete r s
vms-serve_sdn get_subnets r s = vms-handle_subnet_list r s
vms-serve_sdn post_subnets r s = vms-handle_subnet_create r s
vms-serve_sdn get_subnet r s = vms-handle_subnet_get r s
vms-serve_sdn put_subnet r s = vms-handle_subnet_update r s
vms-serve_sdn delete_subnet r s = vms-handle_subnet_delete r s
vms-serve_sdn get_fabrics r s = vms-handle_fabric_list r s
vms-serve_sdn post_fabrics r s = vms-handle_fabric_create r s
vms-serve_sdn get_fabric r s = vms-handle_fabric_get r s
vms-serve_sdn put_fabric r s = vms-handle_fabric_update r s
vms-serve_sdn delete_fabric r s = vms-handle_fabric_delete r s
vms-serve_sdn get_members r s = vms-handle_member_list r s
vms-serve_sdn post_members r s = vms-handle_member_create r s
vms-serve_sdn get_member r s = vms-handle_member_get r s
vms-serve_sdn put_member r s = vms-handle_member_update r s
vms-serve_sdn delete_member r s = vms-handle_member_delete r s
vms-serve_sdn put_sdn r s = vms-handle_sdn_apply r s
vms-serve_sdn get_node_zones r s = vms-handle_node_zones r s
vms-serve_sdn get_zone_content r s = vms-handle_zone_content r s
vms-serve_sdn get_zone_bridges r s = vms-handle_zone_bridges r s
vms-serve_sdn get_zone_ip_vrf r s = vms-handle_zone_ip_vrf r s
vms-serve_sdn get_vnet_mac_vrf r s = vms-handle_vnet_mac_vrf r s
vms-serve_sdn get_fabric_interfaces r s = vms-handle_fabric_interfaces r s
vms-serve_sdn get_fabric_neighbors r s = vms-handle_fabric_neighbors r s
vms-serve_sdn get_fabric_routes r s = vms-handle_fabric_routes r s
