-- ===== src/Mock/Sdn/Owned.antt =====
-- Every route of proxmox/mockpve/sdn.go keeps the members within the stored fabrics.
use proxmox_go_sdk.Base.{is_some, arith, ◌≡◌, true, some, not}
use proxmox_go_sdk.Base.Eq.{text_Eq}
use proxmox_go_sdk.Base.Map.{lookup}
use proxmox_go_sdk.Base.Text.{text}
use proxmox_go_sdk.Mock.{Request, State, refuse_if}
use proxmox_go_sdk.Mock.Checks.{bind-Grants, then-Grants, respond-keeps}
use proxmox_go_sdk.Mock.Server.{check_auth, parse_form}
use proxmox_go_sdk.Mock.Collection.{path_value, find_record}
use proxmox_go_sdk.Mock.Collection.Keeps.{
  handle_all-keeps, handle_one-keeps, handle_new-keeps, handle_change-keeps, handle_drop-keeps,
}
use proxmox_go_sdk.Mock.Sdn.{
  zone_records, vnet_records, subnet_records, fabric_records, handle_zone_list, handle_zone_create,
  handle_zone_get, handle_zone_update, handle_zone_delete, handle_vnet_list, handle_vnet_create,
  handle_vnet_get, handle_vnet_update, handle_vnet_delete, handle_subnet_list, handle_subnet_create,
  handle_subnet_get, handle_subnet_update, handle_subnet_delete, handle_fabric_list,
  handle_fabric_create, handle_fabric_get, handle_fabric_update, handle_fabric_delete,
  handle_sdn_apply,
}
use proxmox_go_sdk.Mock.Sdn.FabricNodes.{
  member_records, has_fabric, handle_member_list, handle_member_create, handle_member_get,
  handle_member_update, handle_member_delete,
}
use proxmox_go_sdk.Mock.Sdn.Status.{
  check_zone, check_fabric, handle_node_zones, handle_zone_content, handle_zone_bridges,
  handle_zone_ip_vrf, handle_vnet_mac_vrf, handle_fabric_interfaces, handle_fabric_neighbors,
  handle_fabric_routes,
}
use proxmox_go_sdk.Mock.Sdn.Routes.{
  SdnRoute, serve_sdn, get_zones, post_zones, get_zone, put_zone, delete_zone, get_vnets,
  post_vnets, get_vnet, put_vnet, delete_vnet, get_subnets, post_subnets, get_subnet, put_subnet,
  delete_subnet, get_fabrics, post_fabrics, get_fabric, put_fabric, delete_fabric, get_members,
  post_members, get_member, put_member, delete_member, put_sdn, get_node_zones, get_zone_content,
  get_zone_bridges, get_zone_ip_vrf, get_vnet_mac_vrf, get_fabric_interfaces, get_fabric_neighbors,
  get_fabric_routes,
}
use proxmox_go_sdk.Mock.Checks.{found-Grants}
use proxmox_go_sdk.Mock.{passed}
use proxmox_go_sdk.Mock.SdnRecords.{FabricNodeRecord}
use proxmox_go_sdk.Mock.Collection.{handle_all, handle_one, handle_new, handle_change, handle_drop}
use proxmox_go_sdk.Mock.Sdn.Members.{
  IsOwned, Owned, put_fabric-IsOwned, drop_fabric-IsOwned, put_member-IsOwned, drop_member-IsOwned,
}

-- the fabric of a request that passed the check
known_fabric :
    (r : Request) (s : State)
    → refuse_if (not (has_fabric (path_value r (text "fabric")) s)) 404 (text "no such sdn fabric")
      ≡ passed tt
    → is_some (lookup (path_value r (text "fabric")) s.sdn.fabrics) ≡ true
unfolding find_record refuse_if
known_fabric r s ready = ground (arith, ready)

-- the fabric of a member that is stored
owner_known :
    (r : Request) (s : State)
    → IsOwned s
    → (rec : FabricNodeRecord)
    → find_record (member_records (path_value r (text "fabric"))) r.node s ≡ some rec
    → is_some (lookup (path_value r (text "fabric")) s.sdn.fabrics) ≡ true
unfolding find_record
owner_known r s owned rec e = owned (path_value r (text "fabric")) r.node rec e

handle_zone_list-IsOwned :
    (r : Request) (s : State) → IsOwned s → IsOwned ((handle_zone_list r s).1)
unfolding handle_zone_list
handle_zone_list-IsOwned r s owned =
    handle_all-keeps zone_records IsOwned (λ m t e. e) r s owned _ _

handle_zone_create-IsOwned :
    (r : Request) (s : State) → IsOwned s → IsOwned ((handle_zone_create r s).1)
unfolding handle_zone_create
handle_zone_create-IsOwned r s owned =
    handle_new-keeps zone_records IsOwned (λ m t e. e) r s owned _ _ _

handle_zone_get-IsOwned : (r : Request) (s : State) → IsOwned s → IsOwned ((handle_zone_get r s).1)
unfolding handle_zone_get
handle_zone_get-IsOwned r s owned = handle_one-keeps zone_records IsOwned (λ m t e. e) r s owned _

handle_zone_update-IsOwned :
    (r : Request) (s : State) → IsOwned s → IsOwned ((handle_zone_update r s).1)
unfolding handle_zone_update
handle_zone_update-IsOwned r s owned =
    handle_change-keeps zone_records IsOwned (λ m t e. e) r s owned _ _

handle_zone_delete-IsOwned :
    (r : Request) (s : State) → IsOwned s → IsOwned ((handle_zone_delete r s).1)
unfolding handle_zone_delete
handle_zone_delete-IsOwned r s owned =
    handle_drop-keeps zone_records IsOwned (λ m t e. e) r s owned _

handle_vnet_list-IsOwned :
    (r : Request) (s : State) → IsOwned s → IsOwned ((handle_vnet_list r s).1)
unfolding handle_vnet_list
handle_vnet_list-IsOwned r s owned =
    handle_all-keeps vnet_records IsOwned (λ m t e. e) r s owned _ _

handle_vnet_create-IsOwned :
    (r : Request) (s : State) → IsOwned s → IsOwned ((handle_vnet_create r s).1)
unfolding handle_vnet_create
handle_vnet_create-IsOwned r s owned =
    handle_new-keeps vnet_records IsOwned (λ m t e. e) r s owned _ _ _

handle_vnet_get-IsOwned : (r : Request) (s : State) → IsOwned s → IsOwned ((handle_vnet_get r s).1)
unfolding handle_vnet_get
handle_vnet_get-IsOwned r s owned = handle_one-keeps vnet_records IsOwned (λ m t e. e) r s owned _

handle_vnet_update-IsOwned :
    (r : Request) (s : State) → IsOwned s → IsOwned ((handle_vnet_update r s).1)
unfolding handle_vnet_update
handle_vnet_update-IsOwned r s owned =
    handle_change-keeps vnet_records IsOwned (λ m t e. e) r s owned _ _

handle_vnet_delete-IsOwned :
    (r : Request) (s : State) → IsOwned s → IsOwned ((handle_vnet_delete r s).1)
unfolding handle_vnet_delete
handle_vnet_delete-IsOwned r s owned =
    handle_drop-keeps vnet_records IsOwned (λ m t e. e) r s owned _

handle_subnet_list-IsOwned :
    (r : Request) (s : State) → IsOwned s → IsOwned ((handle_subnet_list r s).1)
unfolding handle_subnet_list
handle_subnet_list-IsOwned r s owned =
    handle_all-keeps (subnet_records (path_value r (text "vnet"))) IsOwned (λ m t e. e) r s owned _
      _

handle_subnet_create-IsOwned :
    (r : Request) (s : State) → IsOwned s → IsOwned ((handle_subnet_create r s).1)
unfolding handle_subnet_create
handle_subnet_create-IsOwned r s owned =
    handle_new-keeps (subnet_records (path_value r (text "vnet"))) IsOwned (λ m t e. e) r s owned _
      _ _

handle_subnet_get-IsOwned :
    (r : Request) (s : State) → IsOwned s → IsOwned ((handle_subnet_get r s).1)
unfolding handle_subnet_get
handle_subnet_get-IsOwned r s owned =
    handle_one-keeps (subnet_records (path_value r (text "vnet"))) IsOwned (λ m t e. e) r s owned _

handle_subnet_update-IsOwned :
    (r : Request) (s : State) → IsOwned s → IsOwned ((handle_subnet_update r s).1)
unfolding handle_subnet_update
handle_subnet_update-IsOwned r s owned =
    handle_change-keeps (subnet_records (path_value r (text "vnet"))) IsOwned (λ m t e. e) r s owned
      _ _

handle_subnet_delete-IsOwned :
    (r : Request) (s : State) → IsOwned s → IsOwned ((handle_subnet_delete r s).1)
unfolding handle_subnet_delete
handle_subnet_delete-IsOwned r s owned =
    handle_drop-keeps (subnet_records (path_value r (text "vnet"))) IsOwned (λ m t e. e) r s owned _

handle_fabric_list-IsOwned :
    (r : Request) (s : State) → IsOwned s → IsOwned ((handle_fabric_list r s).1)
unfolding handle_fabric_list handle_all
handle_fabric_list-IsOwned r s owned =
    respond-keeps IsOwned s _ owned (then-Grants Owned (check_auth r s) _ (λ _. owned))

handle_fabric_create-IsOwned :
    (r : Request) (s : State) → IsOwned s → IsOwned ((handle_fabric_create r s).1)
unfolding handle_fabric_create handle_new
handle_fabric_create-IsOwned r s owned = respond-keeps IsOwned s _ owned (
    then-Grants Owned (check_auth r s) _ (λ _.
      bind-Grants Owned (parse_form r) _ (λ form _.
        then-Grants Owned (refuse_if _ _ _) _ (λ ready. put_fabric-IsOwned s owned _ _))))

handle_fabric_get-IsOwned :
    (r : Request) (s : State) → IsOwned s → IsOwned ((handle_fabric_get r s).1)
unfolding handle_fabric_get handle_one
handle_fabric_get-IsOwned r s owned = respond-keeps IsOwned s _ owned (
    then-Grants Owned (check_auth r s) _ (λ _.
      found-Grants Owned (find_record fabric_records (path_value r (text "fabric")) s) _ _ _
        (λ rec e. owned)))

handle_fabric_update-IsOwned :
    (r : Request) (s : State) → IsOwned s → IsOwned ((handle_fabric_update r s).1)
unfolding handle_fabric_update handle_change
handle_fabric_update-IsOwned r s owned = respond-keeps IsOwned s _ owned (
    then-Grants Owned (check_auth r s) _ (λ _. bind-Grants Owned (parse_form r) _ (λ form _.
      found-Grants Owned (find_record fabric_records (path_value r (text "fabric")) s) _ _ _
        (λ rec e. put_fabric-IsOwned s owned _ _))))

handle_fabric_delete-IsOwned :
    (r : Request) (s : State) → IsOwned s → IsOwned ((handle_fabric_delete r s).1)
unfolding handle_fabric_delete
handle_fabric_delete-IsOwned r s owned = respond-keeps IsOwned s _ owned (
    then-Grants Owned (check_auth r s) _ (λ _.
      found-Grants Owned (find_record fabric_records (path_value r (text "fabric")) s) _ _ _
        (λ rec e. drop_fabric-IsOwned s owned _)))

handle_member_list-IsOwned :
    (r : Request) (s : State) → IsOwned s → IsOwned ((handle_member_list r s).1)
unfolding handle_member_list
handle_member_list-IsOwned r s owned = respond-keeps IsOwned s _ owned (
    then-Grants Owned (check_auth r s) _
      (λ _. then-Grants Owned (refuse_if _ _ _) _ (λ ready. owned)))

handle_member_create-IsOwned :
    (r : Request) (s : State) → IsOwned s → IsOwned ((handle_member_create r s).1)
unfolding handle_member_create
handle_member_create-IsOwned r s owned = respond-keeps IsOwned s _ owned (
    then-Grants Owned (check_auth r s) _ (λ _. bind-Grants Owned (parse_form r) _ (λ form _.
      then-Grants Owned (refuse_if _ _ _) _ (λ ready.
        then-Grants Owned (refuse_if _ _ _) _ (λ ready.
          put_member-IsOwned s owned (path_value r (text "fabric")) _ _
            (known_fabric r s ready))))))

handle_member_get-IsOwned :
    (r : Request) (s : State) → IsOwned s → IsOwned ((handle_member_get r s).1)
unfolding handle_member_get handle_one
handle_member_get-IsOwned r s owned = respond-keeps IsOwned s _ owned (
    then-Grants Owned (check_auth r s) _ (λ _.
      found-Grants Owned (find_record (member_records (path_value r (text "fabric"))) r.node s) _ _
        _ (λ rec e. owned)))

handle_member_update-IsOwned :
    (r : Request) (s : State) → IsOwned s → IsOwned ((handle_member_update r s).1)
unfolding handle_member_update handle_change
handle_member_update-IsOwned r s owned = respond-keeps IsOwned s _ owned (
    then-Grants Owned (check_auth r s) _ (λ _. bind-Grants Owned (parse_form r) _ (λ form _.
      found-Grants Owned (find_record (member_records (path_value r (text "fabric"))) r.node s) _ _
        _
        (λ rec e.
          put_member-IsOwned s owned (path_value r (text "fabric")) _ _
            (owner_known r s owned rec e)))))

handle_member_delete-IsOwned :
    (r : Request) (s : State) → IsOwned s → IsOwned ((handle_member_delete r s).1)
unfolding handle_member_delete handle_drop
handle_member_delete-IsOwned r s owned = respond-keeps IsOwned s _ owned (
    then-Grants Owned (check_auth r s) _ (λ _.
      found-Grants Owned (find_record (member_records (path_value r (text "fabric"))) r.node s) _ _
        _ (λ rec e. drop_member-IsOwned s owned _ _)))

handle_sdn_apply-IsOwned :
    (r : Request) (s : State) → IsOwned s → IsOwned ((handle_sdn_apply r s).1)
unfolding handle_sdn_apply
handle_sdn_apply-IsOwned r s owned =
    respond-keeps IsOwned s _ owned (then-Grants Owned (check_auth r s) _ (λ _. owned))

handle_node_zones-IsOwned :
    (r : Request) (s : State) → IsOwned s → IsOwned ((handle_node_zones r s).1)
unfolding handle_node_zones
handle_node_zones-IsOwned r s owned =
    respond-keeps IsOwned s _ owned (then-Grants Owned (check_auth r s) _ (λ _. owned))

handle_zone_content-IsOwned :
    (r : Request) (s : State) → IsOwned s → IsOwned ((handle_zone_content r s).1)
unfolding handle_zone_content
handle_zone_content-IsOwned r s owned = respond-keeps IsOwned s _ owned (
    then-Grants Owned (check_auth r s) _
      (λ _. then-Grants Owned (check_zone r s) _ (λ ready. owned)))

handle_zone_bridges-IsOwned :
    (r : Request) (s : State) → IsOwned s → IsOwned ((handle_zone_bridges r s).1)
unfolding handle_zone_bridges
handle_zone_bridges-IsOwned r s owned = respond-keeps IsOwned s _ owned (
    then-Grants Owned (check_auth r s) _
      (λ _. then-Grants Owned (check_zone r s) _ (λ ready. owned)))

handle_zone_ip_vrf-IsOwned :
    (r : Request) (s : State) → IsOwned s → IsOwned ((handle_zone_ip_vrf r s).1)
unfolding handle_zone_ip_vrf
handle_zone_ip_vrf-IsOwned r s owned = respond-keeps IsOwned s _ owned (
    then-Grants Owned (check_auth r s) _
      (λ _. then-Grants Owned (check_zone r s) _ (λ ready. owned)))

handle_vnet_mac_vrf-IsOwned :
    (r : Request) (s : State) → IsOwned s → IsOwned ((handle_vnet_mac_vrf r s).1)
unfolding handle_vnet_mac_vrf
handle_vnet_mac_vrf-IsOwned r s owned = respond-keeps IsOwned s _ owned (
    then-Grants Owned (check_auth r s) _
      (λ _. then-Grants Owned (refuse_if _ _ _) _ (λ ready. owned)))

handle_fabric_interfaces-IsOwned :
    (r : Request) (s : State) → IsOwned s → IsOwned ((handle_fabric_interfaces r s).1)
unfolding handle_fabric_interfaces
handle_fabric_interfaces-IsOwned r s owned = respond-keeps IsOwned s _ owned (
    then-Grants Owned (check_auth r s) _
      (λ _. then-Grants Owned (check_fabric r s) _ (λ ready. owned)))

handle_fabric_neighbors-IsOwned :
    (r : Request) (s : State) → IsOwned s → IsOwned ((handle_fabric_neighbors r s).1)
unfolding handle_fabric_neighbors
handle_fabric_neighbors-IsOwned r s owned = respond-keeps IsOwned s _ owned (
    then-Grants Owned (check_auth r s) _
      (λ _. then-Grants Owned (check_fabric r s) _ (λ ready. owned)))

handle_fabric_routes-IsOwned :
    (r : Request) (s : State) → IsOwned s → IsOwned ((handle_fabric_routes r s).1)
unfolding handle_fabric_routes
handle_fabric_routes-IsOwned r s owned = respond-keeps IsOwned s _ owned (
    then-Grants Owned (check_auth r s) _ (λ _.
      found-Grants Owned (find_record fabric_records (path_value r (text "fabric")) s) _ _ _
        (λ rec e. owned)))

-- Whatever request for the network is served, and whatever it answers: if every member belonged to a
-- stored fabric before, every member does so after, also when a fabric is deleted.
pub serve_sdn-IsOwned :
    (route : SdnRoute) (r : Request) (s : State) → IsOwned s → IsOwned ((serve_sdn route r s).1)
unfolding serve_sdn
serve_sdn-IsOwned get_zones r s owned = handle_zone_list-IsOwned r s owned
serve_sdn-IsOwned post_zones r s owned = handle_zone_create-IsOwned r s owned
serve_sdn-IsOwned get_zone r s owned = handle_zone_get-IsOwned r s owned
serve_sdn-IsOwned put_zone r s owned = handle_zone_update-IsOwned r s owned
serve_sdn-IsOwned delete_zone r s owned = handle_zone_delete-IsOwned r s owned
serve_sdn-IsOwned get_vnets r s owned = handle_vnet_list-IsOwned r s owned
serve_sdn-IsOwned post_vnets r s owned = handle_vnet_create-IsOwned r s owned
serve_sdn-IsOwned get_vnet r s owned = handle_vnet_get-IsOwned r s owned
serve_sdn-IsOwned put_vnet r s owned = handle_vnet_update-IsOwned r s owned
serve_sdn-IsOwned delete_vnet r s owned = handle_vnet_delete-IsOwned r s owned
serve_sdn-IsOwned get_subnets r s owned = handle_subnet_list-IsOwned r s owned
serve_sdn-IsOwned post_subnets r s owned = handle_subnet_create-IsOwned r s owned
serve_sdn-IsOwned get_subnet r s owned = handle_subnet_get-IsOwned r s owned
serve_sdn-IsOwned put_subnet r s owned = handle_subnet_update-IsOwned r s owned
serve_sdn-IsOwned delete_subnet r s owned = handle_subnet_delete-IsOwned r s owned
serve_sdn-IsOwned get_fabrics r s owned = handle_fabric_list-IsOwned r s owned
serve_sdn-IsOwned post_fabrics r s owned = handle_fabric_create-IsOwned r s owned
serve_sdn-IsOwned get_fabric r s owned = handle_fabric_get-IsOwned r s owned
serve_sdn-IsOwned put_fabric r s owned = handle_fabric_update-IsOwned r s owned
serve_sdn-IsOwned delete_fabric r s owned = handle_fabric_delete-IsOwned r s owned
serve_sdn-IsOwned get_members r s owned = handle_member_list-IsOwned r s owned
serve_sdn-IsOwned post_members r s owned = handle_member_create-IsOwned r s owned
serve_sdn-IsOwned get_member r s owned = handle_member_get-IsOwned r s owned
serve_sdn-IsOwned put_member r s owned = handle_member_update-IsOwned r s owned
serve_sdn-IsOwned delete_member r s owned = handle_member_delete-IsOwned r s owned
serve_sdn-IsOwned put_sdn r s owned = handle_sdn_apply-IsOwned r s owned
serve_sdn-IsOwned get_node_zones r s owned = handle_node_zones-IsOwned r s owned
serve_sdn-IsOwned get_zone_content r s owned = handle_zone_content-IsOwned r s owned
serve_sdn-IsOwned get_zone_bridges r s owned = handle_zone_bridges-IsOwned r s owned
serve_sdn-IsOwned get_zone_ip_vrf r s owned = handle_zone_ip_vrf-IsOwned r s owned
serve_sdn-IsOwned get_vnet_mac_vrf r s owned = handle_vnet_mac_vrf-IsOwned r s owned
serve_sdn-IsOwned get_fabric_interfaces r s owned = handle_fabric_interfaces-IsOwned r s owned
serve_sdn-IsOwned get_fabric_neighbors r s owned = handle_fabric_neighbors-IsOwned r s owned
serve_sdn-IsOwned get_fabric_routes r s owned = handle_fabric_routes-IsOwned r s owned
