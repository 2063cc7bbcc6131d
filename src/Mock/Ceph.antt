-- ===== src/Mock/Ceph.antt =====
-- Ceph's pools and disks: proxmox/mockpve/ceph.go.
use proxmox_go_sdk.Base.{◌≡◌, refl, Option, none, some, List, [], ◌∷◌, ◌++◌}
use proxmox_go_sdk.Base.Eq.{text_Eq}
use proxmox_go_sdk.Base.Map.{Map, lookup, insert}
use proxmox_go_sdk.Base.Text.{Text, text, is_empty}
use proxmox_go_sdk.Base.Number.{ℤ, pos, negsuc, itoa}
use proxmox_go_sdk.Mock.{
  State, Request, Handler, passed, ◌>>=◌, ◌>>◌, refuse_if, found_or, respond, form_get, ceph_pool,
  ceph_pools, osd_tree, ceph_status, raw_text,
}
use proxmox_go_sdk.Mock.CephRecords.{
  CephPool, CephOsd, OsdNode, OsdNodes, OsdTree, osd_node, no_nodes, also,
}
use proxmox_go_sdk.Mock.Store.{finished_task}
use proxmox_go_sdk.Mock.Store.Reads.{vms-finished_task}
use proxmox_go_sdk.Mock.Server.{check_auth, parse_form}
use proxmox_go_sdk.Mock.Vm.{task_data}
use proxmox_go_sdk.Mock.Guests.{Same, checked-keeps, parsed-keeps, found-keeps, unless-keeps}
use proxmox_go_sdk.Mock.Collection.{
  Collection, path_value, find_record, put_record, drop_record, handle_all, handle_one,
}
use proxmox_go_sdk.Mock.Collection.Keeps.{handle_all-keeps, handle_one-keeps}

abbrev pub pool_records : Collection CephPool
pool_records = record {
  entries = λ s. s.ceph.pools;
  set_entries = λ m s. record s { ceph = record s.ceph { pools = m } };
  missing = text "no such ceph pool";
  payload = ceph_pool;
  entries_set = λ m s. refl;
}

abbrev pub new_pool : Text → CephPool
new_pool name = record {
  name = name;
  size = pos 3;
  min_size = pos 2;
  pg_num = pos 128;
  kind = text "replicated";
}

unfoldable pub add_ceph_pool : Text → State → State
add_ceph_pool name = put_record pool_records name (new_pool name)

unfoldable pub add_ceph_osd : ℤ → Text → State → State
add_ceph_osd id host s = record s {
  ceph = record s.ceph { osds = s.ceph.osds ++ record { id = id; host = host } ∷ [] };
}

unfoldable pub handle_pool_list : Handler
handle_pool_list = handle_all pool_records (λ rec. rec) ceph_pools

unfoldable pub handle_pool_get : Handler
handle_pool_get r = handle_one pool_records (path_value r (text "name")) r

unfoldable pub handle_pool_create : Handler
handle_pool_create r s = respond s (do
  check_auth r s
  form ← parse_form r
  refuse_if (is_empty (form_get form (text "name"))) 400 (text "missing name")
  passed (
      task_data (
        finished_task r.node (text "cephcreatepool") (form_get form (text "name")) r.clock
          (add_ceph_pool (form_get form (text "name")) s))))

unfoldable pub handle_pool_delete : Handler
handle_pool_delete r s = respond s (do
  check_auth r s
  rec ←
      found_or (find_record pool_records (path_value r (text "name")) s) 404
        (text "no such ceph pool")
  passed (
      task_data (
        finished_task r.node (text "cephdestroypool") (path_value r (text "name")) r.clock
          (drop_record pool_records (path_value r (text "name")) s))))

unfoldable pub append_node : OsdNodes → OsdNode → OsdNodes
append_node no_nodes node = also node no_nodes
append_node (also first rest) node = also first (append_node rest node)

abbrev pub or_no_nodes : Option OsdNodes → OsdNodes
or_no_nodes none = no_nodes
or_no_nodes (some nodes) = nodes

abbrev pub osd_leaf : CephOsd → OsdNode
osd_leaf osd = osd_node osd.id (text "osd." ++ itoa osd.id) (text "osd") (text "up") no_nodes

-- each host's disks, the hosts in the order of their first disk
unfoldable pub by_host : List CephOsd → Map Text OsdNodes → Map Text OsdNodes
by_host [] hosts = hosts
by_host (osd ∷ osds) hosts =
    by_host osds
      (insert osd.host (append_node (or_no_nodes (lookup osd.host hosts)) (osd_leaf osd)) hosts)

unfoldable pub host_nodes : Map Text OsdNodes → OsdNodes
host_nodes [] = no_nodes
host_nodes ((host, disks) ∷ hosts) =
    also (osd_node (negsuc 0) host (text "host") [] disks) (host_nodes hosts)

-- `buildOSDTreeLocked`
unfoldable pub build_osd_tree : List CephOsd → OsdTree
build_osd_tree osds = record {
  flags = text "sortbitwise";
  root = osd_node (negsuc 0) (text "default") (text "root") [] (host_nodes (by_host osds []));
}

unfoldable pub handle_osd_list : Handler
handle_osd_list r s =
    respond s (do check_auth r s; passed (osd_tree (build_osd_tree s.ceph.osds), s))

unfoldable pub handle_osd_create : Handler
handle_osd_create r s = respond s (do
  check_auth r s
  form ← parse_form r
  refuse_if (is_empty (form_get form (text "dev"))) 400 (text "missing dev")
  passed (task_data (finished_task r.node (text "cephcreateosd") (text "osd") r.clock s)))

unfoldable pub handle_osd_destroy : Handler
handle_osd_destroy r s = respond s (do
  check_auth r s
  passed (
      task_data
        (finished_task r.node (text "cephdestroyosd") (path_value r (text "osdid")) r.clock s)))

unfoldable pub handle_ceph_status : Handler
handle_ceph_status r s =
    respond s (do check_auth r s; passed (ceph_status (text "mock-fsid") (text "HEALTH_OK"), s))

unfoldable pub handle_ceph_config : Handler
handle_ceph_config r s =
    respond s (do check_auth r s; passed (raw_text (text "[global]\n\tfsid = mock-fsid\n"), s))

pub data CephRoute : Type 0 where
  get_ceph_pools : CephRoute
  post_ceph_pools : CephRoute
  get_ceph_pool : CephRoute
  delete_ceph_pool : CephRoute
  get_osds : CephRoute
  post_osds : CephRoute
  delete_osd : CephRoute
  get_ceph_status : CephRoute
  get_ceph_config : CephRoute

unfoldable pub serve_ceph : CephRoute → Handler
serve_ceph get_ceph_pools = handle_pool_list
serve_ceph post_ceph_pools = handle_pool_create
serve_ceph get_ceph_pool = handle_pool_get
serve_ceph delete_ceph_pool = handle_pool_delete
serve_ceph get_osds = handle_osd_list
serve_ceph post_osds = handle_osd_create
serve_ceph delete_osd = handle_osd_destroy
serve_ceph get_ceph_status = handle_ceph_status
serve_ceph get_ceph_config = handle_ceph_config

-- Whatever request for Ceph is served, every QEMU guest is as before.
pub vms-serve_ceph :
    (route : CephRoute) (r : Request) (s : State) → ((serve_ceph route r s).1).vms ≡ s.vms
unfolding serve_ceph handle_pool_list handle_pool_get handle_pool_create handle_pool_delete
    handle_osd_list handle_osd_create handle_osd_destroy handle_ceph_status handle_ceph_config
    add_ceph_pool put_record drop_record
vms-serve_ceph get_ceph_pools r s = handle_all-keeps pool_records (Same s) (λ m t e. e) r s refl _ _
vms-serve_ceph post_ceph_pools r s =
    parsed-keeps r s _ (λ form. unless-keeps s (refuse_if _ _ _) _ (vms-finished_task _ _ _ _ _))
vms-serve_ceph get_ceph_pool r s = handle_one-keeps pool_records (Same s) (λ m t e. e) r s refl _
vms-serve_ceph delete_ceph_pool r s =
    checked-keeps r s _ (found-keeps s (found_or _ _ _) _ (λ rec. vms-finished_task _ _ _ _ _))
vms-serve_ceph get_osds r s = checked-keeps r s _ refl
vms-serve_ceph post_osds r s =
    parsed-keeps r s _ (λ form. unless-keeps s (refuse_if _ _ _) _ (vms-finished_task _ _ _ _ _))
vms-serve_ceph delete_osd r s = checked-keeps r s _ (vms-finished_task _ _ _ _ _)
vms-serve_ceph get_ceph_status r s = checked-keeps r s _ refl
vms-serve_ceph get_ceph_config r s = checked-keeps r s _ refl
