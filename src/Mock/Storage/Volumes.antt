-- ===== src/Mock/Storage/Volumes.antt =====
-- The content of a node's storages, and its ZFS pools: proxmox/mockpve/storage.go. The multipart
-- upload is not modelled.
use proxmox_go_sdk.Base.{not, ◌&&◌, Option, none, some, List, [], ◌∷◌, ◌++◌, if◌then◌else◌, map}
use proxmox_go_sdk.Base.Eq.{◌==◌, text_Eq}
use proxmox_go_sdk.Base.Map.{Map, lookup, insert}
use proxmox_go_sdk.Base.Text.{Text, text, is_empty}
use proxmox_go_sdk.Base.Number.{ℤ, pos, itoa, atoi}
use proxmox_go_sdk.Mock.{
  State, Handler, passed, ◌>>=◌, ◌>>◌, refuse_if, found_or, respond, form_get, volume, volumes,
  volid, zfs_list, zfs_status,
}
use proxmox_go_sdk.Mock.StorageRecords.{VolRecord, ZfsRecord, ZfsListPayload}
use proxmox_go_sdk.Mock.Store.{or_empty_map, finished_task}
use proxmox_go_sdk.Mock.Server.{check_auth, parse_form}
use proxmox_go_sdk.Mock.Vm.{task_data}
use proxmox_go_sdk.Mock.Collection.{path_value}

unfoldable pub volumes_of : Text → Text → State → List VolRecord
volumes_of node storage s =
    or_empty_map (lookup storage (or_empty_map (lookup node s.storage.content)))

unfoldable pub set_volumes : Text → Text → List VolRecord → State → State
set_volumes node storage vols s = record s {
  storage = record s.storage {
    content =
        insert node (insert storage vols (or_empty_map (lookup node s.storage.content)))
          s.storage.content;
  };
}

unfoldable pub add_volume : Text → Text → Text → Text → Text → ℤ → State → State
add_volume node storage id content format size s =
    set_volumes node storage
      (volumes_of node storage s
        ++ record { volid = id; content = content; format = format; size = size; vmid = pos 0 }
          ∷ [])
      s

unfoldable pub pools_of : Text → State → Map Text ZfsRecord
pools_of node s = or_empty_map (lookup node s.storage.zfs_pools)

unfoldable pub add_zfs_pool : Text → Text → ℤ → ℤ → State → State
add_zfs_pool node name size free s = record s {
  storage = record s.storage {
    zfs_pools =
        insert node
          (insert name
            (record {
              name = name;
              size = size;
              free = free;
              health = text "ONLINE";
              state = text "ONLINE";
            })
            (pools_of node s))
          s.storage.zfs_pools;
  };
}

-- the two filters of a listing, each off where it is empty
unfoldable pub keep_volumes : Text → Text → List VolRecord → List VolRecord
keep_volumes content vmid [] = []
keep_volumes content vmid (v ∷ vols) =
    let rest = keep_volumes content vmid vols in
    if not (is_empty content) && not (v.content == content)
    then rest
    else if not (is_empty vmid) && not (vmid == itoa v.vmid)
    then rest
    else v ∷ rest

unfoldable pub handle_content_list : Handler
handle_content_list r s = respond s (do
  check_auth r s
  passed (
    volumes (
        keep_volumes (form_get r.query (text "content")) (form_get r.query (text "vmid"))
          (volumes_of r.node r.storage s)),
    s,
  ))

-- the first volume of that id
unfoldable pub find_volume : Text → List VolRecord → Option VolRecord
find_volume id [] = none
find_volume id (v ∷ vols) = let rest = find_volume id vols in if v.volid == id then some v else rest

unfoldable pub handle_volume_get : Handler
handle_volume_get r s = respond s (do
  check_auth r s
  v ←
      found_or (find_volume (path_value r (text "volid")) (volumes_of r.node r.storage s)) 404
        (text "no such volume")
  passed (volume v, s))

-- every volume of that id is given the guest's number
unfoldable pub give_vmid : Text → ℤ → List VolRecord → List VolRecord
give_vmid id vmid [] = []
give_vmid id vmid (v ∷ vols) =
    (if v.volid == id then record v { vmid = vmid } else v) ∷ give_vmid id vmid vols

unfoldable pub assign_vmid : Text → Text → Text → Option ℤ → State → State
assign_vmid node storage id none s = s
assign_vmid node storage id (some vmid) s =
    set_volumes node storage (give_vmid id vmid (volumes_of node storage s)) s

unfoldable pub handle_volume_create : Handler
handle_volume_create r s = respond s (do
  check_auth r s
  form ← parse_form r
  refuse_if (is_empty (form_get form (text "filename"))) 400 (text "missing filename")
  passed (
    volid (r.storage ++ (text ":" ++ form_get form (text "filename"))),
    assign_vmid r.node r.storage (r.storage ++ (text ":" ++ form_get form (text "filename")))
        (atoi (form_get form (text "vmid")))
        (add_volume r.node r.storage (r.storage ++ (text ":" ++ form_get form (text "filename")))
          (text "images") (form_get form (text "format")) (pos 0) s),
  ))

unfoldable pub drop_volumes : Text → List VolRecord → List VolRecord
drop_volumes id [] = []
drop_volumes id (v ∷ vols) =
    let rest = drop_volumes id vols in if v.volid == id then rest else v ∷ rest

unfoldable pub handle_volume_delete : Handler
handle_volume_delete r s = respond s (do
  check_auth r s
  v ←
      found_or (find_volume (path_value r (text "volid")) (volumes_of r.node r.storage s)) 404
        (text "no such volume")
  passed (
      task_data (
        finished_task r.node (text "imgdel") r.storage r.clock (
          set_volumes r.node r.storage
            (drop_volumes (path_value r (text "volid")) (volumes_of r.node r.storage s)) s))))

abbrev pub zfs_entry : ZfsRecord → ZfsListPayload
zfs_entry p = record { name = p.name; size = p.size; free = p.free; health = p.health }

unfoldable pub handle_zfs_list : Handler
handle_zfs_list r s =
    respond s
      (do check_auth r s; passed (zfs_list (map (λ e. zfs_entry e.1) (pools_of r.node s)), s))

unfoldable pub handle_zfs_get : Handler
handle_zfs_get r s = respond s (do
  check_auth r s
  p ←
      found_or (lookup (path_value r (text "name")) (pools_of r.node s)) 404
        (text "no such zfs pool")
  passed (zfs_status (record { name = p.name; state = p.state }), s))

unfoldable pub handle_zfs_create : Handler
handle_zfs_create r s = respond s (do
  check_auth r s
  form ← parse_form r
  refuse_if (is_empty (form_get form (text "name"))) 400 (text "missing name")
  passed (
      task_data (
        finished_task r.node (text "zfscreate") (form_get form (text "name")) r.clock
          (add_zfs_pool r.node (form_get form (text "name")) (pos 0) (pos 0) s))))
