-- ===== src/Mock/Sdn/Tests.antt =====
-- A fabric with a member, deleted.
use proxmox_go_sdk.Base.{none, [], ◌∷◌, arith}
use proxmox_go_sdk.Base.Eq.{text_Eq}
use proxmox_go_sdk.Base.Map.{lookup, insert}
use proxmox_go_sdk.Base.Text.{text}
use proxmox_go_sdk.Mock.{State, Request}
use proxmox_go_sdk.Mock.Store.{new}
use proxmox_go_sdk.Mock.Collection.{put_record}
use proxmox_go_sdk.Mock.Sdn.{add_fabric}
use proxmox_go_sdk.Mock.Sdn.FabricNodes.{add_fabric_node}
use proxmox_go_sdk.Mock.Sdn.Members.{IsOwned}
use proxmox_go_sdk.Mock.Sdn.Routes.{serve_sdn, delete_fabric}
use proxmox_go_sdk.Mock.Sdn.Owned.{serve_sdn-IsOwned}

abbrev start : State
start = add_fabric_node (text "f") (text "pve") (add_fabric (text "f") (text "openfabric") new)

abbrev deletion : Request
deletion = record {
  authorization = text "PVEAPIToken=root@pam!ci=x";
  cookie = none;
  node = text "pve";
  vmid = [];
  snap = [];
  upid = [];
  storage = [];
  path = (text "fabric", text "f") ∷ [];
  query = [];
  form = none;
  clock = 255;
}

start-IsOwned : IsOwned start
unfolding add_fabric_node add_fabric put_record insert lookup
start-IsOwned f node rec h = ground arith

serve_sdn-IsOwned_example : IsOwned (serve_sdn delete_fabric deletion start).1
serve_sdn-IsOwned_example = serve_sdn-IsOwned delete_fabric deletion start start-IsOwned
