-- ===== src/Mock/Cluster/Tests.antt =====
-- A cluster that a node joins, and joins again.
use proxmox_go_sdk.Base.{◌≡◌, refl, some, none, [], ◌∷◌}
use proxmox_go_sdk.Base.Eq.{text_Eq, text_eq}
use proxmox_go_sdk.Base.Text.{text, cut_prefix, contains_text}
use proxmox_go_sdk.Mock.{Request, Form, State}
use proxmox_go_sdk.Mock.Store.{new}
use proxmox_go_sdk.Mock.Server.{has_token, check_auth, is_authorized, parse_form}
use proxmox_go_sdk.Mock.{refuse_if, found_or, form_get, respond}
use proxmox_go_sdk.Base.Map.{lookup, insert}
use proxmox_go_sdk.Mock.Firewall.{answer_in}
use proxmox_go_sdk.Mock.Store.{finished_task, finish_task, add_task, lookup_task}
use proxmox_go_sdk.Mock.Cluster.{
  handle_cluster_join, check_join, require_fields, join_next, set_queue, is_member, add_member,
  cluster_self,
}
use proxmox_go_sdk.Mock.Cluster.{
  found_cluster, queue_cluster_join, serve_cluster, post_join, cluster_fingerprint,
}
use proxmox_go_sdk.Mock.Cluster.Members.{IsFormed, found_cluster-IsFormed, serve_cluster-IsFormed}
use proxmox_go_sdk.Mock.Store.{synth_upid}
use proxmox_go_sdk.Base.Number.{format_nat}

abbrev joining : Form
joining =
    (text "hostname", text "10.0.0.1" ∷ [])
    ∷ (text "password", text "secret" ∷ [])
    ∷ (text "fingerprint", cluster_fingerprint ∷ [])
    ∷ []

abbrev request : Request
request = record {
  authorization = text "PVEAPIToken=root@pam!ci=x";
  cookie = none;
  node = [];
  vmid = [];
  snap = [];
  upid = [];
  storage = [];
  path = [];
  query = [];
  form = some joining;
  clock = 255;
}

abbrev start : State
start = found_cluster (text "lab") (queue_cluster_join (text "pve2") new)

joins : (serve_cluster post_join request start).1.cluster.members ≡ text "pve" ∷ text "pve2" ∷ []
unfolding serve_cluster handle_cluster_join answer_in check_join check_auth is_authorized has_token
    cut_prefix contains_text refuse_if found_or parse_form require_fields form_get lookup text_eq
    join_next set_queue respond is_member finished_task finish_task add_task add_member
    found_cluster cluster_self queue_cluster_join lookup_task insert synth_upid format_nat
joins = refl

serve_cluster-IsFormed_example : IsFormed (serve_cluster post_join request start).1
serve_cluster-IsFormed_example =
    serve_cluster-IsFormed post_join request start
      (found_cluster-IsFormed (text "lab") (queue_cluster_join (text "pve2") new))
