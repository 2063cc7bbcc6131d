-- ===== src/Mock/Cluster/Isolation.antt =====
-- The routes of proxmox/mockpve/cluster.go leave the guests alone.
use proxmox_go_sdk.Base.{◌≡◌, refl, [], ◌∷◌, ℕ, List, Bool-cases, inl, inr}
use proxmox_go_sdk.Base.Text.{Text}
use proxmox_go_sdk.Mock.{State, Request, refuse_if, respond}
use proxmox_go_sdk.Mock.Store.Reads.{vms-finished_task}
use proxmox_go_sdk.Mock.Guests.{Same, checked-keeps, parsed-keeps, unless-keeps}
use proxmox_go_sdk.Mock.Firewall.Routes.{answer_in-keeps}
use proxmox_go_sdk.Mock.Cluster.{
  ClusterRoute, serve_cluster, is_member, set_queue, add_member, found_cluster, join_next,
  check_join, handle_cluster_resources, handle_cluster_status, handle_cluster_create,
  handle_cluster_join_info, handle_cluster_join, handle_cluster_config_nodes, get_cluster_resources,
  get_cluster_status, post_cluster_config, get_join, post_join, get_config_nodes,
}

vms-join_next : (clock : ℕ) (queue : List Text) (s : State) → Same s (join_next clock queue s).1
unfolding join_next set_queue respond refuse_if add_member
vms-join_next clock [] s = refl
vms-join_next clock (joined ∷ queue) s = elim (Bool-cases (is_member joined s.cluster.members)) [
  | inl old ↦ rw (old, respond, refuse_if) refl
  | inr fresh ↦ rw (fresh, respond, refuse_if, add_member) (vms-finished_task _ _ _ _ _)
]

-- Whatever request of the cluster is served, every QEMU guest is as before.
pub vms-serve_cluster :
    (route : ClusterRoute) (r : Request) (s : State) → ((serve_cluster route r s).1).vms ≡ s.vms
unfolding serve_cluster handle_cluster_resources handle_cluster_status handle_cluster_create
    handle_cluster_join_info handle_cluster_join handle_cluster_config_nodes found_cluster
vms-serve_cluster get_cluster_resources r s = checked-keeps r s _ refl
vms-serve_cluster get_cluster_status r s = checked-keeps r s _ refl
vms-serve_cluster post_cluster_config r s = parsed-keeps r s _ (λ form.
    unless-keeps s (refuse_if _ _ _) _
      (unless-keeps s (refuse_if _ _ _) _ (vms-finished_task _ _ _ _ _)))
vms-serve_cluster get_join r s = checked-keeps r s _ (unless-keeps s (refuse_if _ _ _) _ refl)
vms-serve_cluster post_join r s =
    answer_in-keeps s (check_join r s) _ (λ _. vms-join_next r.clock s.cluster.join_queue s)
vms-serve_cluster get_config_nodes r s = checked-keeps r s _ refl
