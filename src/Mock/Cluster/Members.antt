-- ===== src/Mock/Cluster/Members.antt =====
-- The members of a cluster along its formation: proxmox/mockpve/cluster.go.
use proxmox_go_sdk.Base.{
  Bool, not, sym, ◌≡◌, refl, ◌∙◌, ℕ, true, false, ◌||◌, List, [], ◌∷◌, ◌++◌, arith, Bool-cases, inl,
  inr, Bool,
}
use proxmox_go_sdk.Base.Text.{Text, text}
use proxmox_go_sdk.Base.Eq.{◌==◌, text_Eq, text_eq_iff}
use proxmox_go_sdk.Mock.{
  ◌>>◌, ◌>>=◌, State, Request, Response, Payload, form_get, Checked, passed, refused, refuse_if,
  respond,
}
use proxmox_go_sdk.Mock.Server.{check_auth, parse_form}
use proxmox_go_sdk.Mock.Checks.{bind-Grants, then-Grants, respond-keeps}
use proxmox_go_sdk.Mock.Store.{finished_task, finish_task, add_task}
use proxmox_go_sdk.Mock.Firewall.{answer_in}
use proxmox_go_sdk.Mock.Cluster.{
  require_fields, ClusterRoute, serve_cluster, is_member, set_queue, add_member, found_cluster,
  join_next, check_join, handle_cluster_resources, handle_cluster_status, handle_cluster_create,
  handle_cluster_join_info, handle_cluster_join, handle_cluster_config_nodes, get_cluster_resources,
  get_cluster_status, post_cluster_config, get_join, post_join, get_config_nodes,
}

-- No name twice.
abbrev pub IsDistinct : List Text → Type 0
IsDistinct [] = Unit {0}
IsDistinct (x ∷ xs) = (is_member x xs ≡ false) × IsDistinct xs

abbrev pub has_members : List Text → Bool
has_members [] = false
has_members (x ∷ xs) = true

-- The members are distinct, and there are some exactly in a cluster.
pub IsFormed : State → Type 0
IsFormed s = IsDistinct s.cluster.members × (s.cluster.clustered ≡ has_members s.cluster.members)

is_member-append :
    (x y : Text) (xs : List Text) → is_member x (xs ++ y ∷ []) ≡ (is_member x xs || (y == x))
unfolding is_member
is_member-append x y [] = ground arith
is_member-append x y (z ∷ xs) = ground (arith, is_member-append x y xs)

append-IsDistinct :
    (xs : List Text) (y : Text) → is_member y xs ≡ false → IsDistinct xs → IsDistinct (xs ++ y ∷ [])
unfolding is_member
append-IsDistinct [] y fresh d = (refl, tt)
append-IsDistinct (x ∷ xs) y fresh (fresh', d) = (
  is_member-append x y xs ∙ ground (arith, fresh, fresh', text_eq_iff y x, text_eq_iff x y),
  append-IsDistinct xs y (ground (arith, fresh)) d,
)

cluster-finished_task :
    (node kind id : Text) (clock : ℕ) (s : State)
    → ((finished_task node kind id clock s).1).cluster ≡ s.cluster
unfolding finished_task finish_task add_task
cluster-finished_task node kind id clock s = ground arith

finished_task-IsFormed :
    (node kind id : Text) (clock : ℕ) (s : State)
    → IsFormed s
    → IsFormed (finished_task node kind id clock s).1
unfolding IsFormed
finished_task-IsFormed node kind id clock s formed =
    rw (cluster-finished_task node kind id clock s) formed

has_members-append : (xs : List Text) (y : Text) → has_members (xs ++ y ∷ []) ≡ true
has_members-append [] y = refl
has_members-append (x ∷ xs) y = refl

add_member-IsFormed :
    (joined : Text) (s : State)
    → is_member joined s.cluster.members ≡ false
    → s.cluster.clustered ≡ true
    → IsFormed s
    → IsFormed (add_member joined s)
unfolding IsFormed add_member
add_member-IsFormed joined s fresh clustered formed = (
  append-IsDistinct s.cluster.members joined fresh formed.0,
  clustered ∙ sym (has_members-append s.cluster.members joined),
)

join_next-IsFormed :
    (clock : ℕ) (queue : List Text) (s : State)
    → s.cluster.clustered ≡ true
    → IsFormed s
    → IsFormed (join_next clock queue s).1
unfolding join_next set_queue IsFormed respond refuse_if
join_next-IsFormed clock [] s clustered formed = formed
join_next-IsFormed clock (joined ∷ queue) s clustered formed =
    elim (Bool-cases (is_member joined s.cluster.members)) [
      | inl old ↦ rw (old, respond, refuse_if) formed
      | inr fresh ↦
          rw (fresh, respond, refuse_if)
            (finished_task-IsFormed _ _ _ _ _
              (add_member-IsFormed joined (set_queue queue s) fresh clustered formed))
    ]

-- a chain that passes has a rest that passes
then_passed : (c rest : Checked (Unit {0})) → (c >> rest) ≡ passed tt → rest ≡ passed tt
then_passed (passed _) rest h = h
then_passed (refused code message) rest h = ground (arith, h)

bind_passed {ℓ} :
    {A : Type ℓ} (c : Checked A) (rest : A → Checked (Unit {0}))
    → (c >>= rest) ≡ passed tt
    → (a : A) × (rest a ≡ passed tt)
bind_passed (passed a) rest h = (a, h)
bind_passed (refused code message) rest h = ground (arith, h)

refuse_if_passed :
    (b : Bool) (code : ℕ) (message : Text) → refuse_if (not b) code message ≡ passed tt → b ≡ true
unfolding refuse_if
refuse_if_passed true code message h = refl
refuse_if_passed false code message h = ground (arith, h)

check_join-clustered :
    (r : Request) (s : State) → check_join r s ≡ passed tt → s.cluster.clustered ≡ true
unfolding check_join
check_join-clustered r s h =
    let (form, h') = bind_passed (parse_form r) _ (then_passed (check_auth r s) _ h) in
    refuse_if_passed s.cluster.clustered 400 _
      (then_passed (refuse_if _ _ _) _ (then_passed (require_fields _ form) _ h'))

answer_in-IsFormed {ℓ} :
    {A : Type ℓ} (s : State) (c : Checked A) (next : A → Response × State)
    → IsFormed s
    → ((a : A) → c ≡ passed a → IsFormed (next a).1)
    → IsFormed (answer_in s c next).1
unfolding answer_in
answer_in-IsFormed s (refused code message) next formed rest = formed
answer_in-IsFormed s (passed a) next formed rest = rest a refl

abbrev Held : Payload × State → Type 0
Held a = IsFormed a.1

pub found_cluster-IsFormed : (name : Text) (s : State) → IsFormed (found_cluster name s)
unfolding IsFormed found_cluster is_member
found_cluster-IsFormed name s = ((refl, tt), refl)

handle_cluster_create-IsFormed :
    (r : Request) (s : State) → IsFormed s → IsFormed (handle_cluster_create r s).1
unfolding handle_cluster_create
handle_cluster_create-IsFormed r s formed = respond-keeps IsFormed s _ formed (
    then-Grants Held (check_auth r s) _ (λ _. bind-Grants Held (parse_form r) _ (λ form _.
      then-Grants Held (refuse_if _ _ _) _ (λ _. then-Grants Held (refuse_if _ _ _) _ (λ _.
        finished_task-IsFormed _ _ _ _ _
          (found_cluster-IsFormed (form_get form (text "clustername")) s))))))

-- Whatever request of the cluster is served, and whatever it answers: the members stay distinct, and
-- there are members exactly in a cluster.
pub serve_cluster-IsFormed :
    (route : ClusterRoute) (r : Request) (s : State)
    → IsFormed s
    → IsFormed (serve_cluster route r s).1
unfolding serve_cluster handle_cluster_resources handle_cluster_status handle_cluster_join_info
    handle_cluster_join handle_cluster_config_nodes
serve_cluster-IsFormed get_cluster_resources r s formed =
    respond-keeps IsFormed s _ formed (then-Grants Held (check_auth r s) _ (λ _. formed))
serve_cluster-IsFormed get_cluster_status r s formed =
    respond-keeps IsFormed s _ formed (then-Grants Held (check_auth r s) _ (λ _. formed))
serve_cluster-IsFormed post_cluster_config r s formed = handle_cluster_create-IsFormed r s formed
serve_cluster-IsFormed get_join r s formed =
    respond-keeps IsFormed s _ formed (
      then-Grants Held (check_auth r s) _ (λ _. then-Grants Held (refuse_if _ _ _) _ (λ _. formed)))
serve_cluster-IsFormed post_join r s formed =
    answer_in-IsFormed s (check_join r s) _ formed (λ a passes.
      join_next-IsFormed r.clock s.cluster.join_queue s (check_join-clustered r s passes) formed)
serve_cluster-IsFormed get_config_nodes r s formed =
    respond-keeps IsFormed s _ formed (then-Grants Held (check_auth r s) _ (λ _. formed))
