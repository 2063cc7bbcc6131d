-- ===== src/Mock/Container/Lifecycle.antt =====
-- A container after it is created.
use proxmox_go_sdk.Base.{◌≡◌, refl, ◌&&◌, not, some, none, [], ◌∷◌, arith, if◌then◌else◌, true, ℕ}
use proxmox_go_sdk.Base.Eq.{◌==◌, text_Eq, text_eq_iff, eq_refl}
use proxmox_go_sdk.Base.Map.{lookup, insert, erase, lookup-insert}
use proxmox_go_sdk.Base.Text.{Text, text}
use proxmox_go_sdk.Base.Number.{ℤ, int_Eq, atoi, itoa}
use proxmox_go_sdk.Mock.{Request, State, VmRecord, Form, form_get, respond, found_or}
use proxmox_go_sdk.Mock.Store.{finished_task, finish_task, add_task, or_empty_map, stopped}
use proxmox_go_sdk.Mock.Server.{is_authorized, parse_form}
use proxmox_go_sdk.Mock.Vm.{apply_config_form}
use proxmox_go_sdk.Mock.Vm.Created.{labelled, lookup-new_ct_config}
use proxmox_go_sdk.Mock.{Value, string, number}
use proxmox_go_sdk.Base.Map.{Map, contains}
use proxmox_go_sdk.Mock.Vm.Lifecycle.{check_auth-passed}
use proxmox_go_sdk.Mock.Container.{
  hosted, lookup_ct, put_ct, update_ct, add_container, new_ct, handle_ct_create,
}

lookup_ct-put_ct :
    (node n : Text) (vmid i : ℤ) (rec : VmRecord) (s : State)
    → lookup_ct n i (put_ct node vmid rec s)
      ≡ (if (node == n) && (vmid == i) then some rec else lookup_ct n i s)
unfolding lookup_ct put_ct
lookup_ct-put_ct node n vmid i rec s = ground (
  arith,
  text_eq_iff node n,
  lookup-insert node n (insert vmid rec (or_empty_map (lookup node s.containers))) s.containers,
  lookup-insert vmid i rec (or_empty_map (lookup node s.containers)),
)

containers-finished_task :
    (node kind id : Text) (clock : ℕ) (s : State)
    → ((finished_task node kind id clock s).1).containers ≡ s.containers
unfolding finished_task finish_task add_task
containers-finished_task node kind id clock s = ground arith

lookup_ct-finished_task :
    (node kind id : Text) (clock : ℕ) (s : State) (n : Text) (i : ℤ)
    → lookup_ct n i (finished_task node kind id clock s).1 ≡ lookup_ct n i s
unfolding lookup_ct
lookup_ct-finished_task node kind id clock s n i =
    rw (containers-finished_task node kind id clock s) refl

-- a change made right after the record was written
lookup_ct-update_ct-put_ct :
    (change : VmRecord → VmRecord) (node n : Text) (vmid i : ℤ) (rec : VmRecord) (s : State)
    → lookup_ct n i (update_ct node vmid change (put_ct node vmid rec s))
      ≡ (if (node == n) && (vmid == i) then some (change rec) else lookup_ct n i s)
unfolding update_ct
lookup_ct-update_ct-put_ct change node n vmid i rec s =
    let written : lookup_ct node vmid (put_ct node vmid rec s) ≡ some rec =
      rw (lookup_ct-put_ct node node vmid vmid rec s, eq_refl node, eq_refl vmid) refl in
    rw
      (
        update_ct,
        written,
        lookup_ct-put_ct node n vmid i (change rec) (put_ct node vmid rec s),
        lookup_ct-put_ct node n vmid i rec s,
      )
      (ground arith)

created :
    (r : Request) (s : State) (form : Form) (id : ℤ) (n : Text) (i : ℤ)
    → is_authorized r s ≡ true
    → r.form ≡ some form
    → atoi (form_get form (text "vmid")) ≡ some id
    → lookup_ct n i (handle_ct_create r s).1 ≡ (
        if (r.node == n) && (id == i)
        then some (
            apply_config_form
              (erase (text "vmid") form)
              (new_ct r.node id (form_get form (text "hostname")) stopped))
        else lookup_ct n i s)
unfolding handle_ct_create respond parse_form found_or add_container
created r s form id n i allowed parsed at_id =
    let name : Text = form_get form (text "hostname") in
    let change : VmRecord → VmRecord = apply_config_form (erase (text "vmid") form) in
    rw
      (
        check_auth-passed r s allowed,
        parsed,
        at_id,
        lookup_ct-finished_task r.node (text "vzcreate") (itoa id) r.clock
            (update_ct r.node id change (add_container r.node id name stopped s)) n i,
      )
      (lookup_ct-update_ct-put_ct change r.node n id i (new_ct r.node id name stopped) s)

hosted-labelled : (name : Text) → hosted name ≡ labelled (text "hostname") name
hosted-labelled [] = refl
hosted-labelled (c ∷ name) = refl

-- An authorized request whose form has a number as `vmid`. The new container is stored under it at the
-- request's node, stopped, with the form's hostname as its name and without snapshots, and every other
-- container is as before. Its config holds the first value of each key that the form names, `vmid` and
-- `delete` aside, as an int where that text is one and as the text otherwise, and nothing else.
pub lookup_ct-handle_ct_create :
    (r : Request) (s : State) (form : Form) (id : ℤ) (n : Text) (i : ℤ) (k : Text)
    → is_authorized r s ≡ true
    → r.form ≡ some form
    → atoi (form_get form (text "vmid")) ≡ some id
    → (config : Map Text Value) × (lookup_ct n i (handle_ct_create r s).1 ≡ (
        if (r.node == n) && (id == i)
        then some (record {
          vmid = id;
          node = r.node;
          name = form_get form (text "hostname");
          status = text "stopped";
          config = config;
          snapshots = [];
          agent = none;
        })
        else lookup_ct n i s))
      × (lookup k config ≡ (
          if contains k form && (not (k == text "delete") && not (k == text "vmid"))
          then some (elim (atoi (form_get form k)) [
            | none ↦ string (form_get form k)
            | some m ↦ number m
          ])
          else none))
lookup_ct-handle_ct_create r s form id n i k allowed parsed at_id = (
  (apply_config_form (erase (text "vmid") form)
      (new_ct r.node id (form_get form (text "hostname")) stopped)).config,
  unfold apply_config_form in created r s form id n i allowed parsed at_id,
  lookup-new_ct_config k form _ (hosted-labelled (form_get form (text "hostname"))),
)
