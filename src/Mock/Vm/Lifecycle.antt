-- ===== src/Mock/Vm/Lifecycle.antt =====
-- A guest along its life: created, configured, converted, moved, deleted.
use proxmox_go_sdk.Base.{
  if◌then◌else◌, ◌&&◌, Bool-cases, inl, inr, ◌≡◌, refl, true, false, none, some, arith, ℕ, [], not,
}
use proxmox_go_sdk.Base.Eq.{◌==◌, text_Eq, eq_refl}
use proxmox_go_sdk.Base.Map.{insert, erase, Map, lookup, contains}
use proxmox_go_sdk.Base.Text.{Text, text, is_empty}
use proxmox_go_sdk.Base.Number.{ℤ, int_Eq, itoa, atoi, pos}
use proxmox_go_sdk.Mock.{
  data_of, error_of, upid, passed, Request, State, VmRecord, Form, form_get, respond, number,
  found_or, refuse_if, Value, string,
}
use proxmox_go_sdk.Mock.Store.{
  synth_upid, lookup_vm, put_vm, delete_vm, update_vm, add_vm, new_vm, finished_task, stopped,
}
use proxmox_go_sdk.Mock.Store.Reads.{lookup_vm-put_vm, lookup_vm-delete_vm, vms-finished_task}
use proxmox_go_sdk.Mock.Server.{is_authorized, check_auth, parse_form}
use proxmox_go_sdk.Mock.Vm.Created.{lookup-new_vm_config, named-labelled}
use proxmox_go_sdk.Mock.Vm.{
  path_vmid, find_vm, handle_create, handle_migrate, handle_template, apply_config_form,
}
use proxmox_go_sdk.Base.Eq.{text_eq}

pub lookup_vm-finished_task :
    (node kind id : Text) (clock : ℕ) (s : State) (n : Text) (i : ℤ)
    → lookup_vm n i (finished_task node kind id clock s).1 ≡ lookup_vm n i s
unfolding lookup_vm
lookup_vm-finished_task node kind id clock s n i = rw (vms-finished_task node kind id clock s) refl

-- a change made right after the record was written
lookup_vm-update_vm-put_vm :
    (change : VmRecord → VmRecord) (node n : Text) (vmid i : ℤ) (rec : VmRecord) (s : State)
    → lookup_vm n i (update_vm node vmid change (put_vm node vmid rec s))
      ≡ (if (node == n) && (vmid == i) then some (change rec) else lookup_vm n i s)
unfolding update_vm lookup_vm text_eq
lookup_vm-update_vm-put_vm change node n vmid i rec s =
    let written : lookup_vm node vmid (put_vm node vmid rec s) ≡ some rec =
      rw (lookup_vm-put_vm node node vmid vmid rec s, eq_refl node, eq_refl vmid) refl in
    rw
      (
        update_vm,
        written,
        lookup_vm-put_vm node n vmid i (change rec) (put_vm node vmid rec s),
        lookup_vm-put_vm node n vmid i rec s,
      )
      (ground arith)

module _ (r : Request) (s : State) (allowed : is_authorized r s ≡ true) where
  -- the checks that every handler begins with, when they pass
  pub check_auth-passed : check_auth r s ≡ passed tt
  unfolding check_auth refuse_if
  check_auth-passed = rw allowed refl

  module _ (vmid : ℤ) (rec : VmRecord) (at_id : atoi r.vmid ≡ some vmid)
      (known : lookup_vm r.node vmid s ≡ some rec) where
    -- An authorized request with a target for a guest of its node. A guest that is migrated to
    -- another node is found there, with that node as its own, and no longer where it was; a guest
    -- that is migrated to its own node is lost. All other guests are as before.
    pub lookup_vm-handle_migrate :
        (form : Form) (n : Text) (i : ℤ)
        → r.form ≡ some form
        → is_empty (form_get form (text "target")) ≡ false
        → lookup_vm n i (handle_migrate r s).1 ≡ (
            if (r.node == n) && (vmid == i)
            then none
            else if (form_get form (text "target") == n) && (vmid == i)
            then some (record rec { node = form_get form (text "target") })
            else lookup_vm n i s)
    unfolding handle_migrate respond path_vmid parse_form find_vm found_or refuse_if
    lookup_vm-handle_migrate form n i parsed given =
        let target : Text = form_get form (text "target") in
        let moved : State = put_vm target vmid (record rec { node = target }) s in
        rw
          (
            handle_migrate,
            check_auth-passed,
            at_id,
            parsed,
            given,
            known,
            lookup_vm-finished_task r.node (text "qmigrate") (itoa vmid) r.clock
                (delete_vm r.node vmid moved) n i,
            lookup_vm-delete_vm r.node n vmid i moved,
            lookup_vm-put_vm target n vmid i (record rec { node = target }) s,
          )
          refl

    -- An authorized request for a guest of its node. If the guest is stopped, the answer is a
    -- task, and its config then has `template` 1; otherwise the request is refused with 400 and
    -- the guest is as before. No other guest changes.
    pub lookup_vm-handle_template :
        (n : Text) (i : ℤ)
        → ((handle_template r s).0 ≡ (
            if rec.status == stopped
            then data_of (upid (synth_upid r.node (text "qmtemplate") (itoa vmid) r.clock))
            else error_of 400 (text "you can't convert a VM to template if the VM is running")))
          × (lookup_vm n i (handle_template r s).1 ≡ (
              if (rec.status == stopped) && ((r.node == n) && (vmid == i))
              then some
                  (record rec { config = insert (text "template") (number (pos 1)) rec.config })
              else lookup_vm n i s))
    unfolding handle_template respond path_vmid find_vm found_or refuse_if finished_task synth_upid
    lookup_vm-handle_template n i =
        let after : VmRecord = record rec {
          config = insert (text "template") (number (pos 1)) rec.config;
        } in
        elim (Bool-cases (rec.status == stopped)) [
          | inl h ↦ (
            rw (check_auth-passed, at_id, known, h, finished_task) refl,
            rw
                (
                  check_auth-passed,
                  at_id,
                  known,
                  h,
                  lookup_vm-finished_task r.node (text "qmtemplate") (itoa vmid) r.clock
                      (put_vm r.node vmid after s) n i,
                  lookup_vm-put_vm r.node n vmid i after s,
                )
                refl,
          )
          | inr h ↦ (
            rw (check_auth-passed, at_id, known, h) refl,
            rw (check_auth-passed, at_id, known, h) refl,
          )
        ]

  created :
      (form : Form) (id : ℤ) (n : Text) (i : ℤ)
      → r.form ≡ some form
      → atoi (form_get form (text "vmid")) ≡ some id
      → lookup_vm n i (handle_create r s).1 ≡ (
          if (r.node == n) && (id == i)
          then some (
              apply_config_form
                (erase (text "vmid") form)
                (new_vm r.node id (form_get form (text "name")) stopped))
          else lookup_vm n i s)
  unfolding handle_create respond parse_form found_or add_vm
  created form id n i parsed at_id =
      let name : Text = form_get form (text "name") in
      let change : VmRecord → VmRecord = apply_config_form (erase (text "vmid") form) in
      rw
        (
          check_auth-passed,
          parsed,
          at_id,
          lookup_vm-finished_task r.node (text "qmcreate") (form_get form (text "vmid")) r.clock
              (update_vm r.node id change (add_vm r.node id name stopped s)) n i,
        )
        (lookup_vm-update_vm-put_vm change r.node n id i (new_vm r.node id name stopped) s)

  -- An authorized request whose form has a number as `vmid`. The new guest is stored under it at the
  -- request's node, stopped, with the form's name and without snapshots or an agent, and every other
  -- guest is as before. Its config holds the first value of each key that the form names, `vmid` and
  -- `delete` aside, as an int where that text is one and as the text otherwise, and nothing else.
  pub lookup_vm-handle_create :
      (form : Form) (id : ℤ) (n : Text) (i : ℤ) (k : Text)
      → r.form ≡ some form
      → atoi (form_get form (text "vmid")) ≡ some id
      → (config : Map Text Value) × (lookup_vm n i (handle_create r s).1 ≡ (
          if (r.node == n) && (id == i)
          then some (record {
            vmid = id;
            node = r.node;
            name = form_get form (text "name");
            status = text "stopped";
            config = config;
            snapshots = [];
            agent = none;
          })
          else lookup_vm n i s))
        × (lookup k config ≡ (
            if contains k form && (not (k == text "delete") && not (k == text "vmid"))
            then some (elim (atoi (form_get form k)) [
              | none ↦ string (form_get form k)
              | some m ↦ number m
            ])
            else none))
  lookup_vm-handle_create form id n i k parsed at_id = (
    (apply_config_form (erase (text "vmid") form)
        (new_vm r.node id (form_get form (text "name")) stopped)).config,
    unfold apply_config_form in created form id n i parsed at_id,
    lookup-new_vm_config k form _ (named-labelled (form_get form (text "name"))),
  )
