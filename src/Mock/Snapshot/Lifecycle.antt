-- ===== src/Mock/Snapshot/Lifecycle.antt =====
-- A snapshot that is created can be rolled back to; one that is deleted cannot.
use proxmox_go_sdk.Base.{
  Option-cases, inl, inr, Bool-cases, if◌then◌else◌, ◌≡◌, refl, true, false, some, ◌||◌, Bool-cases,
  inl, inr,
}
use proxmox_go_sdk.Base.Eq.{◌==◌, text_Eq, eq_refl}
use proxmox_go_sdk.Base.Map.{insert, lookup, lookup-insert, lookup-erase, contains}
use proxmox_go_sdk.Base.Text.{Text, text, is_empty}
use proxmox_go_sdk.Base.Number.{ℤ, int_Eq, itoa, atoi}
use proxmox_go_sdk.Mock.{
  Request, State, VmRecord, Form, form_get, respond, data_of, error_of, upid, found_or, refuse_if,
}
use proxmox_go_sdk.Mock.Store.{lookup_vm, put_vm, update_vm, finished_task, synth_upid}
use proxmox_go_sdk.Mock.Store.Reads.{lookup_vm-put_vm}
use proxmox_go_sdk.Mock.Server.{is_authorized, parse_form}
use proxmox_go_sdk.Mock.Vm.{path_vmid, find_vm}
use proxmox_go_sdk.Mock.Vm.Lifecycle.{check_auth-passed, lookup_vm-finished_task}
use proxmox_go_sdk.Mock.Snapshot.{
  new_snapshot, handle_snapshot_create, handle_snapshot_delete, handle_snapshot_rollback,
  snapshot_target, drop_snapshot,
}

module _ (r : Request) (s : State) (allowed : is_authorized r s ≡ true) (vmid : ℤ) (rec : VmRecord)
    (at_id : atoi r.vmid ≡ some vmid) (known : lookup_vm r.node vmid s ≡ some rec) where
  -- the guest after the request
  vm-handle_snapshot_create :
      (form : Form)
      → r.form ≡ some form
      → is_empty (form_get form (text "snapname")) ≡ false
      → lookup_vm r.node vmid (handle_snapshot_create r s).1
        ≡ some (record rec {
          snapshots =
              insert
                (form_get form (text "snapname"))
                (new_snapshot form (form_get form (text "snapname")))
                rec.snapshots;
        })
  unfolding handle_snapshot_create respond path_vmid parse_form find_vm found_or refuse_if
  vm-handle_snapshot_create form parsed given =
      let name : Text = form_get form (text "snapname") in
      let after : VmRecord = record rec {
        snapshots = insert name (new_snapshot form name) rec.snapshots;
      } in
      rw
        (
          check_auth-passed r s allowed,
          at_id,
          parsed,
          given,
          known,
          lookup_vm-finished_task r.node (text "qmsnapshot") (itoa vmid) r.clock
              (put_vm r.node vmid after s) r.node vmid,
          lookup_vm-put_vm r.node r.node vmid vmid after s,
          eq_refl r.node,
          eq_refl vmid,
        )
        refl

  -- An authorized request with a name for a guest of its node. After the snapshot is created, an
  -- authorized rollback on that guest is accepted, with the task it started, exactly when it names
  -- the new snapshot or one that the guest had before, and answered 404 otherwise.
  pub rollback-handle_snapshot_create :
      (form : Form) (q : Request)
      → r.form ≡ some form
      → is_empty (form_get form (text "snapname")) ≡ false
      → q.node ≡ r.node
      → q.vmid ≡ r.vmid
      → is_authorized q (handle_snapshot_create r s).1 ≡ true
      → (handle_snapshot_rollback q (handle_snapshot_create r s).1).0 ≡ (
          if (form_get form (text "snapname") == q.snap) || contains q.snap rec.snapshots
          then data_of (upid (synth_upid r.node (text "qmrollback") (itoa vmid) q.clock))
          else error_of 404 (text "no such snapshot"))
  unfolding handle_snapshot_rollback respond snapshot_target path_vmid found_or refuse_if
      finished_task
  rollback-handle_snapshot_create form q parsed given same_node same_vmid allowed_q =
      let t : State = (handle_snapshot_create r s).1 in
      let name : Text = form_get form (text "snapname") in
      elim (Bool-cases (name == q.snap)) [
        | inl h ↦
            rw
              (
                handle_snapshot_rollback,
                check_auth-passed q t allowed_q,
                snapshot_target,
                same_vmid,
                at_id,
                same_node,
                vm-handle_snapshot_create form parsed given,
                lookup-insert name q.snap (new_snapshot form name) rec.snapshots,
                h,
              )
              refl
        | inr h ↦ elim (Option-cases (lookup q.snap rec.snapshots)) [
          | inl e ↦
              rw
                (
                  handle_snapshot_rollback,
                  check_auth-passed q t allowed_q,
                  snapshot_target,
                  same_vmid,
                  at_id,
                  same_node,
                  vm-handle_snapshot_create form parsed given,
                  lookup-insert name q.snap (new_snapshot form name) rec.snapshots,
                  h,
                  e,
                )
                refl
          | inr (snap, e) ↦
              rw
                (
                  handle_snapshot_rollback,
                  check_auth-passed q t allowed_q,
                  snapshot_target,
                  same_vmid,
                  at_id,
                  same_node,
                  vm-handle_snapshot_create form parsed given,
                  lookup-insert name q.snap (new_snapshot form name) rec.snapshots,
                  h,
                  e,
                )
                refl
        ]
      ]

  vm-handle_snapshot_delete :
      contains r.snap rec.snapshots ≡ true
      → lookup_vm r.node vmid (handle_snapshot_delete r s).1 ≡ some (drop_snapshot r.snap rec)
  unfolding handle_snapshot_delete respond snapshot_target path_vmid found_or refuse_if update_vm
  vm-handle_snapshot_delete there =
      rw
        (
          check_auth-passed r s allowed,
          at_id,
          known,
          there,
          lookup_vm-finished_task r.node (text "qmdelsnapshot") (itoa vmid) r.clock
              (update_vm r.node vmid (drop_snapshot r.snap) s) r.node vmid,
          update_vm,
          known,
          lookup_vm-put_vm r.node r.node vmid vmid (drop_snapshot r.snap rec) s,
          eq_refl r.node,
          eq_refl vmid,
        )
        refl

  -- An authorized request for a snapshot that the guest has. After it is deleted, an authorized
  -- rollback to it is answered 404.
  pub rollback-handle_snapshot_delete :
      (q : Request)
      → contains r.snap rec.snapshots ≡ true
      → q.node ≡ r.node
      → q.vmid ≡ r.vmid
      → q.snap ≡ r.snap
      → is_authorized q (handle_snapshot_delete r s).1 ≡ true
      → (handle_snapshot_rollback q (handle_snapshot_delete r s).1).0
        ≡ error_of 404 (text "no such snapshot")
  unfolding handle_snapshot_rollback respond snapshot_target path_vmid found_or refuse_if
  rollback-handle_snapshot_delete q there same_node same_vmid same_snap allowed_q =
      let t : State = (handle_snapshot_delete r s).1 in
      rw
        (
          handle_snapshot_rollback,
          check_auth-passed q t allowed_q,
          snapshot_target,
          same_vmid,
          at_id,
          same_node,
          same_snap,
          vm-handle_snapshot_delete there,
          lookup-erase r.snap r.snap rec.snapshots,
          eq_refl r.snap,
        )
        refl
