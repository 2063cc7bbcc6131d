-- ===== src/Mock/Routes/Filed.antt =====
-- The invariant of the store of guests, kept by every route of the server.
use proxmox_go_sdk.Base.{◌≡◌, sym, ◌∙◌, some, arith, Option-cases, inl, inr, ℕ}
use proxmox_go_sdk.Base.Eq.{text_Eq, text_eq_iff}
use proxmox_go_sdk.Base.Text.{Text}
use proxmox_go_sdk.Base.Number.{int_eq_iff, ℤ, int_Eq}
use proxmox_go_sdk.Mock.{State, VmRecord}
use proxmox_go_sdk.Mock.Store.{lookup_vm, put_vm, delete_vm, update_vm, finished_task}
use proxmox_go_sdk.Mock.Store.Reads.{lookup_vm-put_vm, lookup_vm-delete_vm, vms-finished_task}

-- Every record stands under its own node and number.
unfoldable pub IsFiled : State → Type 0
IsFiled s =
    (n : Text) (i : ℤ) (rec : VmRecord)
    → lookup_vm n i s ≡ some rec
    → (rec.node ≡ n) × (rec.vmid ≡ i)

module _ (node : Text) (vmid : ℤ) (s : State) (filed : IsFiled s) where
  pub put_vm-IsFiled :
      (rec : VmRecord) → rec.node ≡ node → rec.vmid ≡ vmid → IsFiled (put_vm node vmid rec s)
  unfolding IsFiled
  put_vm-IsFiled rec at_node at_id n i found h = ground (
    arith,
    sym (lookup_vm-put_vm node n vmid i rec s) ∙ h,
    filed n i found,
    text_eq_iff node n,
    int_eq_iff vmid i,
    at_node,
    at_id,
  )

  pub delete_vm-IsFiled : IsFiled (delete_vm node vmid s)
  unfolding IsFiled
  delete_vm-IsFiled n i found h =
      ground (arith, sym (lookup_vm-delete_vm node n vmid i s) ∙ h, filed n i found)

  pub replaced_vm-IsFiled :
      (old : VmRecord)
      → lookup_vm node vmid s ≡ some old
      → (rec : VmRecord) → rec.node ≡ old.node
      → rec.vmid ≡ old.vmid
      → IsFiled (put_vm node vmid rec s)
  unfolding IsFiled
  replaced_vm-IsFiled old e rec same_node same_id =
      put_vm-IsFiled rec (same_node ∙ (filed node vmid old e).0)
        (same_id ∙ (filed node vmid old e).1)

  -- a change through a pointer keeps the record's place
  pub update_vm-IsFiled :
      (change : VmRecord → VmRecord)
      → ((r : VmRecord) → ((change r).node ≡ r.node) × ((change r).vmid ≡ r.vmid))
      → IsFiled (update_vm node vmid change s)
  unfolding update_vm IsFiled
  update_vm-IsFiled change keeps = elim (Option-cases (lookup_vm node vmid s)) [
    | inl e ↦ rw (update_vm, e) filed
    | inr (r, e) ↦ rw (update_vm, e) (replaced_vm-IsFiled r e (change r) (keeps r).0 (keeps r).1)
  ]

pub finished_task-IsFiled :
    (node : Text) (s : State)
    → IsFiled s
    → (kind id : Text) (clock : ℕ) → IsFiled (finished_task node kind id clock s).1
unfolding IsFiled lookup_vm
finished_task-IsFiled node s filed kind id clock = rw (vms-finished_task node kind id clock s) filed
