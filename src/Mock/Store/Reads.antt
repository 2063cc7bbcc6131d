-- ===== src/Mock/Store/Reads.antt =====
-- What a lookup finds after a write to the store: proxmox/mockpve/server.go, qemu.go.
use proxmox_go_sdk.Base.{
  ◌≡◌, refl, ◌&&◌, none, some, arith, if◌then◌else◌, Option-cases, Bool-cases, inl, ℕ, inr, ap, sym,
  ◌∙◌,
}
use proxmox_go_sdk.Base.Eq.{◌==◌, text_Eq, text_eq_iff, eq_sound}
use proxmox_go_sdk.Base.Map.{lookup, insert, erase, lookup-insert, lookup-erase}
use proxmox_go_sdk.Base.Text.{Text}
use proxmox_go_sdk.Base.Number.{ℤ, int_Eq}
use proxmox_go_sdk.Mock.{State, VmRecord}
use proxmox_go_sdk.Mock.Store.{
  lookup_vm, put_vm, delete_vm, finished_task, add_task, finish_task, or_empty_map,
}

pub lookup_vm-put_vm :
    (node n : Text) (vmid i : ℤ) (rec : VmRecord) (s : State)
    → lookup_vm n i (put_vm node vmid rec s)
      ≡ (if (node == n) && (vmid == i) then some rec else lookup_vm n i s)
unfolding lookup_vm put_vm
lookup_vm-put_vm node n vmid i rec s = ground (
  arith,
  text_eq_iff node n,
  lookup-insert node n (insert vmid rec (or_empty_map (lookup node s.vms))) s.vms,
  lookup-insert vmid i rec (or_empty_map (lookup node s.vms)),
)

pub lookup_vm-delete_vm :
    (node n : Text) (vmid i : ℤ) (s : State)
    → lookup_vm n i (delete_vm node vmid s)
      ≡ (if (node == n) && (vmid == i) then none else lookup_vm n i s)
unfolding lookup_vm delete_vm lookup
lookup_vm-delete_vm node n vmid i s = elim (Option-cases (lookup node s.vms)) [
  | inl e ↦ elim (Bool-cases (node == n)) [
    | inl same ↦
        let at : lookup n s.vms ≡ none =
          sym (ap (λ k. lookup k s.vms) (eq_sound node n same)) ∙ e in
        elim (Bool-cases (vmid == i)) [
          | inl h ↦ rw (delete_vm, e, lookup_vm, at, same, h) refl
          | inr h ↦ rw (delete_vm, e, lookup_vm, at, same, h) refl
        ]
    | inr other ↦ rw (delete_vm, e, other) refl
  ]
  | inr (m, e) ↦ elim (Bool-cases (node == n)) [
    | inl same ↦
        let at : lookup n s.vms ≡ some m =
          sym (ap (λ k. lookup k s.vms) (eq_sound node n same)) ∙ e in
        rw (delete_vm, e, lookup_vm, lookup-insert node n (erase vmid m) s.vms, same, at)
          (lookup-erase vmid i m)
    | inr other ↦
        rw (delete_vm, e, lookup_vm, lookup-insert node n (erase vmid m) s.vms, other) refl
  ]
]

-- Starting and finishing a task leaves the guests alone.
pub vms-finished_task :
    (node kind id : Text) (clock : ℕ) (s : State)
    → ((finished_task node kind id clock s).1).vms ≡ s.vms
unfolding finished_task finish_task add_task
vms-finished_task node kind id clock s = ground arith
