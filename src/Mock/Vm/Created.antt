-- ===== src/Mock/Vm/Created.antt =====
-- The config of a new guest: the form of a create, merged into a config that holds the guest's name.
use proxmox_go_sdk.Mock.Store.{named}
use proxmox_go_sdk.Mock.Vm.Forms.{is_set, kept_value, lookup-merged}
use proxmox_go_sdk.Base.{
  ◌≡◌, ◌∙◌, refl, ap, Bool, Bool-cases, true, false, not, ◌&&◌, none, some, [], ◌∷◌, arith,
  if◌then◌else◌, Option-cases, inl, inr,
}
use proxmox_go_sdk.Base.Eq.{◌==◌, text_Eq, text_eq_iff, text_eq}
use proxmox_go_sdk.Base.Map.{Map, lookup, erase, contains, lookup-erase}
use proxmox_go_sdk.Base.Text.{Text, text}
use proxmox_go_sdk.Mock.{Form, form_get, Value, VmRecord, string}
use proxmox_go_sdk.Mock.Vm.{apply_config_form}

-- A name under one key, if it is not empty: what `AddVM` and `AddContainer` put there.
abbrev pub labelled : Text → Text → Map Text Value
labelled label [] = []
labelled label (c ∷ name) = (label, string (c ∷ name)) ∷ []

form_get_absent : (k : Text) (form : Form) → contains k form ≡ false → form_get form k ≡ []
unfolding form_get
form_get_absent k form absent = elim (Option-cases (lookup k form)) [
  | inl missing ↦ rw missing refl
  | inr (vs, found) ↦ absurd (ground (arith, found, absent))
]

-- A form without its `vmid` sets the key.
abbrev pub creates : Text → Form → Bool
creates k form = contains k form && (not (k == text "delete") && not (k == text "vmid"))

is_set-erase : (k : Text) (form : Form) → is_set k (erase (text "vmid") form) ≡ creates k form
is_set-erase k form =
    rw (lookup-erase (text "vmid") k form)
      (ground (arith, text_eq_iff (text "vmid") k, text_eq_iff k (text "vmid")))

form_get-erase :
    (k : Text) (form : Form)
    → creates k form ≡ true
    → form_get (erase (text "vmid") form) k ≡ form_get form k
unfolding form_get
form_get-erase k form set =
    rw (lookup-erase (text "vmid") k form)
      (ground (arith, text_eq_iff (text "vmid") k, text_eq_iff k (text "vmid")))

name_other : (label j k : Text) → (label == j) ≡ false → (k == j) ≡ true → (label == k) ≡ false
name_other label j k h same = ap (λ t. label == t) ((text_eq_iff k j).0 same) ∙ h

module _ (label : Text) where
  lookup-labelled_other :
      (k name : Text) → (label == k) ≡ false → lookup k (labelled label name) ≡ none
  unfolding lookup
  lookup-labelled_other k [] h = refl
  lookup-labelled_other k (c ∷ name) h = rw (h, lookup) refl

  lookup-labelled_absent :
      (k : Text) (form : Form)
      → contains k form ≡ false
      → lookup k (labelled label (form_get form label)) ≡ none
  unfolding lookup
  lookup-labelled_absent k form absent = elim (Bool-cases (label == k)) [
    | inl same ↦
        let key : label ≡ k = (text_eq_iff label k).0 same in
        rw (form_get_absent label form (ap (λ j. contains j form) key ∙ absent)) refl
    | inr other ↦ lookup-labelled_other k (form_get form label) other
  ]

  module _ (kept : (label == text "delete") ≡ false) (free : (label == text "vmid") ≡ false) where
    lookup-labelled_unset :
        (k : Text) (form : Form)
        → creates k form ≡ false
        → lookup k (labelled label (form_get form label)) ≡ none
    lookup-labelled_unset k form unset = elim (Bool-cases (k == text "delete")) [
      | inl del ↦ lookup-labelled_other k _ (name_other label (text "delete") k kept del)
      | inr other ↦ elim (Bool-cases (k == text "vmid")) [
        | inl id ↦ lookup-labelled_other k _ (name_other label (text "vmid") k free id)
        | inr also ↦ lookup-labelled_absent k form (ground arith)
      ]
    ]

    -- A form without its `vmid`, merged into a config that holds just the name.
    lookup-new_config :
        (k : Text) (form : Form) (rec : VmRecord)
        → rec.config ≡ labelled label (form_get form label)
        → lookup k (apply_config_form (erase (text "vmid") form) rec).config
          ≡ (if creates k form then some (kept_value (form_get form k)) else none)
    lookup-new_config k form rec fresh =
        lookup-merged k (erase (text "vmid") form) rec
        ∙ rw (is_set-erase k form) (elim (Bool-cases (creates k form)) [
          | inl set ↦ rw (set, form_get-erase k form set) refl
          | inr unset ↦
              rw (unset, ap (lookup k) fresh ∙ lookup-labelled_unset k form unset) (ground arith)
        ])

pub lookup-new_vm_config :
    (k : Text) (form : Form) (rec : VmRecord)
    → rec.config ≡ labelled (text "name") (form_get form (text "name"))
    → lookup k (apply_config_form (erase (text "vmid") form) rec).config
      ≡ (if creates k form then some (kept_value (form_get form k)) else none)
unfolding text_eq
lookup-new_vm_config = lookup-new_config (text "name") refl refl

pub lookup-new_ct_config :
    (k : Text) (form : Form) (rec : VmRecord)
    → rec.config ≡ labelled (text "hostname") (form_get form (text "hostname"))
    → lookup k (apply_config_form (erase (text "vmid") form) rec).config
      ≡ (if creates k form then some (kept_value (form_get form k)) else none)
unfolding text_eq
lookup-new_ct_config = lookup-new_config (text "hostname") refl refl

pub named-labelled : (name : Text) → named name ≡ labelled (text "name") name
named-labelled [] = refl
named-labelled (c ∷ name) = refl
