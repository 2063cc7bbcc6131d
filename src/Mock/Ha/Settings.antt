-- ===== src/Mock/Ha/Settings.antt =====
-- What a datacenter option reads after a request has set some: proxmox/mockpve/ha.go.
use proxmox_go_sdk.Base.{
  ap, ◌≡◌, refl, sym, ◌∙◌, ◌&&◌, Option, none, some, List, [], ◌∷◌, if◌then◌else◌, arith,
  Bool-cases, inl, inr,
}
use proxmox_go_sdk.Base.Eq.{◌==◌, text_Eq, text_eq_iff, eq_sound}
use proxmox_go_sdk.Base.Map.{IsMap, lookup, lookup-insert}
use proxmox_go_sdk.Base.Text.{Text, text, is_empty}
use proxmox_go_sdk.Mock.{State, Form}
use proxmox_go_sdk.Mock.Ha.{set_crs}
use proxmox_go_sdk.Mock.Ha.Options.{merged_options, store_option, store_options}

-- The settings of high availability are no cluster option.
abbrev pub IsRouted : State → Type 0
IsRouted s = lookup (text "crs") s.cluster_options ≡ none

-- What a key reads once the form has set it to these values.
abbrev pub written : Text → Option (List Text) → Option Text → Option Text
written k (some (v ∷ vs)) old = if (k == text "crs") && is_empty v then none else some v
written k _ old = old

-- what a key reads, wherever it is kept
unfoldable pub read : Text → State → Option Text
read k s =
    if k == text "crs"
    then (if is_empty s.ha.crs then none else some s.ha.crs)
    else lookup k s.cluster_options

lookup-merged_options : (k : Text) (s : State) → IsRouted s → lookup k (merged_options s) ≡ read k s
unfolding merged_options read
lookup-merged_options k s routed = ground (
  arith,
  lookup-insert (text "crs") k s.ha.crs s.cluster_options,
  text_eq_iff k (text "crs"),
  text_eq_iff (text "crs") k,
  routed,
)

read-store_option :
    (k j : Text) (vs : List Text) (s : State)
    → read k (store_option j vs s) ≡ (if j == k then written k (some vs) (read k s) else read k s)
unfolding read store_option set_crs
read-store_option k j [] s = ground arith
read-store_option k j (v ∷ vs) s = ground (
  arith,
  lookup-insert j k v s.cluster_options,
  text_eq_iff k (text "crs"),
  text_eq_iff j (text "crs"),
  text_eq_iff j k,
)

store_option-IsRouted :
    (j : Text) (vs : List Text) (s : State) → IsRouted s → IsRouted (store_option j vs s)
unfolding store_option set_crs
store_option-IsRouted j [] s routed = routed
store_option-IsRouted j (v ∷ vs) s routed =
    ground (arith, lookup-insert j (text "crs") v s.cluster_options, text_eq_iff j (text "crs"))

pub store_options-IsRouted :
    (form : Form) (s : State) → IsRouted s → IsRouted (store_options form s)
unfolding store_options
store_options-IsRouted [] s routed = routed
store_options-IsRouted ((j, vs) ∷ form) s routed =
    store_options-IsRouted form (store_option j vs s) (store_option-IsRouted j vs s routed)

read-store_options :
    (k : Text) (form : Form) (s : State)
    → IsMap form
    → read k (store_options form s) ≡ written k (lookup k form) (read k s)
unfolding store_options lookup
read-store_options k [] s valid = refl
read-store_options k ((j, vs) ∷ form) s valid = elim (Bool-cases (j == k)) [
  | inl h ↦
      let gone : lookup k form ≡ none = sym (ap (λ i. lookup i form) (eq_sound j k h)) ∙ valid.0 in
      rw
        (
          h,
          read-store_options k form (store_option j vs s) valid.1,
          gone,
          read-store_option k j vs s,
          h,
        )
        refl
  | inr h ↦
      rw (h, read-store_options k form (store_option j vs s) valid.1, read-store_option k j vs s, h)
        refl
]

-- A form whose keys are distinct, as a Go map's are, and a state that keeps `crs` apart. After the form
-- is stored, a key that it gives a value reads as its first value, only an empty `crs` reads as unset;
-- every other key reads as before.
pub lookup-store_options :
    (k : Text) (form : Form) (s : State)
    → IsMap form
    → IsRouted s
    → lookup k (merged_options (store_options form s))
      ≡ written k (lookup k form) (lookup k (merged_options s))
lookup-store_options k form s valid routed =
    rw
      (
        lookup-merged_options k (store_options form s) (store_options-IsRouted form s routed),
        lookup-merged_options k s routed,
      )
      (read-store_options k form s valid)
