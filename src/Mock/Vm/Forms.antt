-- ===== src/Mock/Vm/Forms.antt =====
-- What a config holds after a form is merged into it: `applyConfigForm`.
use mathlib.Core.List.{cons-ne-nil}
use proxmox_go_sdk.Base.{
  ◌≡◌, refl, Bool, false, not, ◌&&◌, ◌||◌, none, some, List, [], ◌∷◌, arith, if◌then◌else◌, ◌≢◌,
  All, ◌∙◌,
}
use proxmox_go_sdk.Base.Eq.{◌==◌, text_Eq, text_eq_iff}
use proxmox_go_sdk.Base.Map.{Map, lookup, insert, erase, contains, lookup-insert, lookup-erase}
use proxmox_go_sdk.Base.Text.{Text, text, trim_space, join, comma, is_empty, Lacks, split-join}
use proxmox_go_sdk.Mock.{Form, form_get, Value, VmRecord, string, number}
use proxmox_go_sdk.Mock.Vm.{
  set_keys, delete_keys, deleted_keys, apply_config_form, parse_config_value, atoi,
}

-- Whether a key stands among the deleted ones, blanks around them put aside.
unfoldable pub is_deleted : Text → List Text → Bool
is_deleted k [] = false
is_deleted k (d ∷ ds) = (trim_space d == k) || is_deleted k ds

lookup-delete_keys :
    (k : Text) (ds : List Text) (c : Map Text Value)
    → lookup k (delete_keys ds c) ≡ (if is_deleted k ds then none else lookup k c)
unfolding delete_keys is_deleted
lookup-delete_keys k [] c = refl
lookup-delete_keys k (d ∷ ds) c =
    ground
      (arith, lookup-delete_keys k ds (erase (trim_space d) c), lookup-erase (trim_space d) k c)

-- Whether the form sets the key.
abbrev pub is_set : Text → Form → Bool
is_set k form = contains k form && not (k == text "delete")

lookup-set_keys :
    (k : Text) (form rest : Form) (c : Map Text Value)
    → lookup k (set_keys form rest c)
      ≡ (if is_set k rest then some (parse_config_value (form_get form k)) else lookup k c)
unfolding set_keys lookup
lookup-set_keys k form [] c = refl
lookup-set_keys k form ((key, vs) ∷ rest) c = ground (
  arith,
  text_eq_iff key k,
  text_eq_iff key (text "delete"),
  text_eq_iff k (text "delete"),
  lookup-set_keys k form rest
      (if key == text "delete" then c else insert key (parse_config_value (form_get form key)) c),
  lookup-insert key k (parse_config_value (form_get form key)) c,
)

join_not_empty :
    (keys : List Text) → keys ≢ ([] ∷ []) → keys ≢ [] → is_empty (join (comma ∷ []) keys) ≡ false
unfolding join
join_not_empty [] h k = absurd (k refl)
join_not_empty ([] ∷ []) h k = absurd (h refl)
join_not_empty ((c ∷ d) ∷ []) h k = refl
join_not_empty ([] ∷ e ∷ keys) h k = refl
join_not_empty ((c ∷ d) ∷ e ∷ keys) h k = refl

join_empty : join (comma ∷ []) [] ≡ []
unfolding join
join_empty = refl

-- The items that the form's `delete` lists with commas, if any, blanks around them included.
abbrev pub IsDeleteList : Form → List Text → Type 0
IsDeleteList form keys =
    (form_get form (text "delete") ≡ join (text ",") keys)
    × All (Lacks b',') keys
    × (keys ≢ ([] ∷ []))

deleted_keys_listed :
    (form : Form) (keys : List Text) → IsDeleteList form keys → deleted_keys form ≡ keys
deleted_keys_listed form [] (given, lacks, proper) = rw (given, join_empty) refl
deleted_keys_listed form (d ∷ ds) (given, lacks, proper) =
    rw (given, join_not_empty (d ∷ ds) proper (cons-ne-nil _ _)) (split-join comma d ds lacks)

-- What a key's first value is kept as: an int where the text is one.
abbrev pub kept_value : Text → Value
kept_value v = elim (atoi v) [ none ↦ string v | some n ↦ number n ]

parse-kept_value : (v : Text) → parse_config_value v ≡ kept_value v
unfolding parse_config_value
parse-kept_value v = refl

-- the merge in the code's own terms
pub lookup-merged :
    (k : Text) (form : Form) (rec : VmRecord)
    → lookup k (apply_config_form form rec).config ≡ (
        if is_set k form
        then some (kept_value (form_get form k))
        else if is_deleted k (deleted_keys form)
        then none
        else lookup k rec.config)
unfolding apply_config_form
lookup-merged k form rec =
    rw
      (
        lookup-set_keys k form form (delete_keys (deleted_keys form) rec.config),
        lookup-delete_keys k (deleted_keys form) rec.config,
        parse-kept_value (form_get form k),
      )
      refl

-- The form's `delete` lists some keys with commas, or none. After the form is merged, a key that the
-- form names, other than `delete`, holds the form's first value for it, as an int where that text is
-- one and as the text otherwise; a key that is listed, blanks around it put aside, and that the form
-- does not set is gone; every other key is as before.
pub lookup-apply_config_form :
    (k : Text) (form : Form) (keys : List Text) (rec : VmRecord)
    → IsDeleteList form keys
    → lookup k (apply_config_form form rec).config ≡ (
        if contains k form && not (k == text "delete")
        then some
            (elim (atoi (form_get form k)) [ none ↦ string (form_get form k) | some n ↦ number n ])
        else if is_deleted k keys
        then none
        else lookup k rec.config)
lookup-apply_config_form k form keys rec listed =
    lookup-merged k form rec ∙ rw (deleted_keys_listed form keys listed) refl
