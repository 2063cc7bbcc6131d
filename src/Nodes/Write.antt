-- ===== src/Nodes/Write.antt =====
-- Writing a node's configuration: `SetNodeConfig` of proxmox/nodes/nodeconfig.go. The transport is a
-- parameter.
pub mod Accepts
use proxmox_go_sdk.Base.{
  Bool, true, false, ◌||◌, not, Option, none, some, List, [], ◌∷◌, ◌++◌, if◌then◌else◌, leb, ◌⊎◌,
  inl, inr,
}
use proxmox_go_sdk.Base.Eq.{◌==◌, text_Eq}
use proxmox_go_sdk.Base.Map.{Map, insert}
use proxmox_go_sdk.Base.Text.{Text, text, is_empty, join, comma}
use proxmox_go_sdk.Base.Number.{ℤ, pos, negsuc, int_Eq, itoa}
use proxmox_go_sdk.Nodes.{
  NodeAcme, AcmeDomain, NodeConfigUpdate, SpecError, nil_spec, missing_field, invalid_value,
}
use proxmox_go_sdk.Nodes.Acme.{encode_node_acme, encode_acme_domain, acme_domain_key, max_index}

-- `url.Values`, of which `Set` leaves one value for each key
abbrev pub Body : Type 0
Body = Map Text Text

-- `EncodeWithExtra` of an empty spec
unfoldable pub encode_extra : Map Text Text → Body → Body
encode_extra [] body = body
encode_extra ((k, v) ∷ extra) body = encode_extra extra (insert k v body)

-- `domain.Index < 0 || domain.Index > ACMEDomainMaxIndex`, the other way round
abbrev pub in_range : ℤ → Bool
in_range (pos n) = leb n max_index
in_range (negsuc n) = false

abbrev pub was_given : ℤ → List ℤ → Bool
was_given i [] = false
was_given i (j ∷ js) = (i == j) || was_given i js

-- an acme setting that renders empty is refused
unfoldable pub put_acme : Option NodeAcme → Body → SpecError ⊎ Body
put_acme none body = inr body
put_acme (some a) body =
    if is_empty (encode_node_acme a)
    then inl (
        invalid_value (
          text
            "nodes.SetNodeConfig: ACME is set but renders empty (use Delete: []string{\"acme\"} to clear it)"))
    else inr (insert (text "acme") (encode_node_acme a) body)

-- the loop over the domains, with the indices seen
unfoldable pub put_domains : List AcmeDomain → List ℤ → Body → SpecError ⊎ Body
put_domains [] seen body = inr body
put_domains (d ∷ ds) seen body =
    let rest =
      put_domains ds (d.index ∷ seen)
        (insert (acme_domain_key d.index) (encode_acme_domain d) body) in
    if not (in_range d.index)
    then inl (
        invalid_value (
          text "nodes.SetNodeConfig: acmedomain index "
          ++ (itoa d.index ++ text " (PVE defines 0-5)")))
    else if is_empty d.domain
    then inl (
        missing_field (text "nodes.SetNodeConfig: " ++ (acme_domain_key d.index ++ text " domain")))
    else if was_given d.index seen
    then inl (
        invalid_value
          (text "nodes.SetNodeConfig: " ++ (acme_domain_key d.index ++ text " given twice")))
    else rest

abbrev pub put_delete : List Text → Body → Body
put_delete [] body = body
put_delete (k ∷ ks) body = insert (text "delete") (join (comma ∷ []) (k ∷ ks)) body

abbrev pub put_digest : Text → Body → Body
put_digest [] body = body
put_digest (c ∷ digest) body = insert (text "digest") (c ∷ digest) body

-- the body, once the update is not nil and the node is named
unfoldable pub update_body : NodeConfigUpdate → SpecError ⊎ Body
update_body u = elim (put_acme u.acme (encode_extra u.extra [])) [
  | inl e ↦ inl e
  | inr body ↦ elim (put_domains u.acme_domains [] body) [
    | inl e ↦ inl e
    | inr body' ↦ inr (put_digest u.digest (put_delete u.delete body'))
  ]
]

-- What a call ends in: an error of its own, or what the request gave.
pub data Outcome (A : Type 0) : Type 0 where
  invalid : SpecError → Outcome A
  sent : A → Outcome A

-- `SetNodeConfig`; a nil update is `none`
unfoldable pub set_node_config :
    {A : Type 0} (put : Text → Body → A) → Text → Option NodeConfigUpdate → Outcome A
set_node_config put node none = invalid (nil_spec (text "nodes.SetNodeConfig"))
set_node_config put node (some u) =
    if is_empty node
    then invalid (missing_field (text "nodes.SetNodeConfig: node"))
    else elim (update_body u) [ inl e ↦ invalid e | inr body ↦ sent (put node body) ]
