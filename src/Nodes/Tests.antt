-- ===== src/Nodes/Tests.antt =====
-- Runs of the codecs of proxmox/nodes/nodeconfig.go, and the theorems on them.
use proxmox_go_sdk.Base.{some, none, [], ◌∷◌, ◌≡◌, refl, arith, inl, inr, ◌↔◌}
use proxmox_go_sdk.Base.Text.{text}
use proxmox_go_sdk.Base.Number.{pos}
use proxmox_go_sdk.Nodes.{SpecError}
use proxmox_go_sdk.Nodes.{AcmeDomain, NodeConfigUpdate, SpecError}
use proxmox_go_sdk.Nodes.Acme.{
  encode_acme_domain, parse_acme_domain, acme_domain_slot, acme_domain_key, encode_node_acme,
}
use proxmox_go_sdk.Nodes.Acme.RoundTrip.{IsClean, parse_acme_domain-encode}
use proxmox_go_sdk.Nodes.Acme.Slots.{acme_domain_slot_iff}
use proxmox_go_sdk.Nodes.Write.{Body, update_body}
use proxmox_go_sdk.Nodes.Write.Accepts.{IsWritten, update_body-IsWritten}
use proxmox_go_sdk.Base.Text.{join}
use proxmox_go_sdk.Base.Text.{cut_prefix}
use proxmox_go_sdk.Nodes.Acme.{canonical}
use proxmox_go_sdk.Base.Number.{parse_int}
use proxmox_go_sdk.Base.Eq.{text_eq}
use proxmox_go_sdk.Base.Number.{format_int}
use proxmox_go_sdk.Nodes.Write.{put_acme}
use proxmox_go_sdk.Nodes.Write.{put_domains}
use proxmox_go_sdk.Base.Number.{int_eq}
use proxmox_go_sdk.Base.Map.{insert}
use proxmox_go_sdk.Nodes.Write.{encode_extra}

abbrev web : AcmeDomain
web = record { index = pos 2; domain = text "web.example.org"; plugin = text "dns"; alias = [] }

abbrev mail : AcmeDomain
mail = record {
  index = pos 0;
  domain = text "mail.example.org";
  plugin = [];
  alias = text "acme.example.org";
}

web-IsClean : IsClean web
web-IsClean = record {
  named = refl;
  domain_plain = ground arith;
  plugin_plain = ground arith;
  alias_plain = tt;
}

parse_acme_domain-encode_example :
    parse_acme_domain (text "domain=web.example.org,plugin=dns")
    ≡ some (record web { index = pos 0 })
unfolding encode_acme_domain join
parse_acme_domain-encode_example = parse_acme_domain-encode web web-IsClean

-- the number with a sign or leading zeros is not a slot
signed_slot : acme_domain_slot (text "acmedomain+2") ≡ none
unfolding acme_domain_slot cut_prefix canonical parse_int text_eq format_int
signed_slot = refl

padded_slot : acme_domain_slot (text "acmedomain02") ≡ none
unfolding acme_domain_slot cut_prefix canonical parse_int text_eq format_int
padded_slot = refl

acme_domain_slot_iff_example :
    (acme_domain_slot (text "acmedomain2") ≡ some (pos 2))
    ↔ (text "acmedomain2" ≡ acme_domain_key (pos 2))
acme_domain_slot_iff_example = acme_domain_slot_iff (text "acmedomain2") 2 (omega arith)

abbrev update : NodeConfigUpdate
update = record {
  acme = some (record { account = text "default"; domains = text "a.example.org" ∷ [] });
  acme_domains = mail ∷ web ∷ [];
  delete = text "acmedomain1" ∷ [];
  digest = text "0f";
  extra = [];
}

abbrev update_sent : Body
update_sent =
    (text "acme", text "account=default,domains=a.example.org")
    ∷ (text "acmedomain0", text "domain=mail.example.org,alias=acme.example.org")
    ∷ (text "acmedomain2", text "domain=web.example.org,plugin=dns")
    ∷ (text "delete", text "acmedomain1")
    ∷ (text "digest", text "0f")
    ∷ []

update_body_run : update_body update ≡ inr update_sent
unfolding update_body put_acme encode_node_acme join put_domains int_eq insert encode_extra text_eq
    acme_domain_key format_int encode_acme_domain
update_body_run = refl

-- the slot of a domain that is given twice is refused
update_body_twice :
    (e : SpecError) × (update_body (record update { acme_domains = web ∷ web ∷ [] }) ≡ inl e)
unfolding update_body put_acme encode_node_acme join put_domains int_eq
update_body_twice = (_, refl)

update_body-IsWritten_example : IsWritten update_sent mail × (IsWritten update_sent web × Unit {0})
update_body-IsWritten_example = update_body-IsWritten update update_sent update_body_run
