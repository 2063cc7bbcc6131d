-- ===== src/Nodes/Acme.antt =====
-- The property strings and the slot keys of the ACME settings: proxmox/nodes/nodeconfig.go.
pub mod RoundTrip
pub mod Slots
use proxmox_go_sdk.Base.{
  ℕ, Bool, true, false, ◌||◌, not, Option, none, some, List, [], ◌∷◌, ◌++◌, if◌then◌else◌,
}
use proxmox_go_sdk.Base.Eq.{◌==◌, text_Eq}
use proxmox_go_sdk.Base.Text.{Text, text, is_empty, split, cut, join, cut_prefix, trim_space, comma}
use proxmox_go_sdk.Base.Number.{ℤ, pos, negsuc, atoi, itoa}
use proxmox_go_sdk.Nodes.{NodeAcme, AcmeDomain}

abbrev pub equals : ℕ
equals = 61

abbrev pub semicolon : ℕ
semicolon = 59

abbrev pub key_prefix : Text
key_prefix = text "acmedomain"

-- `ACMEDomainMaxIndex`
abbrev pub max_index : ℕ
max_index = 5

-- `ACMEDomainKey`
unfoldable pub acme_domain_key : ℤ → Text
acme_domain_key index = key_prefix ++ itoa index

-- a suffix that prints as itself, and is not negative
unfoldable pub canonical : Text → Option ℤ → Option ℤ
canonical suffix none = none
canonical suffix (some (negsuc n)) = none
canonical suffix (some (pos n)) = if itoa (pos n) == suffix then some (pos n) else none

unfoldable pub acme_domain_slot : Text → Option ℤ
acme_domain_slot key = elim (cut_prefix key key_prefix) [
  | none ↦ none
  | some suffix ↦ if is_empty suffix then none else canonical suffix (atoi suffix)
]

-- the domains that are not blank
unfoldable pub nonblank : List Text → List Text
nonblank [] = []
nonblank (d ∷ ds) =
    let rest = nonblank ds in if is_empty (trim_space d) then rest else trim_space d ∷ rest

abbrev pub empty_acme : NodeAcme
empty_acme = record { account = []; domains = [] }

-- one `key=value`, the key already free of blanks
unfoldable pub set_acme : Text → Text → NodeAcme → NodeAcme
set_acme key value out =
    if key == text "account"
    then record out { account = trim_space value }
    else if key == text "domains"
    then record out { domains = out.domains ++ nonblank (split semicolon (trim_space value)) }
    else out

unfoldable pub parse_acme_parts : List Text → NodeAcme → NodeAcme
parse_acme_parts [] out = out
parse_acme_parts (part ∷ parts) out = elim (cut equals part) [
  | none ↦ parse_acme_parts parts out
  | some (key, value) ↦ parse_acme_parts parts (set_acme (trim_space key) value out)
]

-- `parseNodeACME`
unfoldable pub parse_node_acme : Text → NodeAcme
parse_node_acme s = parse_acme_parts (split comma s) empty_acme

-- `key=value`, left out where the value is empty
abbrev pub setting : Text → Text → List Text
setting key [] = []
setting key (c ∷ value) = (key ++ equals ∷ c ∷ value) ∷ []

abbrev pub domain_list : List Text → List Text
domain_list [] = []
domain_list (d ∷ ds) = (text "domains=" ++ join (semicolon ∷ []) (d ∷ ds)) ∷ []

-- `encodeNodeACME`
unfoldable pub encode_node_acme : NodeAcme → Text
encode_node_acme a = join (comma ∷ []) (setting (text "account") a.account ++ domain_list a.domains)

abbrev pub empty_domain : AcmeDomain
empty_domain = record { index = pos 0; domain = []; plugin = []; alias = [] }

unfoldable pub set_domain : Text → Text → AcmeDomain → AcmeDomain
set_domain key value out =
    if key == text "domain"
    then record out { domain = trim_space value }
    else if key == text "plugin"
    then record out { plugin = trim_space value }
    else if key == text "alias"
    then record out { alias = trim_space value }
    else out

-- one part without the blanks around it: a bare one is the domain, unless there is one
unfoldable pub parse_domain_part : Text → AcmeDomain → AcmeDomain
parse_domain_part [] out = out
parse_domain_part (c ∷ part) out = elim (cut equals (c ∷ part)) [
  | none ↦ if is_empty out.domain then record out { domain = c ∷ part } else out
  | some (key, value) ↦ set_domain (trim_space key) value out
]

unfoldable pub parse_domain_parts : List Text → AcmeDomain → AcmeDomain
parse_domain_parts [] out = out
parse_domain_parts (part ∷ parts) out =
    parse_domain_parts parts (parse_domain_part (trim_space part) out)

-- `parseACMEDomain`; `none` is the missing domain
unfoldable pub parse_acme_domain : Text → Option AcmeDomain
parse_acme_domain s =
    let out = parse_domain_parts (split comma s) empty_domain in
    if is_empty out.domain then none else some out

-- `encodeACMEDomain`
unfoldable pub encode_acme_domain : AcmeDomain → Text
encode_acme_domain d = join (comma ∷ []) (
    (text "domain=" ++ d.domain)
    ∷ (setting (text "plugin") d.plugin ++ setting (text "alias") d.alias))
