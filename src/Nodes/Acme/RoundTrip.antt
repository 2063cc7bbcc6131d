-- ===== src/Nodes/Acme/RoundTrip.antt =====
-- Reading back what is written: the property strings of proxmox/nodes/nodeconfig.go.
use proxmox_go_sdk.Base.{
  append-nil, ◌≡◌, ◌≢◌, refl, sym, ap, ◌∙◌, false, some, List, [], ◌∷◌, ◌++◌, All, All-append,
  arith, if◌then◌else◌,
}
use proxmox_go_sdk.Base.Eq.{text_Eq, text_eq}
use proxmox_go_sdk.Base.Text.{
  Text, text, is_empty, is_space, split, comma, trim_space, Lacks, NoSpace, split-join, cut-append,
  trim_space-NoSpace, All-map,
}
use proxmox_go_sdk.Base.Number.{pos}
use proxmox_go_sdk.Nodes.{AcmeDomain}
use proxmox_go_sdk.Nodes.Acme.{
  equals, setting, set_domain, parse_domain_part, parse_domain_parts, parse_acme_domain,
  encode_acme_domain, empty_domain,
}

-- A value that a property string can hold: no comma and no white space.
abbrev pub IsPlain : Text → Type 0
IsPlain = All (λ c. (c ≢ comma) × (is_space c ≡ false))

IsPlain-Lacks : (s : Text) → IsPlain s → Lacks comma s
IsPlain-Lacks s h =
    All-map (λ c. (c ≢ comma) × (is_space c ≡ false)) (λ c. c ≢ comma) s (λ c p. p.0) h

IsPlain-NoSpace : (s : Text) → IsPlain s → NoSpace s
IsPlain-NoSpace s h =
    All-map (λ c. (c ≢ comma) × (is_space c ≡ false)) (λ c. is_space c ≡ false) s (λ c p. p.1) h

-- `key=value`
abbrev pair : Text → Text → Text
pair key value = key ++ equals ∷ value

-- A key of one of the property strings.
abbrev IsKey : Text → Type 0
IsKey key = IsPlain key × Lacks equals key × (is_empty key ≡ false)

pair-IsPlain : (key value : Text) → IsPlain key → IsPlain value → IsPlain (pair key value)
pair-IsPlain key value k v =
    All-append (λ c. (c ≢ comma) × (is_space c ≡ false)) key (equals ∷ value) k
      ((omega arith, refl), v)

parse_domain_part-pair :
    (key value : Text) (out : AcmeDomain)
    → IsKey key
    → IsPlain value
    → parse_domain_part (trim_space (pair key value)) out ≡ set_domain key value out
unfolding parse_domain_part
parse_domain_part-pair [] value out k v = ground arith
parse_domain_part-pair (c ∷ key) value out k v =
    rw
      (
        trim_space-NoSpace (pair (c ∷ key) value)
            (IsPlain-NoSpace (pair (c ∷ key) value) (pair-IsPlain (c ∷ key) value k.0 v)),
        parse_domain_part,
        cut-append equals (c ∷ key) value k.1,
        trim_space-NoSpace (c ∷ key) (IsPlain-NoSpace (c ∷ key) k.0),
      )
      refl

-- The domains that can be written and read back.
pub record IsClean (d : AcmeDomain) : Type 0 where
  pub named : is_empty d.domain ≡ false
  pub domain_plain : IsPlain d.domain
  pub plugin_plain : IsPlain d.plugin
  pub alias_plain : IsPlain d.alias

domain-IsKey : IsKey (text "domain")
domain-IsKey = (ground arith, ground arith, refl)

plugin-IsKey : IsKey (text "plugin")
plugin-IsKey = (ground arith, ground arith, refl)

alias-IsKey : IsKey (text "alias")
alias-IsKey = (ground arith, ground arith, refl)

-- a setting that is left out changes nothing
parse_domain_parts-setting :
    (key value : Text) (rest : List Text) (out : AcmeDomain)
    → IsKey key
    → IsPlain value
    → parse_domain_parts (setting key value ++ rest) out
      ≡ parse_domain_parts rest (if is_empty value then out else set_domain key value out)
unfolding parse_domain_parts
parse_domain_parts-setting key [] rest out k v = refl
parse_domain_parts-setting key (c ∷ value) rest out k v =
    rw (parse_domain_part-pair key (c ∷ value) out k v) refl

setting-Lacks :
    (key value : Text) → IsKey key → IsPlain value → All (Lacks comma) (setting key value)
setting-Lacks key [] k v = tt
setting-Lacks key (c ∷ value) k v =
    (IsPlain-Lacks (pair key (c ∷ value)) (pair-IsPlain key (c ∷ value) k.0 v), tt)

abbrev settings : AcmeDomain → List Text
settings d = setting (text "plugin") d.plugin ++ setting (text "alias") d.alias

split-encode_acme_domain :
    (d : AcmeDomain)
    → IsClean d
    → split comma (encode_acme_domain d) ≡ pair (text "domain") d.domain ∷ settings d
unfolding encode_acme_domain
split-encode_acme_domain d clean = split-join comma (pair (text "domain") d.domain) (settings d) (
  IsPlain-Lacks (pair (text "domain") d.domain)
      (pair-IsPlain (text "domain") d.domain domain-IsKey.0 clean.domain_plain),
  All-append (Lacks comma) (setting (text "plugin") d.plugin) (setting (text "alias") d.alias)
      (setting-Lacks (text "plugin") d.plugin plugin-IsKey clean.plugin_plain)
      (setting-Lacks (text "alias") d.alias alias-IsKey clean.alias_plain),
)

last_setting :
    (key value : Text) (out : AcmeDomain)
    → IsKey key
    → IsPlain value
    → parse_domain_parts (setting key value) out
      ≡ (if is_empty value then out else set_domain key value out)
unfolding parse_domain_parts
last_setting key value out k v =
    ap (λ l. parse_domain_parts l out) (sym (append-nil (setting key value)))
    ∙ parse_domain_parts-setting key value [] out k v

abbrev domain_of : Text → Text → Text → AcmeDomain
domain_of domain plugin alias = record {
  index = pos 0;
  domain = domain;
  plugin = plugin;
  alias = alias;
}

set_plugin :
    (domain plugin : Text)
    → IsPlain plugin
    → (if is_empty plugin
        then domain_of domain [] []
        else set_domain (text "plugin") plugin (domain_of domain [] []))
      ≡ domain_of domain plugin []
unfolding set_domain text_eq
set_plugin domain [] v = refl
set_plugin domain (c ∷ plugin) v =
    rw (trim_space-NoSpace (c ∷ plugin) (IsPlain-NoSpace (c ∷ plugin) v)) refl

set_alias :
    (domain plugin alias : Text)
    → IsPlain alias
    → (if is_empty alias
        then domain_of domain plugin []
        else set_domain (text "alias") alias (domain_of domain plugin []))
      ≡ domain_of domain plugin alias
unfolding set_domain text_eq
set_alias domain plugin [] v = refl
set_alias domain plugin (c ∷ alias) v =
    rw (trim_space-NoSpace (c ∷ alias) (IsPlain-NoSpace (c ∷ alias) v)) refl

first_domain :
    (domain : Text)
    → IsPlain domain
    → parse_domain_part (trim_space (pair (text "domain") domain)) empty_domain
      ≡ domain_of domain [] []
unfolding set_domain text_eq
first_domain domain v =
    parse_domain_part-pair (text "domain") domain empty_domain domain-IsKey v
    ∙ rw (trim_space-NoSpace domain (IsPlain-NoSpace domain v)) refl

parse_domain_parts-settings :
    (d : AcmeDomain)
    → IsClean d
    → parse_domain_parts (pair (text "domain") d.domain ∷ settings d) empty_domain
      ≡ domain_of d.domain d.plugin d.alias
unfolding parse_domain_parts
parse_domain_parts-settings d clean =
    rw
      (
        parse_domain_parts,
        first_domain d.domain clean.domain_plain,
        parse_domain_parts-setting (text "plugin") d.plugin (setting (text "alias") d.alias)
            (domain_of d.domain [] []) plugin-IsKey clean.plugin_plain,
        set_plugin d.domain d.plugin clean.plugin_plain,
        last_setting (text "alias") d.alias (domain_of d.domain d.plugin []) alias-IsKey
            clean.alias_plain,
      )
      (set_alias d.domain d.plugin d.alias clean.alias_plain)

-- A domain whose three texts hold no comma and no white space, and whose name is not empty, is read
-- back from its property string; the slot's index stands in the key, so it is 0 here.
pub parse_acme_domain-encode :
    (d : AcmeDomain)
    → IsClean d
    → parse_acme_domain (encode_acme_domain d) ≡ some (record d { index = pos 0 })
unfolding parse_acme_domain
parse_acme_domain-encode d clean =
    rw (split-encode_acme_domain d clean, parse_domain_parts-settings d clean, clean.named) refl
