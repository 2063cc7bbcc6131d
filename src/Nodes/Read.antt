-- ===== src/Nodes/Read.antt =====
-- Reading a node's configuration: `UnmarshalJSON` of proxmox/nodes/nodeconfig.go, and `DecodeExtra`.
use proxmox_go_sdk.Base.{
  leb, ◌++◌, Bool, true, false, ◌||◌, Option, none, some, List, [], ◌∷◌, if◌then◌else◌,
}
use proxmox_go_sdk.Base.Eq.{◌==◌, text_Eq}
use proxmox_go_sdk.Base.Map.{Map}
use proxmox_go_sdk.Base.Text.{Text, text}
use proxmox_go_sdk.Base.Number.{ℤ, pos, negsuc}
use proxmox_go_sdk.Nodes.{NodeAcme, AcmeDomain, NodeConfig, Raw, null, string, token}
use proxmox_go_sdk.Nodes.Acme.{acme_domain_slot, parse_acme_domain, parse_node_acme}

-- `json.Unmarshal(raw, &value)` into a string: `null` leaves it empty
abbrev pub as_string : Raw → Option Text
as_string null = some []
as_string (string s) = some s
as_string (token t) = none

-- What one member is taken for.
pub data Claim : Type 0 where
  acme : NodeAcme → Claim
  digest : Text → Claim
  slot : AcmeDomain → Claim
  unclaimed : Claim

abbrev pub claim_slot : Option ℤ → Option AcmeDomain → Claim
claim_slot (some i) (some d) = slot (record d { index = i })
claim_slot _ _ = unclaimed

abbrev pub claim_acme : Raw → Claim
claim_acme null = unclaimed
claim_acme (string s) = acme (parse_node_acme s)
claim_acme (token t) = unclaimed

unfoldable pub claim : Text → Raw → Claim
claim key raw = elim (as_string raw) [
  | none ↦ unclaimed
  | some value ↦
      if key == text "acme"
      then claim_acme raw
      else if key == text "digest"
      then digest value
      else claim_slot (acme_domain_slot key) (parse_acme_domain value)
]

-- The config so far, and the keys that are known.
pub record Reading : Type 0 where
  pub acme : Option NodeAcme
  pub acme_domains : List AcmeDomain
  pub digest : Text
  pub known : List Text

unfoldable pub take_member : Text → Claim → Reading → Reading
take_member key (acme a) c = record c { acme = some a; known = key ∷ c.known }
take_member key (digest d) c = record c { digest = d; known = key ∷ c.known }
take_member key (slot d) c = record c {
  acme_domains = c.acme_domains ++ d ∷ [];
  known = key ∷ c.known;
}
take_member key unclaimed c = c

unfoldable pub take_members : Map Text Raw → Reading → Reading
take_members [] c = c
take_members ((key, raw) ∷ all) c = take_members all (take_member key (claim key raw) c)

unfoldable pub is_known : Text → List Text → Bool
is_known key [] = false
is_known key (k ∷ ks) = (k == key) || is_known key ks

-- a member as the string that `Extra` keeps
abbrev pub extra_value : Raw → Text
extra_value null = []
extra_value (string s) = s
extra_value (token t) = t

-- `DecodeExtra`
unfoldable pub decode_extra : List Text → Map Text Raw → Map Text Text
decode_extra known [] = []
decode_extra known ((key, raw) ∷ all) =
    let rest = decode_extra known all in
    if is_known key known then rest else (key, extra_value raw) ∷ rest

-- `a.Index - b.Index` not above zero; an index is a slot, so it does not overflow
unfoldable pub int_leb : ℤ → ℤ → Bool
int_leb (negsuc m) (negsuc n) = leb n m
int_leb (negsuc m) (pos n) = true
int_leb (pos m) (negsuc n) = false
int_leb (pos m) (pos n) = leb m n

-- `slices.SortFunc` by the index
unfoldable pub insert_domain : AcmeDomain → List AcmeDomain → List AcmeDomain
insert_domain d [] = d ∷ []
insert_domain d (e ∷ es) =
    let rest = insert_domain d es in if int_leb d.index e.index then d ∷ e ∷ es else e ∷ rest

unfoldable pub sort_domains : List AcmeDomain → List AcmeDomain
sort_domains [] = []
sort_domains (d ∷ ds) = insert_domain d (sort_domains ds)

-- `NodeConfig.UnmarshalJSON`, behind the decoding of the object
unfoldable pub read_config : Map Text Raw → NodeConfig
read_config all =
    let c = take_members all (record { acme = none; acme_domains = []; digest = []; known = [] }) in
    record {
      acme = c.acme;
      acme_domains = sort_domains c.acme_domains;
      digest = c.digest;
      extra = decode_extra c.known all;
    }
