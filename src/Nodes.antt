-- ===== src/Nodes.antt =====
-- The configuration of a node: proxmox/nodes/nodeconfig.go, and of proxmox/internal/svcutil/svcutil.go
-- what it calls. A decoded JSON object is its members.
pub mod Acme
pub mod Read
pub mod Write
mod Tests
use proxmox_go_sdk.Base.{ℕ, Option, List}
use proxmox_go_sdk.Base.Map.{Map}
use proxmox_go_sdk.Base.Text.{Text}
use proxmox_go_sdk.Base.Number.{ℤ}

-- `NodeACME`
pub record NodeAcme : Type 0 where
  pub account : Text
  pub domains : List Text

-- `ACMEDomain`
pub record AcmeDomain : Type 0 where
  pub index : ℤ
  pub domain : Text
  pub plugin : Text
  pub alias : Text

pub record NodeConfig : Type 0 where
  pub acme : Option NodeAcme
  pub acme_domains : List AcmeDomain
  pub digest : Text
  pub extra : Map Text Text

pub record NodeConfigUpdate : Type 0 where
  pub acme : Option NodeAcme
  pub acme_domains : List AcmeDomain
  pub delete : List Text
  pub digest : Text
  pub extra : Map Text Text

-- `ErrNilSpec`, `ErrMissingField` and `ErrInvalidValue`, with the text around them
pub data SpecError : Type 0 where
  nil_spec : Text → SpecError
  missing_field : Text → SpecError
  invalid_value : Text → SpecError

-- `json.RawMessage`: what it decodes to as a string, where it does, and its bytes
pub data Raw : Type 0 where
  null : Raw
  string : Text → Raw
  token : Text → Raw
