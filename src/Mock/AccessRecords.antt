-- ===== src/Mock/AccessRecords.antt =====
-- Access control: the records and the payloads of proxmox/mockpve/access.go.
use proxmox_go_sdk.Base.{ℕ, Bool, List}
use proxmox_go_sdk.Base.Map.{Map}
use proxmox_go_sdk.Base.Text.{Text}
use proxmox_go_sdk.Base.Number.{ℤ}

-- `accessUserRecord`
pub record UserRecord : Type 0 where
  pub userid : Text
  pub email : Text
  pub comment : Text
  pub first_name : Text
  pub last_name : Text
  pub enable : Bool
  pub expire : ℤ
  pub groups : List Text

-- `accessGroupRecord`, which is answered as it is
pub record GroupRecord : Type 0 where
  pub groupid : Text
  pub comment : Text
  pub members : List Text

-- `accessRoleRecord`
pub record RoleRecord : Type 0 where
  pub roleid : Text
  pub privs : List Text
  pub special : Bool

-- `accessACLRecord`
pub record AclRecord : Type 0 where
  pub path : Text
  pub roleid : Text
  pub kind : Text
  pub ugid : Text
  pub propagate : Bool

-- `accessTokenRecord`
pub record AccessTokenRecord : Type 0 where
  pub tokenid : Text
  pub comment : Text
  pub expire : ℤ
  pub privsep : Bool

pub record AccessState : Type 0 where
  pub users : Map Text UserRecord
  pub groups : Map Text GroupRecord
  pub roles : Map Text RoleRecord
  pub acls : List AclRecord
  pub tokens : Map Text (Map Text AccessTokenRecord)

pub record UserPayload : Type 0 where
  pub userid : Text
  pub enable : ℕ
  pub expire : ℤ
  pub first_name : Text
  pub last_name : Text
  pub email : Text
  pub comment : Text
  pub groups : List Text

pub record RolePayload : Type 0 where
  pub roleid : Text
  pub privs : Text
  pub special : ℕ

pub record AclPayload : Type 0 where
  pub path : Text
  pub roleid : Text
  pub kind : Text
  pub ugid : Text
  pub propagate : ℕ

pub record AccessTokenPayload : Type 0 where
  pub tokenid : Text
  pub comment : Text
  pub expire : ℤ
  pub privsep : ℕ
