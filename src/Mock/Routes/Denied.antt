-- ===== src/Mock/Routes/Denied.antt =====
-- Requests that are not let in: `checkAuth` of proxmox/mockpve/server.go at the head of a handler.
pub mod Containers
pub mod Ha
pub mod Sdn
pub mod Permissions
pub mod Storages
pub mod Clusters
pub mod Ceph
pub mod Firewalls
pub mod Metrics
pub mod Backups
use proxmox_go_sdk.Base.{◌≡◌, refl, false}
use proxmox_go_sdk.Mock.{
  Checked, Payload, refuse_if, Request, State, refused, error_of, respond, ◌>>◌,
}
use proxmox_go_sdk.Mock.Firewall.{answer_in}
use proxmox_go_sdk.Mock.{Handler, Response}
use proxmox_go_sdk.Mock.Server.{is_authorized, check_auth, authentication_failure}

check_auth-refused :
    (r : Request) (s : State)
    → is_authorized r s ≡ false
    → check_auth r s ≡ refused 401 authentication_failure
unfolding check_auth refuse_if
check_auth-refused r s h = rw h refl

pub denied :
    (r : Request) (s : State) (rest : Checked (Payload × State))
    → is_authorized r s ≡ false
    → respond s (check_auth r s >> rest) ≡ (error_of 401 authentication_failure, s)
unfolding respond
denied r s rest h = rw (check_auth-refused r s h) refl

pub denied_in :
    (r : Request) (s : State) (next : Unit {0} → Response × State)
    → is_authorized r s ≡ false
    → answer_in s (check_auth r s) next ≡ (error_of 401 authentication_failure, s)
unfolding answer_in
denied_in r s next h = rw (check_auth-refused r s h) refl

-- with more checks behind the first
pub denied_then {ℓ} :
    {A : Type ℓ} (r : Request) (s : State) (rest : Checked A) (next : A → Response × State)
    → is_authorized r s ≡ false
    → answer_in s (check_auth r s >> rest) next ≡ (error_of 401 authentication_failure, s)
unfolding answer_in
denied_then r s rest next h = rw (check_auth-refused r s h) refl
