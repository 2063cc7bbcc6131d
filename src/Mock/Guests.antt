-- ===== src/Mock/Guests.antt =====
-- What the handlers of proxmox/mockpve that are not about QEMU guests leave alone: the guests.
use proxmox_go_sdk.Base.{◌≡◌, refl}
use proxmox_go_sdk.Mock.{◌>>◌, ◌>>=◌, State, Request, Payload, Form, Checked, respond}
use proxmox_go_sdk.Mock.Server.{check_auth, parse_form}
use proxmox_go_sdk.Mock.Checks.{Grants, bind-Grants, then-Grants, respond-keeps}

-- The same guests.
abbrev pub Same : State → State → Type 0
Same s t = t.vms ≡ s.vms

abbrev pub SameData : State → Payload × State → Type 0
SameData s a = Same s a.1

-- a handler that starts with the authorization
pub checked-keeps :
    (r : Request) (s : State) (rest : Checked (Payload × State))
    → Grants (SameData s) rest
    → Same s (respond s (check_auth r s >> rest)).1
checked-keeps r s rest kept =
    respond-keeps (Same s) s _ refl (then-Grants (SameData s) (check_auth r s) rest (λ _. kept))

-- one that reads the form next
pub parsed-keeps :
    (r : Request) (s : State) (rest : Form → Checked (Payload × State))
    → ((form : Form) → Grants (SameData s) (rest form))
    → Same s (respond s (check_auth r s >> (parse_form r >>= rest))).1
parsed-keeps r s rest kept =
    checked-keeps r s _ (bind-Grants (SameData s) (parse_form r) rest (λ form _. kept form))

pub found-keeps {ℓ} :
    {A : Type ℓ} (s : State) (found : Checked A) (rest : A → Checked (Payload × State))
    → ((a : A) → Grants (SameData s) (rest a))
    → Grants (SameData s) (found >>= rest)
found-keeps s found rest kept = bind-Grants (SameData s) found rest (λ a _. kept a)

pub unless-keeps :
    (s : State) (check : Checked (Unit {0})) (rest : Checked (Payload × State))
    → Grants (SameData s) rest
    → Grants (SameData s) (check >> rest)
unless-keeps s check rest kept = then-Grants (SameData s) check rest (λ _. kept)
