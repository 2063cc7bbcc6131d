-- ===== src/Pverr/Tests.antt =====
-- The error taxonomy at concrete responses.
use mathlib.Core.List.{Permᴰ}
use proxmox_go_sdk.Base.{◌≡◌, ◌↔◌, ◌<◌, refl, true, false, none, some, [], ◌∷◌, ◌⊎◌, ℕ, ◌≤◌}
use proxmox_go_sdk.Base.Map.{Map, lookup}
use proxmox_go_sdk.Base.Text.{Text, text}
use proxmox_go_sdk.Pverr.{
  Error, PveBody, ticket_expired, unauthorized, classify, is_err, pve, render, reports_expired,
  is_transient, is_network_error, deadline_exceeded, canceled,
}
use proxmox_go_sdk.Pverr.Classify.{IsNamed, classify_sentinels}
use proxmox_go_sdk.Pverr.Render.{render-perm}
use proxmox_go_sdk.Base.Number.{format_nat}
use proxmox_go_sdk.Base.Text.{join}
use proxmox_go_sdk.Base.TextOrder.{sort_strings}
use proxmox_go_sdk.Base.Sort.{sort}
use proxmox_go_sdk.Base.TextOrder.{text_le}
use proxmox_go_sdk.Base.Text.{trim_space}
use proxmox_go_sdk.Base.Eq.{text_eq}
use proxmox_go_sdk.Base.Text.{contains_text}
use proxmox_go_sdk.Base.Text.{to_lower}

abbrev expired : PveBody
expired = record { message = text "Invalid ticket"; errors = [] }

abbrev two_params : Map Text Text
two_params = (text "vmid", text " too low") ∷ (text "name", text "taken") ∷ []

abbrev rejected : Error
rejected = record {
  op = text "qemu.Create";
  path = text "/x";
  status = 400;
  message = text "bad";
  params = two_params;
  upid = [];
  err = none;
}

rejected_text :
    render rejected ≡ text "qemu.Create: HTTP 400: bad [name: taken; vmid: too low] (/x)"
unfolding render format_nat join sort_strings sort text_le trim_space lookup text_eq
rejected_text = refl

expired_ticket : is_err (pve (classify 401 [] expired none)) ticket_expired ≡ true
unfolding is_err classify reports_expired contains_text to_lower
expired_ticket = refl

classify_sentinels_example :
    ((is_transient (pve (classify 401 [] expired none)) ≡ true)
      ↔ ((is_network_error none ≡ true) ⊎ (500 ≤ 401)))
    × ((is_err (pve (classify 401 [] expired none)) ticket_expired ≡ true) ↔ (
        (is_network_error none ≡ false)
        × (◌≡◌ {A = ℕ} 401 401)
        × (reports_expired expired.message ≡ true)))
    × ((is_err (pve (classify 401 [] expired none)) unauthorized ≡ true) ↔ (
        (is_network_error none ≡ false)
        × (◌≡◌ {A = ℕ} 401 401)
        × (reports_expired expired.message ≡ false)))
    × (((classify 401 [] expired none).err ≡ none)
        ↔ ((is_network_error none ≡ false) × (401 < 500) × (¬ IsNamed 401)))
    × (is_transient (pve (classify 401 [] expired (some deadline_exceeded))) ≡ true)
    × ((is_transient (pve (classify 401 [] expired (some canceled))) ≡ true) ↔ (500 ≤ 401))
classify_sentinels_example = classify_sentinels 401 [] expired none

render-perm_example :
    render rejected
    ≡ render (record rejected {
      params = (text "name", text "taken") ∷ (text "vmid", text " too low") ∷ [];
    })
unfolding lookup text_eq
render-perm_example = render-perm rejected _ (refl, (refl, tt)) (Permᴰ.swap refl refl)
