-- ===== src/Version/Tests.antt =====
-- Versions at concrete inputs.
use proxmox_go_sdk.Base.{◌≡◌, ◌<◌, ◌≤◌, All, ◌∷◌, ◌++◌, refl, arith, [], true, ◌↔◌, ◌⊎◌, ℕ}
use proxmox_go_sdk.Base.Text.{text}
use proxmox_go_sdk.Pverr.{ok, err, plain, Err}
use proxmox_go_sdk.Version.{Capabilities, parse, to_text, require, capabilities}
use proxmox_go_sdk.Version.Order.{gates_monotone, openings, IsAtLeast}
use proxmox_go_sdk.Version.RoundTrip.{parse-to_text}
use proxmox_go_sdk.Version.Require.{IsUnsupported, require_gate, capabilities_lem}
use proxmox_go_sdk.Base.Text.{trim_space}
use proxmox_go_sdk.Base.Text.{split_n}
use proxmox_go_sdk.Base.Text.{cut}
use proxmox_go_sdk.Base.Number.{parse_int, format_nat}

abbrev v9_0_3 : Capabilities
v9_0_3 = record { major = 9; minor = 0; patch = 3 }

abbrev v9_2_1 : Capabilities
v9_2_1 = record { major = 9; minor = 2; patch = 1 }

two_components : parse (text " 9.1 ") ≡ ok (record { major = 9; minor = 1; patch = 0 })
unfolding parse trim_space split_n cut parse_int
two_components = refl

gates_monotone_example :
    All
      (λ (gate, minor).
        ((gate v9_0_3 ≡ true) ↔ ((9 < 9) ⊎ ((◌≡◌ {A = ℕ} 9 9) × (minor ≤ 0))))
        × (gate v9_0_3 ≡ true → gate v9_2_1 ≡ true))
      openings
gates_monotone_example = gates_monotone v9_0_3 v9_2_1 (omega arith)

parse-to_text_example : parse (to_text v9_0_3 ++ text "-1") ≡ ok v9_0_3
parse-to_text_example = parse-to_text v9_0_3 (text "-1") (omega arith) (refl, (refl, tt)) refl

require_gate_example :
    All
      (λ min_version.
        (IsAtLeast v9_0_3 9 2 → require v9_0_3 (text "ha.ArmHA") min_version ≡ ok tt)
        × (¬ IsAtLeast v9_0_3 9 2 → IsUnsupported (require v9_0_3 (text "ha.ArmHA") min_version)))
      ((format_nat 10 9 ++ b'.' ∷ format_nat 10 2)
        ∷ (format_nat 10 9 ++ b'.' ∷ (format_nat 10 2 ++ b'.' ∷ format_nat 10 1))
        ∷ [])
require_gate_example =
    require_gate v9_0_3 (text "ha.ArmHA") 9 2 1 (omega arith) (omega arith) (omega arith)

abbrev refused : Err
refused = plain (text "refused")

capabilities_lem_example :
    (9 ≤ 9 → capabilities (ok (to_text v9_0_3 ++ text "-1")) ≡ ok v9_0_3)
    × (9 < 9 → IsUnsupported (capabilities (ok (to_text v9_0_3 ++ text "-1"))))
    × (capabilities (err refused) ≡ err refused)
capabilities_lem_example =
    capabilities_lem v9_0_3 (text "-1") refused (omega arith) (refl, (refl, tt)) refl
