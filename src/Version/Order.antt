-- ===== src/Version/Order.antt =====
-- The order of versions and the gates: proxmox/version/capabilities.go.
use proxmox_go_sdk.Base.{ℕ, ◌≤◌, ◌<◌, ◌≡◌, ◌↔◌, ◌⊎◌, true, arith, All, Bool, ◌∷◌, List, []}
use proxmox_go_sdk.Version.{
  Capabilities, at_least, oci_templates, volume_chain_snapshots, tpm_state_snapshots,
  token_secret_rotation, zfs_raidz_expansion, ha_cluster_switch, sdn_fabrics, sdn_advanced_fabrics,
  overlapping_ip_sets, clear_token_comment, otel_exporter, meets_minimum,
}

-- the lexicographic order on the first two components
abbrev pub IsAtLeast : Capabilities → ℕ → ℕ → Type 0
IsAtLeast c major minor = (major < c.major) ⊎ ((major ≡ c.major) × (minor ≤ c.minor))

pub at_least_iff :
    (c : Capabilities) (major minor : ℕ) → (at_least c major minor ≡ true) ↔ IsAtLeast c major minor
unfolding at_least
at_least_iff c major minor = ground arith

-- each gate with the minor version of the first 9.x release that opens it
abbrev pub openings : List ((Capabilities → Bool) × ℕ)
openings =
    (meets_minimum, 0)
    ∷ (sdn_fabrics, 0)
    ∷ (oci_templates, 1)
    ∷ (volume_chain_snapshots, 1)
    ∷ (tpm_state_snapshots, 1)
    ∷ (overlapping_ip_sets, 1)
    ∷ (clear_token_comment, 1)
    ∷ (otel_exporter, 1)
    ∷ (token_secret_rotation, 2)
    ∷ (zfs_raidz_expansion, 2)
    ∷ (ha_cluster_switch, 2)
    ∷ (sdn_advanced_fabrics, 2)
    ∷ []

-- the lexicographic order on all three components
abbrev pub IsUpgrade : Capabilities → Capabilities → Type 0
IsUpgrade c d =
    (c.major < d.major)
    ⊎ ((c.major ≡ d.major) × ((c.minor < d.minor) ⊎ ((c.minor ≡ d.minor) × (c.patch ≤ d.patch))))

-- What is said of a gate that opens in 9.x, along an upgrade.
abbrev OpensAt : Capabilities → Capabilities → (Capabilities → Bool) → ℕ → Type 0
OpensAt c d gate minor =
    ((gate c ≡ true) ↔ ((9 < c.major) ⊎ ((9 ≡ c.major) × (minor ≤ c.minor))))
    × (gate c ≡ true → gate d ≡ true)

opens_at :
    (c d : Capabilities) (minor : ℕ) → IsUpgrade c d → OpensAt c d (λ v. at_least v 9 minor) minor
unfolding at_least
opens_at c d minor up = (at_least_iff c 9 minor, ground arith)

-- The gates and the supported minimum: each of them is open exactly from its release 9.x on, in the
-- lexicographic order of major and minor version; and no upgrade, in the lexicographic order of all
-- three components, closes one that was open.
pub gates_monotone :
    (c d : Capabilities)
    → IsUpgrade c d
    → All
        (λ (gate, minor).
          ((gate c ≡ true) ↔ ((9 < c.major) ⊎ ((9 ≡ c.major) × (minor ≤ c.minor))))
          × (gate c ≡ true → gate d ≡ true))
        openings
unfolding oci_templates volume_chain_snapshots tpm_state_snapshots token_secret_rotation
    zfs_raidz_expansion ha_cluster_switch sdn_fabrics sdn_advanced_fabrics overlapping_ip_sets
    clear_token_comment otel_exporter meets_minimum
gates_monotone c d up =
    let at0 = opens_at c d 0 up in
    let at1 = opens_at c d 1 up in
    let at2 = opens_at c d 2 up in
    (at0, (at0, (at1, (at1, (at1, (at1, (at1, (at1, (at2, (at2, (at2, (at2, tt))))))))))))
