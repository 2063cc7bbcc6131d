-- ===== src/Version.antt =====
-- Versions and capabilities: proxmox/version/capabilities.go. A component of a version is read from
-- digits alone, so it is a natural number.
pub mod Order
pub mod RoundTrip
pub mod Require
mod Tests
use proxmox_go_sdk.Base.{
  ℕ, ◌<◌, Bool, true, false, not, ◌&&◌, Option, none, some, List, [], ◌∷◌, ◌++◌, ltb, leb, nat_eq,
  if◌then◌else◌, get_elem?,
}
use proxmox_go_sdk.Base.Text.{Text, text, is_empty, trim_space, split_n}
use proxmox_go_sdk.Base.Number.{ℤ, pos, negsuc, atoi, parse_int, format_nat}
use proxmox_go_sdk.Pverr.{
  Result, ok, err, ◌>>=◌, Err, plain, wrap, sentinel, unsupported, or_fail, ◌>>◌, fail_if,
}

pub record Capabilities : Type 0 where
  pub major : ℕ
  pub minor : ℕ
  pub patch : ℕ

abbrev pub minimum_major : ℕ
minimum_major = 9

abbrev pub minimum_minor : ℕ
minimum_minor = 0

abbrev pub dot : ℕ
dot = b'.'

abbrev pub is_digit : ℕ → Bool
is_digit c = leb b'0' c && leb c b'9'

-- `s[:end]` for the `end` that the loop of `leadingInt` reaches
unfoldable pub digit_run : Text → Text
digit_run [] = []
digit_run (c ∷ s) = let rest = digit_run s in if is_digit c then c ∷ rest else []

-- a value read from digits is not negative
abbrev pub as_nat : Option ℤ → Option ℕ
as_nat none = none
as_nat (some (pos n)) = some n
as_nat (some (negsuc n)) = none

unfoldable pub leading_int : Text → Option ℕ
unfolding digit_run
leading_int s = if is_empty (digit_run s) then none else as_nat (atoi (digit_run s))

abbrev pub parse_error : Err
parse_error = plain (text "version: parse")

-- a component that is missing is zero
unfoldable pub component : Option Text → Result ℕ
unfolding leading_int
component none = ok 0
component (some field) = or_fail (leading_int field) parse_error

-- `fields[0]` is always there
unfoldable pub parse_fields : List Text → Result Capabilities
unfolding component
parse_fields fields = do
  major ← component (get_elem? fields 0)
  minor ← component (get_elem? fields 1)
  patch ← component (get_elem? fields 2)
  ok (record { major = major; minor = minor; patch = patch })

unfoldable pub parse : Text → Result Capabilities
unfolding parse_fields
parse s =
    let t = trim_space s in
    if is_empty t
    then err (plain (text "version: empty version string"))
    else parse_fields (split_n dot 3 t)

unfoldable pub at_least : Capabilities → ℕ → ℕ → Bool
at_least c major minor = if nat_eq c.major major then leb minor c.minor else ltb major c.major

unfoldable pub meets_minimum : Capabilities → Bool
unfolding at_least
meets_minimum c = at_least c minimum_major minimum_minor

unfoldable pub oci_templates : Capabilities → Bool
oci_templates c = at_least c 9 1

unfoldable pub volume_chain_snapshots : Capabilities → Bool
volume_chain_snapshots c = at_least c 9 1

unfoldable pub tpm_state_snapshots : Capabilities → Bool
tpm_state_snapshots c = at_least c 9 1

unfoldable pub token_secret_rotation : Capabilities → Bool
token_secret_rotation c = at_least c 9 2

unfoldable pub zfs_raidz_expansion : Capabilities → Bool
zfs_raidz_expansion c = at_least c 9 2

unfoldable pub ha_cluster_switch : Capabilities → Bool
ha_cluster_switch c = at_least c 9 2

unfoldable pub sdn_fabrics : Capabilities → Bool
sdn_fabrics c = at_least c 9 0

unfoldable pub sdn_advanced_fabrics : Capabilities → Bool
sdn_advanced_fabrics c = at_least c 9 2

unfoldable pub overlapping_ip_sets : Capabilities → Bool
overlapping_ip_sets c = at_least c 9 1

unfoldable pub clear_token_comment : Capabilities → Bool
clear_token_comment c = at_least c 9 1

unfoldable pub otel_exporter : Capabilities → Bool
otel_exporter c = at_least c 9 1

-- `Capabilities.String`
unfoldable pub to_text : Capabilities → Text
to_text c =
    format_nat 10 c.major
    ++ (text "." ++ (format_nat 10 c.minor ++ (text "." ++ format_nat 10 c.patch)))

unfoldable pub require : Capabilities → Text → Text → Result (Unit {0})
require c feature min_version = elim (parse min_version) [
  | err e ↦ err (wrap (text "version: require") e)
  | ok want ↦
      if at_least c want.major want.minor
      then ok tt
      else err (
          wrap
            (feature
              ++ (text " requires PVE "
                  ++ (min_version ++ (text " (have " ++ (to_text c ++ text ")")))))
            (sentinel unsupported))
]

-- `Service.Capabilities` on the answer to GET /version: the version text, or the request's error
unfoldable pub capabilities : Result Text → Result Capabilities
capabilities answer = do
  version ← answer
  caps ← parse version
  fail_if (not (meets_minimum caps)) (
      wrap (text "proxmox " ++ (to_text caps ++ text " is below the supported minimum 9.0"))
        (sentinel unsupported))
  ok caps
