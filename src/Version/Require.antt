-- ===== src/Version/Require.antt =====
-- The version gate and the snapshot: proxmox/version/capabilities.go and proxmox/version/service.go.
use proxmox_go_sdk.Base.{
  ◌≡◌, ◌≤◌, ◌<◌, ◌∙◌, sym, ap, refl, true, false, [], ◌∷◌, ◌++◌, append-nil, arith, Bool-cases, ℕ,
  inl, All, inr,
}
use proxmox_go_sdk.Base.Text.{Text, NoSpace}
use proxmox_go_sdk.Pverr.{Result, ok, err, Err, is_err, unsupported}
use proxmox_go_sdk.Version.{
  Capabilities, parse, to_text, at_least, require, capabilities, meets_minimum,
}
use proxmox_go_sdk.Version.Order.{IsAtLeast, at_least_iff}
use proxmox_go_sdk.Base.Number.{format_nat, two63}
use proxmox_go_sdk.Version.RoundTrip.{parse-short_text, Fits, NoDigitHead, parse-to_text}

-- The result is an error that `errors.Is` takes for `ErrUnsupported`.
abbrev pub IsUnsupported {ℓ} : {A : Type ℓ} → Result A → Type 0
IsUnsupported (ok a) = ⊥
IsUnsupported (err e) = is_err e unsupported ≡ true

parse_plain :
    (w : Capabilities)
    → Fits w
    → parse
        (format_nat 10 w.major ++ b'.' ∷ (format_nat 10 w.minor ++ b'.' ∷ format_nat 10 w.patch))
      ≡ ok w
unfolding to_text
parse_plain w fits = ap parse (sym (append-nil (to_text w))) ∙ parse-to_text w [] fits tt tt

module _ (c w : Capabilities) (feature t : Text) (read : parse t ≡ ok w) where
  require_met : IsAtLeast c w.major w.minor → require c feature t ≡ ok tt
  unfolding require
  require_met h = rw (read, require, (at_least_iff c w.major w.minor).1 h) refl

  require_unmet : ¬ IsAtLeast c w.major w.minor → IsUnsupported (require c feature t)
  unfolding require is_err
  require_unmet h = elim (Bool-cases (at_least c w.major w.minor)) [
    | inl new ↦ absurd (h ((at_least_iff c w.major w.minor).0 new))
    | inr old ↦ rw (read, require, old) refl
  ]

-- The gate for a minimum version of two components, such as `9.2`, or of three, each of them 64-bit:
-- it opens when the server's major and minor version are lexicographically at least those two, and
-- otherwise reports the feature as unsupported; the patch levels do not matter.
pub require_gate :
    (c : Capabilities) (feature : Text) (major minor patch : ℕ)
    → major < two63
    → minor < two63
    → patch < two63
    → All
        (λ min_version.
          (IsAtLeast c major minor → require c feature min_version ≡ ok tt)
          × (¬ IsAtLeast c major minor → IsUnsupported (require c feature min_version)))
        ((format_nat 10 major ++ b'.' ∷ format_nat 10 minor)
          ∷ (format_nat 10 major ++ b'.' ∷ (format_nat 10 minor ++ b'.' ∷ format_nat 10 patch))
          ∷ [])
require_gate c feature major minor patch h k l =
    let w : Capabilities = record { major = major; minor = minor; patch = patch } in
    let w' : Capabilities = record { major = major; minor = minor; patch = 0 } in
    let read' = parse-short_text major minor h k in
    let read = parse_plain w (h, k, l) in
    (
      (require_met c w' feature _ read', require_unmet c w' feature _ read'),
      ((require_met c w feature _ read, require_unmet c w feature _ read), tt),
    )

new_enough : (c : Capabilities) → 9 ≤ c.major → meets_minimum c ≡ true
unfolding meets_minimum
new_enough c h = ground arith

too_old : (c : Capabilities) → c.major < 9 → meets_minimum c ≡ false
unfolding meets_minimum
too_old c h = ground arith

-- The snapshot is the version that the server printed, with any packaging suffix, if its major
-- version is 9 or more; for an older server it is an error, reported as unsupported; and an error of
-- the request is passed on.
pub capabilities_lem :
    (c : Capabilities) (suffix : Text) (e : Err)
    → Fits c
    → NoSpace suffix
    → NoDigitHead suffix
    → (9 ≤ c.major → capabilities (ok (to_text c ++ suffix)) ≡ ok c)
      × (c.major < 9 → IsUnsupported (capabilities (ok (to_text c ++ suffix))))
      × (capabilities (err e) ≡ err e)
unfolding capabilities is_err
capabilities_lem c suffix e fits clean h =
    rw (parse-to_text c suffix fits clean h)
      ((λ new. rw (new_enough c new) refl), (λ old. rw (too_old c old) refl), refl)
