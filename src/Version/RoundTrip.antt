-- ===== src/Version/RoundTrip.antt =====
-- Parsing what `Capabilities.String` prints: proxmox/version/capabilities.go.
use proxmox_go_sdk.Base.{
  ℕ, ◌<◌, ◌≡◌, ◌≢◌, ◌∙◌, ap, refl, sym, false, some, [], ◌∷◌, ◌++◌, arith, All, All-append,
  append_assoc, append-nil,
}
use proxmox_go_sdk.Base.Text.{
  Text, is_empty, is_space, NoSpace, Lacks, trim_space-NoSpace, split_n, split_n-append, All-map,
  split_n-Lacks,
}
use proxmox_go_sdk.Base.Number.{
  parse_int-format_nat, format_nat, format_nat-IsDecimal, IsDecimal, format_nat-ne-nil, two63,
}
use proxmox_go_sdk.Pverr.{ok}
use proxmox_go_sdk.Version.{
  Capabilities, dot, is_digit, digit_run, leading_int, component, parse_fields, parse, to_text,
  as_nat,
}

-- The text does not go on with a digit.
abbrev pub NoDigitHead : Text → Type 0
NoDigitHead [] = Unit
NoDigitHead (c ∷ s) = is_digit c ≡ false

digit_run-append : (s rest : Text) → All IsDecimal s → NoDigitHead rest → digit_run (s ++ rest) ≡ s
unfolding digit_run
digit_run-append [] [] hs hr = refl
digit_run-append [] (c ∷ rest) hs hr = rw (hr, digit_run)
digit_run-append (c ∷ s) rest hs hr = ground (arith, digit_run-append s rest hs.1 hr)

is_empty_ne : (s : Text) → s ≢ [] → is_empty s ≡ false
is_empty_ne [] h = absurd (h refl)
is_empty_ne (c ∷ s) h = refl

leading_int-format_nat :
    (n : ℕ) (rest : Text)
    → n < two63
    → NoDigitHead rest
    → leading_int (format_nat 10 n ++ rest) ≡ some n
unfolding leading_int
leading_int-format_nat n rest fits h =
    let run : digit_run (format_nat 10 n ++ rest) ≡ format_nat 10 n =
      digit_run-append (format_nat 10 n) rest (format_nat-IsDecimal n) h in
    rw (run, is_empty_ne _ (format_nat-ne-nil 10 (omega arith) (omega arith) n))
      (ap as_nat (parse_int-format_nat 10 (omega arith) (omega arith) n fits))

component-format_nat :
    (n : ℕ) (rest : Text)
    → n < two63
    → NoDigitHead rest
    → component (some (format_nat 10 n ++ rest)) ≡ ok n
component-format_nat n rest fits h =
    unfold component in rw (leading_int-format_nat n rest fits h) refl

component_plain : (n : ℕ) → n < two63 → component (some (format_nat 10 n)) ≡ ok n
component_plain n fits =
    ap (λ s. component (some s)) (sym (append-nil (format_nat 10 n)))
    ∙ component-format_nat n [] fits tt

abbrev pub Fits : Capabilities → Type 0
Fits c = (c.major < two63) × (c.minor < two63) × (c.patch < two63)

decimal-Lacks-dot : (n : ℕ) → Lacks dot (format_nat 10 n)
decimal-Lacks-dot n =
    All-map IsDecimal (λ c. c ≢ dot) (format_nat 10 n) (λ c h. omega arith) (format_nat-IsDecimal n)

decimal-NoSpace : (n : ℕ) → NoSpace (format_nat 10 n)
decimal-NoSpace n =
    All-map IsDecimal (λ c. is_space c ≡ false) (format_nat 10 n) (λ c h. ground arith)
      (format_nat-IsDecimal n)

to_text-NoSpace : (c : Capabilities) → NoSpace (to_text c)
unfolding to_text
to_text-NoSpace c =
    let clean = decimal-NoSpace in
    All-append _ (format_nat 10 c.major) _ (clean c.major)
      (refl, All-append _ (format_nat 10 c.minor) _ (clean c.minor) (refl, clean c.patch))

to_text-append :
    (c : Capabilities) (suffix : Text)
    → to_text c ++ suffix
      ≡ format_nat 10 c.major
        ++ dot ∷ (format_nat 10 c.minor ++ dot ∷ (format_nat 10 c.patch ++ suffix))
unfolding to_text
to_text-append c suffix = simp append_assoc

is_empty-append : (s t : Text) → s ≢ [] → is_empty (s ++ t) ≡ false
is_empty-append [] t h = absurd (h refl)
is_empty-append (c ∷ s) t h = refl

to_text_not_empty : (c : Capabilities) (suffix : Text) → is_empty (to_text c ++ suffix) ≡ false
to_text_not_empty c suffix =
    ap is_empty (to_text-append c suffix)
    ∙ is_empty-append (format_nat 10 c.major) _
        (format_nat-ne-nil 10 (omega arith) (omega arith) c.major)

split_n_one : (sep : ℕ) (s : Text) → split_n sep 1 s ≡ s ∷ []
unfolding split_n
split_n_one sep s = refl

split_n-to_text :
    (c : Capabilities) (suffix : Text)
    → split_n dot 3 (to_text c ++ suffix)
      ≡ format_nat 10 c.major ∷ format_nat 10 c.minor ∷ (format_nat 10 c.patch ++ suffix) ∷ []
split_n-to_text c suffix =
    let lacks = decimal-Lacks-dot in
    ap (split_n dot 3) (to_text-append c suffix)
    ∙ split_n-append dot 1 (format_nat 10 c.major) _ (lacks c.major)
    ∙ ap (λ l. format_nat 10 c.major ∷ l)
        (split_n-append dot 0 (format_nat 10 c.minor) _ (lacks c.minor)
          ∙ ap (λ l. format_nat 10 c.minor ∷ l) (split_n_one dot _))

parse_fields_lem :
    (c : Capabilities) (suffix : Text)
    → Fits c
    → NoDigitHead suffix
    → parse_fields
        (format_nat 10 c.major ∷ format_nat 10 c.minor ∷ (format_nat 10 c.patch ++ suffix) ∷ [])
      ≡ ok c
unfolding parse_fields
parse_fields_lem c suffix fits h =
    rw
      (
        component_plain c.major fits.0,
        component_plain c.minor fits.1,
        component-format_nat c.patch suffix fits.2 h,
      )
      refl

-- A version is read back from its print, also behind a packaging suffix such as `-1` or `~rc1`: any
-- text without white space that does not begin with a digit. The components are 64-bit.
pub parse-to_text :
    (c : Capabilities) (suffix : Text)
    → Fits c
    → NoSpace suffix
    → NoDigitHead suffix
    → parse (to_text c ++ suffix) ≡ ok c
unfolding parse
parse-to_text c suffix fits clean h =
    rw
      (
        trim_space-NoSpace (to_text c ++ suffix)
            (All-append _ (to_text c) suffix (to_text-NoSpace c) clean),
        to_text_not_empty c suffix,
        split_n-to_text c suffix,
        parse_fields_lem c suffix fits h,
      )
      refl

-- A version text of two components: the patch level is zero.
abbrev pub short_text : ℕ → ℕ → Text
short_text major minor = format_nat 10 major ++ dot ∷ format_nat 10 minor

short_text-NoSpace : (major minor : ℕ) → NoSpace (short_text major minor)
short_text-NoSpace major minor =
    All-append _ (format_nat 10 major) _ (decimal-NoSpace major) (refl, decimal-NoSpace minor)

split_n-short_text :
    (major minor : ℕ)
    → split_n dot 3 (short_text major minor) ≡ format_nat 10 major ∷ format_nat 10 minor ∷ []
split_n-short_text major minor =
    split_n-append dot 1 (format_nat 10 major) _ (decimal-Lacks-dot major)
    ∙ ap (λ l. format_nat 10 major ∷ l)
        (split_n-Lacks dot 1 (format_nat 10 minor) (decimal-Lacks-dot minor))

parse_fields_short :
    (major minor : ℕ)
    → major < two63
    → minor < two63
    → parse_fields (format_nat 10 major ∷ format_nat 10 minor ∷ [])
      ≡ ok (record { major = major; minor = minor; patch = 0 })
unfolding parse_fields component
parse_fields_short major minor h k = rw (component_plain major h, component_plain minor k) refl

pub parse-short_text :
    (major minor : ℕ)
    → major < two63
    → minor < two63
    → parse (short_text major minor) ≡ ok (record { major = major; minor = minor; patch = 0 })
unfolding parse
parse-short_text major minor h k =
    rw
      (
        trim_space-NoSpace (short_text major minor) (short_text-NoSpace major minor),
        is_empty-append (format_nat 10 major) (dot ∷ format_nat 10 minor)
            (format_nat-ne-nil 10 (omega arith) (omega arith) major),
        split_n-short_text major minor,
        parse_fields_short major minor h k,
      )
      refl
