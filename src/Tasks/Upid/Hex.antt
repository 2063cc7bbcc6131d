-- ===== src/Tasks/Upid/Hex.antt =====
-- The numbers in an identifier as PVE prints them with `%08X`, and at any other width and in small
-- letters too, as `strconv.ParseInt` reads them for proxmox/tasks/upid.go.
use mathlib.Core.List.{cons-ne-nil}
use proxmox_go_sdk.Base.{
  ℕ, zero, suc, ◌+◌, ◌-◌, ◌*◌, ◌<◌, ◌≡◌, ◌≢◌, ◌∙◌, refl, Bool, true, false, some, [], ◌∷◌, ◌++◌,
  map, arith, leb, if◌then◌else◌, length, All, All-append, ◌≤◌, Option-cases, inl, inr, sym,
}
use proxmox_go_sdk.Base.Text.{Text, All-map, Lacks, colon}
use proxmox_go_sdk.Base.Number.{
  pos, parse_int, parse_nat, scan, digit_value, format_nat, format_nat-IsDigitByte, IsDigitByte,
  format_nat-ne-nil, parse_nat-format_nat, two63, scan_stop, scan_step, parse_nat-scan,
}

-- a small letter as the capital one
abbrev pub upper_byte : ℕ → ℕ
upper_byte c = if leb b'a' c then c - 32 else c

abbrev pub zeros : ℕ → Text
zeros zero = []
zeros (suc k) = b'0' ∷ zeros k

-- The hexadecimal digits, in capitals or not, with zeros in front up to the width: `%08X` is
-- `hex_text true 8`.
unfoldable pub hex_text : Bool → ℕ → ℕ → Text
hex_text upper width n =
    zeros (width - length (format_nat 16 n))
    ++ (if upper then map upper_byte (format_nat 16 n) else format_nat 16 n)

-- A byte that stands for a digit: no sign, and no colon.
abbrev IsHexByte : ℕ → Type 0
IsHexByte c = (b'0' ≤ c) × (c ≢ colon)

upper_byte-IsHexByte : (c : ℕ) → IsDigitByte c → IsHexByte (upper_byte c)
upper_byte-IsHexByte c h = ground arith

upper-All : (s : Text) → All IsDigitByte s → All IsHexByte (map upper_byte s)
upper-All [] h = tt
upper-All (c ∷ s) h = (upper_byte-IsHexByte c h.0, upper-All s h.1)

zeros-All : (k : ℕ) → All IsHexByte (zeros k)
zeros-All zero = tt
zeros-All (suc k) = (omega arith, zeros-All k)

cased-All :
    (upper : Bool) (n : ℕ)
    → All IsHexByte (if upper then map upper_byte (format_nat 16 n) else format_nat 16 n)
cased-All true n =
    upper-All (format_nat 16 n) (format_nat-IsDigitByte 16 (omega arith) (omega arith) n)
cased-All false n =
    All-map IsDigitByte IsHexByte (format_nat 16 n) (λ c h. ground arith)
      (format_nat-IsDigitByte 16 (omega arith) (omega arith) n)

hex_text-All : (upper : Bool) (width n : ℕ) → All IsHexByte (hex_text upper width n)
unfolding hex_text
hex_text-All upper width n =
    All-append IsHexByte (zeros (width - length (format_nat 16 n))) _ (zeros-All _)
      (cased-All upper n)

pub hex_text-Lacks-colon : (upper : Bool) (width n : ℕ) → Lacks colon (hex_text upper width n)
hex_text-Lacks-colon upper width n =
    All-map IsHexByte (λ c. c ≢ colon) (hex_text upper width n) (λ c h. h.1)
      (hex_text-All upper width n)

digit_value-upper : (c : ℕ) → IsDigitByte c → digit_value 16 (upper_byte c) ≡ digit_value 16 c
unfolding digit_value
digit_value-upper c h = ground arith

scan-upper : (s : Text) (n : ℕ) → All IsDigitByte s → scan 16 n (map upper_byte s) ≡ scan 16 n s
scan-upper [] n h = refl
scan-upper (c ∷ s) n h =
    let same = digit_value-upper c h.0 in
    elim (Option-cases (digit_value 16 c)) [
      | inl bad ↦ scan_stop 16 n (upper_byte c) _ (same ∙ bad) ∙ sym (scan_stop 16 n c s bad)
      | inr (d, good) ↦
          scan_step 16 n (upper_byte c) d _ (same ∙ good)
          ∙ scan-upper s (n * 16 + d) h.1
          ∙ sym (scan_step 16 n c d s good)
    ]

scan-zeros : (k : ℕ) (s : Text) → scan 16 0 (zeros k ++ s) ≡ scan 16 0 s
unfolding scan digit_value
scan-zeros zero s = refl
scan-zeros (suc k) s = scan-zeros k s

scan-cased :
    (upper : Bool) (n : ℕ)
    → scan 16 0 (if upper then map upper_byte (format_nat 16 n) else format_nat 16 n)
      ≡ scan 16 0 (format_nat 16 n)
scan-cased true n =
    scan-upper (format_nat 16 n) 0 (format_nat-IsDigitByte 16 (omega arith) (omega arith) n)
scan-cased false n = refl

map_ne_nil : (s : Text) → s ≢ [] → map upper_byte s ≢ []
map_ne_nil [] h = absurd (h refl)
map_ne_nil (c ∷ s) h = cons-ne-nil _ _

zeros_ne_nil : (k : ℕ) (s : Text) → s ≢ [] → zeros k ++ s ≢ []
zeros_ne_nil zero s h = h
zeros_ne_nil (suc k) s h = cons-ne-nil _ _

scan-hex_text : (upper : Bool) (width n : ℕ) → scan 16 0 (hex_text upper width n) ≡ some n
unfolding hex_text
scan-hex_text upper width n =
    scan-zeros (width - length (format_nat 16 n)) _
    ∙ scan-cased upper n
    ∙ sym (parse_nat-scan 16 (format_nat 16 n) (format_nat-ne-nil 16 (omega arith) (omega arith) n))
    ∙ parse_nat-format_nat 16 (omega arith) (omega arith) n

parse_int_hex :
    (s : Text) (n : ℕ)
    → All IsHexByte s
    → s ≢ []
    → n < two63
    → scan 16 0 s ≡ some n
    → parse_int 16 s ≡ some (pos n)
unfolding parse_int parse_nat
parse_int_hex [] n all ne fits read = absurd (ne refl)
parse_int_hex (c ∷ s) n all ne fits read = rw read (ground (arith, all.0))

cased_ne_nil :
    (upper : Bool) (n : ℕ)
    → (if upper then map upper_byte (format_nat 16 n) else format_nat 16 n) ≢ []
cased_ne_nil true n =
    map_ne_nil (format_nat 16 n) (format_nat-ne-nil 16 (omega arith) (omega arith) n)
cased_ne_nil false n = format_nat-ne-nil 16 (omega arith) (omega arith) n

hex_text-ne-nil : (upper : Bool) (width n : ℕ) → hex_text upper width n ≢ []
unfolding hex_text
hex_text-ne-nil upper width n = zeros_ne_nil _ _ (cased_ne_nil upper n)

pub parse_int-hex_text :
    (upper : Bool) (width n : ℕ) → n < two63 → parse_int 16 (hex_text upper width n) ≡ some (pos n)
parse_int-hex_text upper width n fits =
    parse_int_hex (hex_text upper width n) n (hex_text-All upper width n)
      (hex_text-ne-nil upper width n) fits (scan-hex_text upper width n)
