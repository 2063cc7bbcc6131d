-- ===== src/Base/Number.antt =====
-- Go's `int` and package strconv: signed 64-bit values, printed and read in base 10 or 16.
use Prim.Native.Nat.{ℕ, zero, suc, ◌+◌, ◌-◌, ◌*◌, ◌/◌, ◌%◌, ◌^◌, ◌≤◌, ◌<◌}
use mathlib.Core.Path.{◌≡◌, refl, sym, ap, ◌∙◌}
use mathlib.Core.Logic.{◌≢◌, ◌↔◌, ◌⊎◌, inl, inr}
use mathlib.Core.Bool.{Bool, true, false, ◌&&◌}
use mathlib.Core.List.{[], ◌∷◌, ◌++◌, cons-ne-nil, concat-ne-nil}
use mathlib.Core.Option.{Option, none, some}
use native.Mathlib.Omega.{arith}
use proxmox_go_sdk.Base.Tests.{
  ltb, leb, nat_eq, if◌then◌else◌, Bool-cases, Option-cases, ltb→lt, lt→ltb,
}
use native.Mathlib.Nat.{mod-lt, div-add-mod', div-lt_self}
use proxmox_go_sdk.Base.Eq.{Eq}
use proxmox_go_sdk.Base.Lists.{All, All-append}
use proxmox_go_sdk.Base.Text.{Text}

-- `negsuc n` is -(n + 1).
pub data ℤ : Type 0 where
  pos : ℕ → ℤ
  negsuc : ℕ → ℤ

unfoldable pub int_eq : ℤ → ℤ → Bool
int_eq (pos a) (pos b) = nat_eq a b
int_eq (pos a) (negsuc b) = false
int_eq (negsuc a) (pos b) = false
int_eq (negsuc a) (negsuc b) = nat_eq a b

pub int_eq_iff : (a b : ℤ) → (int_eq a b ≡ true) ↔ (a ≡ b)
unfolding int_eq
int_eq_iff (pos a) (pos b) = ground arith
int_eq_iff (pos a) (negsuc b) = ground arith
int_eq_iff (negsuc a) (pos b) = ground arith
int_eq_iff (negsuc a) (negsuc b) = ground arith

instance abbrev pub int_Eq : Eq ℤ
int_Eq = record { equal = int_eq; equal_iff = int_eq_iff }

abbrev pub two63 : ℕ
two63 = 2 ^ 63

-- the values of a 64-bit int
abbrev pub IsInt64 : ℤ → Type 0
IsInt64 (pos n) = n < two63
IsInt64 (negsuc n) = n < two63

unfoldable pub digit_char : ℕ → ℕ
digit_char d = if ltb d 10 then b'0' + d else b'a' + (d - 10)

-- the value of one digit below the base
unfoldable pub digit_value : ℕ → ℕ → Option ℕ
digit_value base c =
    let d =
      if leb b'0' c && leb c b'9'
      then c - b'0'
      else if leb b'a' c && leb c b'z'
      then c - b'a' + 10
      else if leb b'A' c && leb c b'Z'
      then c - b'A' + 10
      else base in
    if ltb d base then some d else none

-- `strconv.FormatUint`: `fuel` bounds the number of digits, less one
unfoldable pub digits : ℕ → ℕ → ℕ → Text
unfolding digit_char
digits base zero n = digit_char n ∷ []
digits base (suc f) n =
    let front = digits base f (n / base) in
    if ltb n base then digit_char n ∷ [] else front ++ digit_char (n % base) ∷ []

unfoldable pub format_nat : ℕ → ℕ → Text
unfolding digits
format_nat base n = digits base n n

-- `strconv.FormatInt`
unfoldable pub format_int : ℕ → ℤ → Text
unfolding format_nat
format_int base (pos n) = format_nat base n
format_int base (negsuc n) = b'-' ∷ format_nat base (suc n)

abbrev pub itoa : ℤ → Text
itoa = format_int 10

unfoldable pub scan : ℕ → ℕ → Text → Option ℕ
unfolding digit_value
scan base n [] = some n
scan base n (c ∷ s) = elim (digit_value base c) [
  | none ↦ none
  | some d ↦ scan base (n * base + d) s
]

unfoldable pub parse_nat : ℕ → Text → Option ℕ
unfolding scan
parse_nat base [] = none
parse_nat base (c ∷ s) = scan base 0 (c ∷ s)

-- the range test of `strconv.ParseInt` at 64 bits
abbrev pub signed : Bool → Option ℕ → Option ℤ
signed neg none = none
signed false (some n) = if ltb n two63 then some (pos n) else none
signed true (some zero) = some (pos 0)
signed true (some (suc n)) = if ltb n two63 then some (negsuc n) else none

-- `strconv.ParseInt(s, base, 64)`; an error of either kind is `none`
unfoldable pub parse_int : ℕ → Text → Option ℤ
unfolding parse_nat
parse_int base [] = none
parse_int base (c ∷ s) =
    if nat_eq c b'+'
    then signed false (parse_nat base s)
    else if nat_eq c b'-'
    then signed true (parse_nat base s)
    else signed false (parse_nat base (c ∷ s))

abbrev pub atoi : Text → Option ℤ
atoi = parse_int 10

module _ (base : ℕ) (low : 2 ≤ base) (high : base ≤ 16) where
  digit_value-digit_char : (d : ℕ) → d < base → digit_value base (digit_char d) ≡ some d
  unfolding digit_value digit_char
  digit_value-digit_char d h = ground arith

-- One step of the scan, with the digit shut.
pub scan_step :
    (base acc c d : ℕ) (s : Text)
    → digit_value base c ≡ some d
    → scan base acc (c ∷ s) ≡ scan base (acc * base + d) s
unfolding scan
scan_step base acc c d s e = rw (e, scan)

pub scan_stop :
    (base acc c : ℕ) (s : Text) → digit_value base c ≡ none → scan base acc (c ∷ s) ≡ none
unfolding scan
scan_stop base acc c s e = rw (e, scan)

scan_nil : (base acc : ℕ) → scan base acc [] ≡ some acc
unfolding scan
scan_nil base acc = refl

-- A digit behind a text that was read is read last.
scan_snoc :
    (base : ℕ) (s : Text) (acc n c d : ℕ)
    → digit_value base c ≡ some d
    → scan base acc s ≡ some n
    → scan base acc (s ++ c ∷ []) ≡ some (n * base + d)
scan_snoc base [] acc n c d hd e =
    scan_step base acc c d [] hd
    ∙ scan_nil base (acc * base + d)
    ∙ ground (arith, scan_nil base acc)
scan_snoc base (x ∷ s) acc n c d hd e = elim (Option-cases (digit_value base x)) [
  | inl bad ↦ cc (scan_stop base acc x s bad)
  | inr (v, good) ↦
      scan_step base acc x v _ good
      ∙ scan_snoc base s (acc * base + v) n c d hd (sym (scan_step base acc x v s good) ∙ e)
]

module _ (base : ℕ) (low : 2 ≤ base) (high : base ≤ 16) where
  quotient_le : (n f : ℕ) → base ≤ n → n ≤ suc f → n / base ≤ f
  quotient_le n f h k =
      let smaller : n / base < n = div-lt_self (omega arith) (omega arith) in omega arith

  scan-digits : (f n : ℕ) → n ≤ f → scan base 0 (digits base f n) ≡ some n
  unfolding digits
  scan-digits zero n h =
      scan_step base 0 _ n [] (digit_value-digit_char base low high n (omega arith))
      ∙ scan_nil base (0 * base + n)
      ∙ ground arith
  scan-digits (suc f) n h = elim (Bool-cases (ltb n base)) [
    | inl small ↦ rw small (
        scan_step base 0 _ n [] (digit_value-digit_char base low high n (ltb→lt n base small))
        ∙ scan_nil base (0 * base + n)
        ∙ ground arith)
    | inr big ↦ rw big (
        scan_snoc base (digits base f (n / base)) 0 (n / base) _ (n % base)
          (digit_value-digit_char base low high (n % base) (mod-lt n (omega arith)))
          (scan-digits f (n / base) (quotient_le n f (ground arith) h))
        ∙ ap some (div-add-mod' n base))
  ]

  digits_ne_nil : (f n : ℕ) → digits base f n ≢ []
  unfolding digits
  digits_ne_nil zero n = cons-ne-nil _ []
  digits_ne_nil (suc f) n = elim (Bool-cases (ltb n base)) [
    | inl small ↦ rw small (cons-ne-nil _ [])
    | inr big ↦ rw big (concat-ne-nil _ (digits base f (n / base)))
  ]

pub parse_nat-scan : (base : ℕ) (s : Text) → s ≢ [] → parse_nat base s ≡ scan base 0 s
unfolding parse_nat
parse_nat-scan base [] h = absurd (h refl)
parse_nat-scan base (c ∷ s) h = refl

-- Every byte that is printed has the property that the digits have.
module _ {ℓ} (base : ℕ) (low : 2 ≤ base) (high : base ≤ 16) (P : ℕ → Type ℓ)
    (each : (d : ℕ) → d < base → P (digit_char d)) where
  digits-All : (f n : ℕ) → n ≤ f → All P (digits base f n)
  unfolding digits
  digits-All zero n h = (each n (omega arith), tt)
  digits-All (suc f) n h = elim (Bool-cases (ltb n base)) [
    | inl small ↦ rw small (each n (ltb→lt n base small), tt)
    | inr big ↦ rw big (
        All-append P (digits base f (n / base)) _
          (digits-All f (n / base) (quotient_le base low high n f (ground arith) h))
          (each (n % base) (mod-lt n (omega arith)), tt))
  ]

  pub format_nat-All : (n : ℕ) → All P (format_nat base n)
  unfolding format_nat
  format_nat-All n = digits-All n n (omega arith)

abbrev pub IsDecimal : ℕ → Type 0
IsDecimal c = (b'0' ≤ c) × (c ≤ b'9')

digit_char-IsDecimal : (d : ℕ) → d < 10 → IsDecimal (digit_char d)
unfolding digit_char
digit_char-IsDecimal d h = ground arith

pub format_nat-IsDecimal : (n : ℕ) → All IsDecimal (format_nat 10 n)
format_nat-IsDecimal = format_nat-All 10 (omega arith) (omega arith) IsDecimal digit_char-IsDecimal

-- a digit or a small letter, as `FormatInt` prints in any base up to 16
abbrev pub IsDigitByte : ℕ → Type 0
IsDigitByte c = (b'0' ≤ c) × (c ≤ b'f') × ((c ≤ b'9') ⊎ (b'a' ≤ c))

digit_char-IsDigitByte : (d : ℕ) → d < 16 → IsDigitByte (digit_char d)
unfolding digit_char
digit_char-IsDigitByte d h = ground arith

module _ (base : ℕ) (low : 2 ≤ base) (high : base ≤ 16) where
  pub format_nat-IsDigitByte : (n : ℕ) → All IsDigitByte (format_nat base n)
  format_nat-IsDigitByte =
      format_nat-All base low high IsDigitByte (λ d h. digit_char-IsDigitByte d (omega arith))

  pub format_nat-ne-nil : (n : ℕ) → format_nat base n ≢ []
  unfolding format_nat
  format_nat-ne-nil n = digits_ne_nil base low high n n

  pub parse_nat-format_nat : (n : ℕ) → parse_nat base (format_nat base n) ≡ some n
  unfolding format_nat
  parse_nat-format_nat n =
      parse_nat-scan base _ (digits_ne_nil base low high n n)
      ∙ scan-digits base low high n n (omega arith)

-- A text that begins with neither sign is read as it stands.
parse_int_unsigned :
    (base : ℕ) (s : Text)
    → All IsDigitByte s
    → s ≢ []
    → parse_int base s ≡ signed false (parse_nat base s)
unfolding parse_int
parse_int_unsigned base [] h ne = absurd (ne refl)
parse_int_unsigned base (c ∷ s) h ne = ground (arith, h.0)

module _ (base : ℕ) (low : 2 ≤ base) (high : base ≤ 16) where
  -- `ParseInt` reads back what `FormatInt` printed.
  pub parse_int-format_nat : (n : ℕ) → n < two63 → parse_int base (format_nat base n) ≡ some (pos n)
  parse_int-format_nat n h =
      parse_int_unsigned base (format_nat base n) (format_nat-IsDigitByte base low high n)
        (format_nat-ne-nil base low high n)
      ∙ ap (signed false) (parse_nat-format_nat base low high n)
      ∙ rw (lt→ltb n two63 h)

  pub parse_int-format_int : (z : ℤ) → IsInt64 z → parse_int base (format_int base z) ≡ some z
  parse_int-format_int (pos n) h = unfold format_int in parse_int-format_nat n h
  parse_int-format_int (negsuc n) h =
      unfold format_int parse_int in
      ap (signed true) (parse_nat-format_nat base low high (suc n)) ∙ rw (lt→ltb n two63 h)
