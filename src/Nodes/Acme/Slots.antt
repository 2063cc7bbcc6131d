-- ===== src/Nodes/Acme/Slots.antt =====
-- Slots and their keys: `ACMEDomainKey` and `acmeDomainSlot` of proxmox/nodes/nodeconfig.go.
use proxmox_go_sdk.Base.{
  ◌≢◌, ℕ, ◌<◌, ◌≡◌, ◌↔◌, refl, sym, ap, ◌∙◌, false, Option, none, some, [], ◌∷◌, ◌++◌, arith,
  if◌then◌else◌, Option-cases, Bool-cases, inl, inr,
}
use proxmox_go_sdk.Base.Eq.{◌==◌, text_Eq, eq_refl, eq_sound}
use proxmox_go_sdk.Base.Text.{Text, is_empty, cut_prefix}
use proxmox_go_sdk.Base.Number.{
  ℤ, pos, negsuc, itoa, atoi, format_int, two63, parse_int-format_int, format_nat,
  format_nat-ne-nil,
}
use proxmox_go_sdk.Nodes.Acme.{acme_domain_key, acme_domain_slot, canonical, key_prefix}

cut_prefix_sound : (s p rest : Text) → cut_prefix s p ≡ some rest → s ≡ p ++ rest
unfolding cut_prefix
cut_prefix_sound s [] rest h = ground (arith, h)
cut_prefix_sound [] (c ∷ p) rest h = ground (arith, h)
cut_prefix_sound (d ∷ s) (c ∷ p) rest h = ground (arith, h, cut_prefix_sound s p rest)

canonical_sound :
    (suffix : Text) (o : Option ℤ) (i : ℤ) → canonical suffix o ≡ some i → suffix ≡ itoa i
unfolding canonical
canonical_sound suffix none i h = ground (arith, h)
canonical_sound suffix (some (negsuc n)) i h = ground (arith, h)
canonical_sound suffix (some (pos n)) i h = elim (Bool-cases (itoa (pos n) == suffix)) [
  | inl e ↦
      let found : some (pos n) ≡ some i = sym (rw (canonical, e) refl) ∙ h in
      sym (eq_sound (itoa (pos n)) suffix e) ∙ ap itoa (ground (arith, found))
  | inr e ↦ let found : none ≡ some i = sym (rw (canonical, e) refl) ∙ h in ground (arith, found)
]

is_empty-false : (s : Text) → s ≢ [] → is_empty s ≡ false
is_empty-false [] h = ground (arith, h)
is_empty-false (c ∷ s) h = refl

itoa-nonempty : (n : ℕ) → is_empty (itoa (pos n)) ≡ false
unfolding format_int
itoa-nonempty n =
    is_empty-false (format_nat 10 n) (format_nat-ne-nil 10 (omega arith) (omega arith) n)

-- the slot of a key with the prefix
slot-prefix :
    (suffix : Text)
    → acme_domain_slot (key_prefix ++ suffix)
      ≡ (if is_empty suffix then none else canonical suffix (atoi suffix))
unfolding acme_domain_slot cut_prefix
slot-prefix suffix = refl

slot-key : (n : ℕ) → n < two63 → acme_domain_slot (acme_domain_key (pos n)) ≡ some (pos n)
unfolding acme_domain_key canonical
slot-key n small =
    slot-prefix (itoa (pos n))
    ∙ rw
        (
          itoa-nonempty n,
          parse_int-format_int 10 (omega arith) (omega arith) (pos n) small,
          eq_refl (itoa (pos n)),
        )
        refl

key-slot : (key : Text) (i : ℤ) → acme_domain_slot key ≡ some i → key ≡ acme_domain_key i
unfolding acme_domain_key acme_domain_slot
key-slot key i h = elim (Option-cases (cut_prefix key key_prefix)) [
  | inl e ↦
      let found : none ≡ some i = sym (rw (acme_domain_slot, e) refl) ∙ h in ground (arith, found)
  | inr (suffix, e) ↦
      let same : key ≡ key_prefix ++ suffix = cut_prefix_sound key key_prefix suffix e in
      let found : (if is_empty suffix then none else canonical suffix (atoi suffix)) ≡ some i =
        sym (ap acme_domain_slot same ∙ slot-prefix suffix) ∙ h in
      elim (Bool-cases (is_empty suffix)) [
        | inl blank ↦
            let impossible : none ≡ some i = rw blank at found in ground (arith, impossible)
        | inr other ↦
            same
            ∙ ap (λ s. key_prefix ++ s) (canonical_sound suffix (atoi suffix) i (rw other at found))
      ]
]

-- For a number of 64 bits, a key is read as that slot exactly when it is the key that is written for it:
-- no two keys stand for one slot.
pub acme_domain_slot_iff :
    (key : Text) (n : ℕ)
    → n < two63
    → (acme_domain_slot key ≡ some (pos n)) ↔ (key ≡ acme_domain_key (pos n))
acme_domain_slot_iff key n small =
    (key-slot key (pos n), λ e. ap acme_domain_slot e ∙ slot-key n small)
