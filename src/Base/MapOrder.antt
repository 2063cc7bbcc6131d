-- ===== src/Base/MapOrder.antt =====
-- What a map holds does not depend on the order of its entries.
use mathlib.Core.Path.{◌≡◌, refl, sym, ◌∙◌, subst}
use mathlib.Core.List.{◌∷◌, Permᴰ}
use native.Mathlib.Omega.{arith}
use proxmox_go_sdk.Base.Eq.{Eq}
use proxmox_go_sdk.Base.Map.{Map, lookup, IsMap}

module _ {ℓ κ} {K : Type ℓ} {V : Type κ} ⦃e : Eq K⦄ where
  -- One map under two orders of its entries.
  abbrev pub SameLookups : Map K V → Map K V → Type (ℓ ⊔ κ)
  SameLookups m n = (k : K) → lookup k m ≡ lookup k n

  cons-SameLookups : (a : K × V) (m n : Map K V) → SameLookups m n → SameLookups (a ∷ m) (a ∷ n)
  unfolding lookup
  cons-SameLookups a m n h k = ground (arith, h k)

  swap-SameLookups :
      (a b : K × V) (m : Map K V)
      → IsMap (a ∷ b ∷ m)
      → SameLookups (a ∷ b ∷ m) (b ∷ a ∷ m) × IsMap (b ∷ a ∷ m)
  unfolding lookup
  swap-SameLookups (j, v) (k, w) m h = (
    (λ i. ground (arith, e.equal_iff k j, e.equal_iff j i, e.equal_iff k i)),
    (
      ground (arith, e.equal_iff k j, e.equal_iff j k),
      (ground (arith, e.equal_iff k j, e.equal_iff j k), h.1.1),
    ),
  )

  pub lookup-perm : (m n : Map K V) → Permᴰ m n → IsMap m → SameLookups m n × IsMap n
  lookup-perm _ _ Permᴰ.nil h = ((λ k. refl), tt)
  lookup-perm _ _ (Permᴰ.cons {a = a} {b = b} {l₁ = m} {l₂ = n} p q) h =
      let (same, valid) = lookup-perm m n q h.1 in
      subst (λ c. SameLookups (a ∷ m) (c ∷ n) × IsMap (c ∷ n)) p
        (cons-SameLookups a m n same, (sym (same a.0) ∙ h.0, valid))
  lookup-perm _ _ (Permᴰ.swap {a = a} {b = b} {a' = a'} {b' = b'} {l = m} p q) h =
      subst (λ c. SameLookups (a ∷ b ∷ m) (a' ∷ c ∷ m) × IsMap (a' ∷ c ∷ m)) p
        (subst (λ c. SameLookups (a ∷ b ∷ m) (c ∷ a ∷ m) × IsMap (c ∷ a ∷ m)) q
          (swap-SameLookups a b m h))
  lookup-perm _ _ (Permᴰ.trans {l₁ = l} {l₂ = m} {l₃ = n} p q) h =
      let (same, valid) = lookup-perm l m p h in
      let (same', valid') = lookup-perm m n q valid in ((λ k. same k ∙ same' k), valid')
