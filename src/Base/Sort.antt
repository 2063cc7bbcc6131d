-- ===== src/Base/Sort.antt =====
-- Stable sorting: `le x y` says that x need not be moved behind y.
use Prim.Native.Nat.{suc}
use mathlib.Core.Path.{◌≡◌, refl, ap, ◌∙◌}
use mathlib.Core.Bool.{Bool, true}
use mathlib.Core.Logic.{◌⊎◌, inl, inr}
use mathlib.Core.List.{List, [], ◌∷◌, Permᴰ}
use proxmox_go_sdk.Base.Lists.{All, length}
use native.Mathlib.Omega.{arith}
use proxmox_go_sdk.Base.Tests.{if◌then◌else◌, Bool-cases}

module _ {ℓ} {A : Type ℓ} (le : A → A → Bool) where
  unfoldable pub insert_sorted : A → List A → List A
  insert_sorted x [] = x ∷ []
  insert_sorted x (y ∷ ys) = if le x y then x ∷ y ∷ ys else y ∷ insert_sorted x ys

  unfoldable pub sort : List A → List A
  unfolding insert_sorted
  sort [] = []
  sort (x ∷ xs) = insert_sorted x (sort xs)

  -- every neighbour pair is in order
  abbrev pub IsSorted : List A → Type 0
  IsSorted [] = Unit
  IsSorted (x ∷ []) = Unit
  IsSorted (x ∷ y ∷ ys) = (le x y ≡ true) × IsSorted (y ∷ ys)

-- For a linear order the result depends on the elements alone, not on the order they came in.
module _ {ℓ} {A : Type ℓ} (le : A → A → Bool)
    (total : (x y : A) → (le x y ≡ true) ⊎ (le y x ≡ true))
    (trans : (x y z : A) → le x y ≡ true → le y z ≡ true → le x z ≡ true)
    (antisym : (x y : A) → le x y ≡ true → le y x ≡ true → x ≡ y) where
  insert_sorted_comm :
      (x y : A) (l : List A)
      → insert_sorted le x (insert_sorted le y l) ≡ insert_sorted le y (insert_sorted le x l)
  unfolding insert_sorted
  insert_sorted_comm x y [] = ground (arith, total x y, antisym x y)
  insert_sorted_comm x y (z ∷ l) = ground (
    arith,
    total x y,
    antisym x y,
    insert_sorted_comm x y l,
    trans x y z,
    trans y x z,
    total x z,
    total y z,
  )

  pub sort-perm : (xs ys : List A) → Permᴰ xs ys → sort le xs ≡ sort le ys
  unfolding sort
  sort-perm _ _ Permᴰ.nil = refl
  sort-perm _ _ (Permᴰ.cons {l₁ = l₁} {l₂ = l₂} e p) = cc (sort-perm l₁ l₂ p)
  sort-perm _ _ (Permᴰ.swap {a = a} {b = b} {l = l} e f) = cc (insert_sorted_comm a b (sort le l))
  sort-perm _ _ (Permᴰ.trans {l₁ = a} {l₂ = b} {l₃ = c} p q) = sort-perm a b p ∙ sort-perm b c q

module _ {ℓ} {A : Type ℓ} (le : A → A → Bool)
    (total : (x y : A) → (le x y ≡ true) ⊎ (le y x ≡ true)) where
  insert_sorted-IsSorted : (x : A) (l : List A) → IsSorted le l → IsSorted le (insert_sorted le x l)
  unfolding insert_sorted
  insert_sorted-IsSorted x [] h = tt
  insert_sorted-IsSorted x (y ∷ []) h = ground (arith, total x y)
  insert_sorted-IsSorted x (y ∷ z ∷ l) h =
      ground (arith, total x y, total x z, insert_sorted-IsSorted x (z ∷ l) h.1)

  pub sort-IsSorted : (l : List A) → IsSorted le (sort le l)
  unfolding sort
  sort-IsSorted [] = tt
  sort-IsSorted (x ∷ l) = insert_sorted-IsSorted x (sort le l) (sort-IsSorted l)

module _ {ℓ κ} {A : Type ℓ} (le : A → A → Bool) (P : A → Type κ) where
  pub insert_sorted-All : (x : A) (l : List A) → P x → All P l → All P (insert_sorted le x l)
  unfolding insert_sorted
  insert_sorted-All x [] p h = (p, tt)
  insert_sorted-All x (y ∷ l) p h = elim (Bool-cases (le x y)) [
    | inl e ↦ rw e (p, h)
    | inr e ↦ rw e (h.0, insert_sorted-All x l p h.1)
  ]

  pub sort-All : (l : List A) → All P l → All P (sort le l)
  unfolding sort
  sort-All [] h = tt
  sort-All (x ∷ l) h = insert_sorted-All x (sort le l) h.0 (sort-All l h.1)

module _ {ℓ} {A : Type ℓ} (le : A → A → Bool) where
  length-insert_sorted : (x : A) (l : List A) → length (insert_sorted le x l) ≡ suc (length l)
  unfolding insert_sorted
  length-insert_sorted x [] = refl
  length-insert_sorted x (y ∷ l) = ground (arith, length-insert_sorted x l)

  pub length-sort : (l : List A) → length (sort le l) ≡ length l
  unfolding sort
  length-sort [] = refl
  length-sort (x ∷ l) = length-insert_sorted x (sort le l) ∙ ap suc (length-sort l)
