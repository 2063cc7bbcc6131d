-- ===== src/Mock/Checks.antt =====
-- What holds of the state after a handler, shown step by step along its checks.
use proxmox_go_sdk.Base.{◌≡◌, refl, Option, none, some, ℕ}
use proxmox_go_sdk.Base.Text.{Text}
use proxmox_go_sdk.Mock.{Checked, passed, refused, ◌>>=◌, ◌>>◌, respond, Payload, State, found_or}

module _ {ℓ} {A : Type ℓ} where
  -- The value of a step that passes satisfies `P`.
  abbrev pub Grants : (A → Type 0) → Checked A → Type 0
  Grants P (passed a) = P a
  Grants P (refused code message) = Unit

  module _ {κ} {B : Type κ} (P : A → Type 0) where
    pub bind-Grants :
        (c : Checked B) (f : B → Checked A)
        → ((b : B) → c ≡ passed b → Grants P (f b))
        → Grants P (c >>= f)
    bind-Grants (passed b) f h = h b refl
    bind-Grants (refused code message) f h = tt

    pub found-Grants :
        (o : Option B) (code : ℕ) (message : Text) (f : B → Checked A)
        → ((b : B) → o ≡ some b → Grants P (f b))
        → Grants P (found_or o code message >>= f)
    unfolding found_or
    found-Grants none code message f h = tt
    found-Grants (some b) code message f h = h b refl

  module _ (P : A → Type 0) where
    pub then-Grants :
        (c : Checked (Unit {0})) (f : Checked A) → (c ≡ passed tt → Grants P f) → Grants P (c >> f)
    then-Grants (passed tt) f h = h refl
    then-Grants (refused code message) f h = tt

-- A property of states that a handler keeps.
pub respond-keeps :
    (P : State → Type 0) (s : State) (c : Checked (Payload × State))
    → P s
    → Grants (λ a. P a.1) c
    → P (respond s c).1
unfolding respond
respond-keeps P s (passed (p, t)) base h = h
respond-keeps P s (refused code message) base h = base
