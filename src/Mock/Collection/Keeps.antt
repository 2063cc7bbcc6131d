-- ===== src/Mock/Collection/Keeps.antt =====
-- What the handlers of a collection leave alone.
use proxmox_go_sdk.Base.{List}
use proxmox_go_sdk.Base.Text.{Text}
use proxmox_go_sdk.Mock.{State, Request, Payload, Form, refuse_if, found_or, Map}
use proxmox_go_sdk.Mock.Checks.{bind-Grants, then-Grants, respond-keeps}
use proxmox_go_sdk.Mock.Server.{check_auth, parse_form}
use proxmox_go_sdk.Mock.Collection.{
  Collection, find_record, put_record, drop_record, handle_all, handle_one, handle_new,
  handle_change, handle_drop,
}

-- `P` holds of the state whenever it held before the records of the collection were replaced.
module _ {R : Type 0} (c : Collection R) (P : State → Type 0)
    (keeps : (m : Map Text R) (s : State) → P s → P (c.set_entries m s)) (r : Request) (s : State)
    (base : P s) where
  abbrev Held : Payload × State → Type 0
  Held a = P a.1

  pub handle_all-keeps :
      {A : Type 0} (one : R → A) (all : List A → Payload) → P (handle_all c one all r s).1
  unfolding handle_all
  handle_all-keeps one all =
      respond-keeps P s _ base (then-Grants Held (check_auth r s) _ (λ _. base))

  pub handle_one-keeps : (key : Text) → P (handle_one c key r s).1
  unfolding handle_one
  handle_one-keeps key = respond-keeps P s _ base (
      then-Grants Held (check_auth r s) _
        (λ _. bind-Grants Held (found_or (find_record c key s) _ _) _ (λ rec _. base)))

  pub handle_new-keeps :
      (field message : Text) (build : Form → Text → R) → P (handle_new c field message build r s).1
  unfolding handle_new put_record
  handle_new-keeps field message build = respond-keeps P s _ base (
      then-Grants Held (check_auth r s) _ (λ _.
        bind-Grants Held (parse_form r) _
          (λ form _. then-Grants Held (refuse_if _ _ _) _ (λ _. keeps _ s base))))

  pub handle_change-keeps :
      (key : Text) (apply : Form → R → R) → P (handle_change c key apply r s).1
  unfolding handle_change put_record
  handle_change-keeps key apply = respond-keeps P s _ base (
      then-Grants Held (check_auth r s) _ (λ _. bind-Grants Held (parse_form r) _ (λ form _.
        bind-Grants Held (found_or (find_record c key s) _ _) _ (λ rec _. keeps _ s base))))

  pub handle_drop-keeps : (key : Text) → P (handle_drop c key r s).1
  unfolding handle_drop drop_record
  handle_drop-keeps key = respond-keeps P s _ base (
      then-Grants Held (check_auth r s) _
        (λ _. bind-Grants Held (found_or (find_record c key s) _ _) _ (λ rec _. keeps _ s base)))
