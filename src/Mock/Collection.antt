-- ===== src/Mock/Collection.antt =====
-- The five handlers that proxmox/mockpve writes out for every kind of record it keeps by name, over the
-- part of the state that holds the records.
pub mod Keeps
pub mod Refines
use proxmox_go_sdk.Base.{◌≡◌, Bool, Option, none, some, List, [], ◌∷◌, map, if◌then◌else◌}
use proxmox_go_sdk.Base.Eq.{text_Eq, ◌==◌}
use proxmox_go_sdk.Base.Map.{Map, lookup, insert, erase, contains}
use proxmox_go_sdk.Base.Text.{Text, text, is_empty}
use proxmox_go_sdk.Base.Number.{ℤ, atoi}
use proxmox_go_sdk.Mock.{
  State, Request, Handler, Checked, passed, ◌>>=◌, ◌>>◌, refuse_if, found_or, respond, Payload,
  null, Form, form_get, first_value,
}
use proxmox_go_sdk.Mock.Server.{check_auth, parse_form}

-- A kind of record: where the state holds it, how one is answered, and the message of its 404. What is
-- written is read back.
pub record Collection (R : Type 0) : Type 0 where
  pub entries : State → Map Text R
  pub set_entries : Map Text R → State → State
  pub missing : Text
  pub payload : R → Payload
  pub entries_set : (m : Map Text R) (s : State) → entries (set_entries m s) ≡ m

-- `r.PathValue`, empty for a wildcard that the pattern lacks
unfoldable pub path_value : Request → Text → Text
path_value r name = elim (lookup name r.path) [ none ↦ [] | some v ↦ v ]

-- `if v := form.Get(key); v != ""`
unfoldable pub text_or : Text → Form → Text → Text
text_or old form key = if is_empty (form_get form key) then old else form_get form key

-- `if v, err := strconv.Atoi(form.Get(key)); err == nil`
unfoldable pub int_or : ℤ → Form → Text → ℤ
int_or old form key = elim (atoi (form_get form key)) [ none ↦ old | some n ↦ n ]

-- `if v := form.Get(key); v != "" { field = v == "1" }`
unfoldable pub flag_or : Bool → Form → Text → Bool
flag_or old form key = if is_empty (form_get form key) then old else form_get form key == text "1"

module _ {R : Type 0} (c : Collection R) where
  unfoldable pub find_record : Text → State → Option R
  find_record key s = lookup key (c.entries s)

  unfoldable pub put_record : Text → R → State → State
  put_record key rec s = c.set_entries (insert key rec (c.entries s)) s

  unfoldable pub drop_record : Text → State → State
  drop_record key s = c.set_entries (erase key (c.entries s)) s

  -- the records in the order of the range, under one constructor of answers
  unfoldable pub handle_all : {P : Type 0} → (R → P) → (List P → Payload) → Handler
  handle_all one all r s =
      respond s (do check_auth r s; passed (all (map (λ e. one e.1) (c.entries s)), s))

  unfoldable pub handle_one : Text → Handler
  handle_one key r s = respond s (do
    check_auth r s
    rec ← found_or (find_record key s) 404 c.missing
    passed (c.payload rec, s))

  -- `field` names the new record in the form
  unfoldable pub handle_new : Text → Text → (Form → Text → R) → Handler
  handle_new field message build r s = respond s (do
    check_auth r s
    form ← parse_form r
    refuse_if (is_empty (form_get form field)) 400 message
    passed (null, put_record (form_get form field) (build form (form_get form field)) s))

  unfoldable pub handle_change : Text → (Form → R → R) → Handler
  handle_change key apply r s = respond s (do
    check_auth r s
    form ← parse_form r
    rec ← found_or (find_record key s) 404 c.missing
    passed (null, put_record key (apply form rec) s))

  unfoldable pub handle_drop : Text → Handler
  handle_drop key r s = respond s (do
    check_auth r s
    rec ← found_or (find_record key s) 404 c.missing
    passed (null, drop_record key s))
