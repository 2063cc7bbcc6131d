-- ===== src/Mock/Collection/Refines.antt =====
-- A collection as its clients see it: a function from names to records.
use proxmox_go_sdk.Base.{
  All, ◌≡◌, refl, sym, ap, true, Option, none, some, List, [], ◌∷◌, if◌then◌else◌, Option-cases,
  Bool-cases, inl, inr,
}
use mathlib.Core.Path.{fun_ext}
use proxmox_go_sdk.Base.Eq.{◌==◌, text_Eq}
use proxmox_go_sdk.Base.Map.{insert, erase, lookup-insert, lookup-erase}
use proxmox_go_sdk.Base.Text.{Text, text, is_empty}
use proxmox_go_sdk.Mock.{
  State, Request, Response, data_of, error_of, null, Form, form_get, passed, respond, refuse_if,
  found_or,
}
use proxmox_go_sdk.Mock.Server.{has_token, is_authorized, check_auth, parse_form}
use proxmox_go_sdk.Mock.Collection.{
  Collection, find_record, put_record, drop_record, handle_one, handle_new, handle_change,
  handle_drop,
}

-- What is asked of a collection; `name` is the path's.
pub data Op : Type 0 where
  get : (name : Text) → Op
  create : Op
  update : (name : Text) → Op
  delete : (name : Text) → Op

module _ {R : Type 0} (c : Collection R) where
  -- The promise: a function from names to records, changed at one name.
  abbrev pub View : Type 0
  View = Text → Option R

  abbrev pub set_at : Text → Option R → View → View
  set_at name value f k = if name == k then value else f k

  abbrev pub not_found : Response
  not_found = error_of 404 c.missing

  abbrev pub bad_form : Response
  bad_form = error_of 400 (text "invalid form body")

  abbrev pub view : State → View
  view s k = find_record c k s

  pub view-put_record :
      (name : Text) (rec : R) (s : State)
      → view (put_record c name rec s) ≡ set_at name (some rec) (view s)
  unfolding find_record put_record
  view-put_record name rec s = fun_ext (λ k.
      rw (c.entries_set (insert name rec (c.entries s)) s) (lookup-insert name k rec (c.entries s)))

  pub view-drop_record :
      (name : Text) (s : State) → view (drop_record c name s) ≡ set_at name none (view s)
  unfolding find_record drop_record
  view-drop_record name s =
      fun_ext
        (λ k. rw (c.entries_set (erase name (c.entries s)) s) (lookup-erase name k (c.entries s)))

  module _ (field message : Text) (build : Form → Text → R) (apply : Form → R → R) where
    -- a request handled
    unfoldable pub handle_op : Op → Request → State → Response × State
    handle_op (get name) = handle_one c name
    handle_op create = handle_new c field message build
    handle_op (update name) = handle_change c name apply
    handle_op (delete name) = handle_drop c name

    -- `create` and `update` look at the form first; `update` and `delete` need the record
    unfoldable pub promise : Op → Option Form → View → Response × View
    promise (get name) form f = elim (f name) [
      | none ↦ (not_found, f)
      | some rec ↦ (data_of (c.payload rec), f)
    ]
    promise create none f = (bad_form, f)
    promise create (some form) f =
        if is_empty (form_get form field) then (error_of 400 message, f) else (
          data_of null,
          set_at (form_get form field) (some (build form (form_get form field))) f,
        )
    promise (update name) none f = (bad_form, f)
    promise (update name) (some form) f = elim (f name) [
      | none ↦ (not_found, f)
      | some rec ↦ (data_of null, set_at name (some (apply form rec)) f)
    ]
    promise (delete name) form f = elim (f name) [
      | none ↦ (not_found, f)
      | some rec ↦ (data_of null, set_at name none f)
    ]

    -- the answer, and the view of the state after it
    abbrev pub observe : Response × State → Response × View
    observe (answer, s) = (answer, view s)

    module _ (r : Request) (s : State) (allowed : has_token r.authorization ≡ true) where
      check_auth-token : check_auth r s ≡ passed tt
      unfolding check_auth refuse_if is_authorized
      check_auth-token = rw allowed refl

      observe-handle_op : (op : Op) → observe (handle_op op r s) ≡ promise op r.form (view s)
      unfolding handle_op promise handle_one handle_new handle_change handle_drop respond parse_form
          found_or refuse_if
      observe-handle_op (get name) = elim (Option-cases (find_record c name s)) [
        | inl e ↦ rw (check_auth-token, promise, e) refl
        | inr (rec, e) ↦ rw (check_auth-token, promise, e) refl
      ]
      observe-handle_op create = elim (Option-cases r.form) [
        | inl e ↦ rw (check_auth-token, e) refl
        | inr (form, e) ↦ elim (Bool-cases (is_empty (form_get form field))) [
          | inl h ↦ rw (check_auth-token, e, h) refl
          | inr h ↦
              rw
                (
                  check_auth-token,
                  e,
                  h,
                  view-put_record (form_get form field) (build form (form_get form field)) s,
                )
                refl
        ]
      ]
      observe-handle_op (update name) = elim (Option-cases r.form) [
        | inl e ↦ rw (check_auth-token, e) refl
        | inr (form, e) ↦ elim (Option-cases (find_record c name s)) [
          | inl h ↦ rw (check_auth-token, e, promise, h) refl
          | inr (rec, h) ↦
              rw (check_auth-token, e, promise, h, view-put_record name (apply form rec) s) refl
        ]
      ]
      observe-handle_op (delete name) = elim (Option-cases (find_record c name s)) [
        | inl e ↦ rw (check_auth-token, promise, e) refl
        | inr (rec, e) ↦ rw (check_auth-token, promise, e, view-drop_record name s) refl
      ]

    -- Requests in a row, with the answers in order.
    unfoldable pub run : List (Op × Request) → State → List Response × State
    run [] s = ([], s)
    run ((op, r) ∷ calls) s =
        let (answer, s') = handle_op op r s in
        let (answers, t) = run calls s' in (answer ∷ answers, t)

    -- the same requests, asked of the promise
    unfoldable pub replay : List (Op × Request) → View → List Response × View
    replay [] f = ([], f)
    replay ((op, r) ∷ calls) f =
        let (answer, f') = promise op r.form f in
        let (answers, g) = replay calls f' in (answer ∷ answers, g)

    -- Every request carries a token.
    abbrev pub HasTokens : List (Op × Request) → Type 0
    HasTokens = All (λ call. has_token call.1.authorization ≡ true)

    -- Whatever requests with a token come in a row, a collection gives the answers that a function from
    -- names to records gives, which is changed at one name at a time, and the lookups in the state that
    -- is left are that function.
    pub run_refines :
        (calls : List (Op × Request)) (s : State)
        → HasTokens calls
        → ((run calls s).0 ≡ (replay calls (view s)).0)
          × (view (run calls s).1 ≡ (replay calls (view s)).1)
    unfolding run replay
    run_refines [] s h = (refl, refl)
    run_refines ((op, r) ∷ calls) s h =
        let step : observe (handle_op op r s) ≡ promise op r.form (view s) =
          observe-handle_op r s h.0 op in
        let rest = run_refines calls (handle_op op r s).1 h.1 in
        rw (sym step) (ap (λ l. (handle_op op r s).0 ∷ l) rest.0, rest.1)
