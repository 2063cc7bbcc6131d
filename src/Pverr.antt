-- ===== src/Pverr.antt =====
-- The error taxonomy: proxmox/pverr/error.go and proxmox/pverr/classify.go.
pub mod Classify
pub mod Render
mod Tests
use proxmox_go_sdk.Base.{
  ◌≡◌, ◌⊎◌, inl, inr, refl, ℕ, ◌≤◌, ◌+◌, Bool, true, false, not, ◌&&◌, ◌||◌, Option, none, some,
  List, [], ◌∷◌, ◌++◌, map, leb, nat_eq, if◌then◌else◌, is_some,
}
use proxmox_go_sdk.Base.Eq.{Eq, ◌==◌, text_Eq}
use proxmox_go_sdk.Base.Map.{Map, lookup}
use proxmox_go_sdk.Base.Text.{Text, text, is_empty, contains_text, to_lower, trim_space, join}
use proxmox_go_sdk.Base.TextOrder.{sort_strings}
use proxmox_go_sdk.Base.Number.{format_nat}

-- the sentinel errors ErrNotFound to ErrTransient
pub data Sentinel : Type 0 where
  not_found conflict unauthorized ticket_expired : Sentinel
  forbidden task_failed unsupported transient : Sentinel

-- `pverr.Error`; `err` is the wrapped sentinel, `none` where the code wraps nil
pub record Error : Type 0 where
  pub op : Text
  pub path : Text
  pub status : ℕ
  pub message : Text
  pub params : Map Text Text
  pub upid : Text
  pub err : Option Sentinel

-- Go errors as the SDK builds them: a sentinel, an `*Error`, `fmt.Errorf` with or without `%w`.
pub data Err : Type 0 where
  sentinel : Sentinel → Err
  pve : Error → Err
  wrap : Text → Err → Err
  plain : Text → Err

-- `(A, error)` as the SDK returns it
pub data Result {ℓ} (A : Type ℓ) : Type ℓ where
  ok : A → Result A
  err : Err → Result A

-- `if bad { return e }`
abbrev pub fail_if : Bool → Err → Result (Unit {0})
fail_if true e = err e
fail_if false e = ok tt

-- `if err != nil { return err }` after a call, with its value for what follows
infixl 5 ◌>>=◌ ◌>>◌
abbrev pub ◌>>=◌ {ℓ κ} :
    {T : Type ℓ} {U : Type κ} (call : Result T) (next : T → Result U) → Result U
err e >>= next = err e
ok value >>= next = next value

abbrev pub ◌>>◌ {κ} : {U : Type κ} (check : Result (Unit {0})) (next : Result U) → Result U
check >> next = check >>= λ _. next

pub Result-cases {ℓ} :
    {A : Type ℓ} (r : Result A) → ((a : A) × (r ≡ ok a)) ⊎ ((e : Err) × (r ≡ err e))
Result-cases (ok a) = inl (a, refl)
Result-cases (err e) = inr (e, refl)

-- a library result without its error text
abbrev pub or_fail {ℓ} : {A : Type ℓ} → Option A → Err → Result A
or_fail none e = err e
or_fail (some a) e = ok a

-- `PVEBody`
pub record PveBody : Type 0 where
  pub message : Text
  pub errors : Map Text Text

-- An underlying transport error: its text, and what `errors.Is(err, net.ErrClosed)` and
-- `errors.As(err, *net.Error)` answer for it. The second holds for every error in whose chain one has the
-- methods `Timeout` and `Temporary`, such as each `*url.Error` of net/http.
pub record Cause : Type 0 where
  pub message : Text
  pub is_closed : Bool
  pub is_net : Bool

-- `context.DeadlineExceeded`, which has both methods
abbrev pub deadline_exceeded : Cause
deadline_exceeded = record {
  message = text "context deadline exceeded";
  is_closed = false;
  is_net = true;
}

-- `context.Canceled`, which has neither
abbrev pub canceled : Cause
canceled = record { message = text "context canceled"; is_closed = false; is_net = false }

unfoldable pub is_network_error : Option Cause → Bool
is_network_error none = false
is_network_error (some c) = c.is_closed || c.is_net

-- `cause.Error()`, read only where there is a cause
abbrev pub cause_message : Option Cause → Text
cause_message none = []
cause_message (some c) = c.message

-- the two phrases by which PVE reports an expired ticket
unfoldable pub reports_expired : Text → Bool
reports_expired message =
    let msg = to_lower message in
    contains_text msg (text "ticket expired") || contains_text msg (text "invalid ticket")

-- the `switch` of `Classify`
unfoldable pub classify_sentinel : ℕ → Text → Option Cause → Option Sentinel
classify_sentinel status message cause =
    if is_some cause && is_network_error cause
    then some transient
    else if nat_eq status 404
    then some not_found
    else if nat_eq status 409
    then some conflict
    else if nat_eq status 401
    then (if reports_expired message then some ticket_expired else some unauthorized)
    else if nat_eq status 403
    then some forbidden
    else if nat_eq status 596
    then some transient
    else if leb 500 status
    then some transient
    else none

-- in the first case an empty message is replaced by the cause's
unfoldable pub classify_message : Text → Option Cause → Text
classify_message message cause =
    if (is_some cause && is_network_error cause) && is_empty message
    then cause_message cause
    else message

unfoldable pub classify : ℕ → Text → PveBody → Option Cause → Error
unfolding classify_sentinel classify_message
classify status path body cause = record {
  op = [];
  path = path;
  status = status;
  message = classify_message body.message cause;
  params = body.errors;
  upid = [];
  err = classify_sentinel status body.message cause;
}

-- `ClassifyNetError`; `message` is `err.Error()`
unfoldable pub classify_net_error : Text → Text → Error
classify_net_error path message = record {
  op = [];
  path = path;
  status = 0;
  message = message;
  params = [];
  upid = [];
  err = some transient;
}

unfoldable pub new_task_failed : Text → Text → Text → Error
new_task_failed op upid exit_status = record {
  op = op;
  path = [];
  status = 0;
  message = exit_status;
  params = [];
  upid = upid;
  err = some task_failed;
}

unfoldable pub sentinel_eq : Sentinel → Sentinel → Bool
sentinel_eq not_found not_found = true
sentinel_eq conflict conflict = true
sentinel_eq unauthorized unauthorized = true
sentinel_eq ticket_expired ticket_expired = true
sentinel_eq forbidden forbidden = true
sentinel_eq task_failed task_failed = true
sentinel_eq unsupported unsupported = true
sentinel_eq transient transient = true
sentinel_eq _ _ = false

-- `errors.Is(err, target)`: the chain of `Unwrap` is followed to its end
unfoldable pub is_err : Err → Sentinel → Bool
unfolding sentinel_eq
is_err (sentinel s) t = sentinel_eq s t
is_err (pve e) t = elim e.err [ none ↦ false | some s ↦ sentinel_eq s t ]
is_err (wrap _ e) t = is_err e t
is_err (plain _) t = false

unfoldable pub is_transient : Err → Bool
is_transient e = is_err e transient

unfoldable pub is_not_found : Err → Bool
is_not_found e = is_err e not_found

-- a missing key reads as the empty text
abbrev pub or_empty : Option Text → Text
or_empty none = []
or_empty (some v) = v

-- one parameter in the brackets of `Error.Error`
unfoldable pub render_param : Map Text Text → Text → Text
render_param params name = name ++ (text ": " ++ trim_space (or_empty (lookup name params)))

unfoldable pub render_params : Map Text Text → Text
unfolding render_param
render_params [] = []
render_params (p ∷ ps) =
    text " ["
    ++ (join (text "; ")
          (map (render_param (p ∷ ps)) (sort_strings (map (λ (q : Text × Text). q.0) (p ∷ ps))))
        ++ text "]")

-- `(*Error).Error`
unfoldable pub render : Error → Text
unfolding render_params
render e =
    (if is_empty e.op then [] else e.op ++ text ": ")
    ++ ((if nat_eq e.status 0
          then text "request failed"
          else text "HTTP " ++ format_nat 10 e.status)
        ++ ((if is_empty e.message then [] else text ": " ++ e.message)
            ++ (render_params e.params
                ++ (if is_empty e.path then [] else text " (" ++ (e.path ++ text ")")))))
