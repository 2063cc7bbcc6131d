-- ===== src/Tasks/Wait.antt =====
-- Waiting for a task: proxmox/tasks/service.go. The server is its answers in the order of the polls;
-- the caller's context is the sleep that it interrupts, if any; a duration is in nanoseconds.
pub mod Poll
pub mod Outcome
use proxmox_go_sdk.Base.{
  ℕ, zero, suc, Bool, true, false, ◌||◌, Option, none, some, List, [], ◌∷◌, ◌++◌, if◌then◌else◌,
  ltb, last?,
}
use proxmox_go_sdk.Base.Eq.{◌==◌, text_Eq}
use proxmox_go_sdk.Base.Text.{Text, text, has_prefix}
use proxmox_go_sdk.Base.Number.{ℤ, pos}
use proxmox_go_sdk.Pverr.{Result, ok, err, Err, Error, pve, ◌>>=◌, ◌>>◌, new_task_failed}
use proxmox_go_sdk.Tasks.Upid.{Ref, valid}

pub record Status : Type 0 where
  pub upid : Text
  pub node : Text
  pub kind : Text
  pub id : Text
  pub user : Text
  pub state : Text
  pub exit_status : Text
  pub pid : ℤ
  pub start_time : ℤ

-- `Status{}`
abbrev pub no_status : Status
no_status = record {
  upid = [];
  node = [];
  kind = [];
  id = [];
  user = [];
  state = [];
  exit_status = [];
  pid = pos 0;
  start_time = pos 0;
}

abbrev pub exit_ok : Text
exit_ok = text "OK"

abbrev pub warn_prefix : Text
warn_prefix = text "WARNINGS:"

unfoldable pub is_running : Status → Bool
is_running s = s.state == text "running"

unfoldable pub is_done : Status → Bool
is_done s = s.state == text "stopped"

unfoldable pub is_ok : Status → Bool
is_ok s = (s.exit_status == exit_ok) || has_prefix s.exit_status warn_prefix

unfoldable pub has_warnings : Status → Bool
has_warnings s = has_prefix s.exit_status warn_prefix

pub record LogLine : Type 0 where
  pub number : ℤ
  pub text : Text

-- `grow d` is `time.Duration(float64(d) * p.Factor)`
pub record WaitPolicy : Type 0 where
  pub initial : ℕ
  pub max : ℕ
  pub grow : ℕ → ℕ

-- `WaitPolicy.next`
unfoldable pub next : WaitPolicy → ℕ → ℕ
next p d = if ltb p.max (p.grow d) then p.max else p.grow d

-- What the waiter meets: the answer to each poll, the context's error if it is cancelled during the
-- sleep after that poll, and the answer to a request for the log.
pub record World : Type 0 where
  pub answer : ℕ → Result Status
  pub cancelled : ℕ → Option Err
  pub log : Result (List LogLine)

-- `Service.Status` at the n-th poll: an incomplete ref sends nothing
unfoldable pub status : World → Ref → ℕ → Result Status
status w r n = do valid r; w.answer n

-- `Service.Log`
unfoldable pub fetch_log : World → Ref → Result (List LogLine)
fetch_log w r = do valid r; w.log

-- The result of `WaitFor`, with the sleeps made; the status beside an error is the zero one.
abbrev pub Waited : Type 0
Waited = Option (Result Status × List ℕ)

abbrev pub slept : ℕ → Waited → Waited
slept d none = none
slept d (some (r, sleeps)) = some (r, d ∷ sleeps)

abbrev pub log_message : Text → Result (List LogLine) → Text
log_message exit (err e) = exit
log_message exit (ok lines) = elim (last? lines) [
  | none ↦ exit
  | some line ↦ exit ++ (text ": " ++ line.text)
]

module _ (w : World) (p : WaitPolicy) (r : Ref) where
  -- The loop of `WaitFor` from the n-th poll on; `none` is out of fuel.
  unfoldable pub wait_loop : (Status → Bool) → ℕ → ℕ → ℕ → Waited
  wait_loop cond zero n interval = none
  wait_loop cond (suc fuel) n interval =
      let again = wait_loop cond fuel (suc n) (next p interval) in
      elim (status w r n) [
        | err e ↦ some (err e, [])
        | ok st ↦ if cond st then some (ok st, []) else elim (w.cancelled n) [
          | some e ↦ some (err e, interval ∷ [])
          | none ↦ slept interval again
        ]
      ]

  unfoldable pub wait_for : (Status → Bool) → ℕ → Waited
  wait_for cond fuel = wait_loop cond fuel 0 p.initial

  -- `failure`: the last line of the log is attached where there is one
  unfoldable pub failure : Status → Error
  failure st = record (new_task_failed (text "tasks.Wait") st.upid st.exit_status) {
    path = text "/nodes/" ++ (r.node ++ (text "/tasks/" ++ (r.upid ++ text "/status")));
    message = log_message st.exit_status (fetch_log w r);
  }

  -- what `Wait` makes of a finished poll loop: the status, beside the error of a failed task too
  unfoldable pub conclude : Result Status → Status × Option Err
  conclude (err e) = (no_status, some e)
  conclude (ok st) = (st, if is_ok st then none else some (pve (failure st)))

  unfoldable pub wait : ℕ → Option ((Status × Option Err) × List ℕ)
  wait fuel = elim (wait_for is_done fuel) [
    | none ↦ none
    | some (result, sleeps) ↦ some (conclude result, sleeps)
  ]
