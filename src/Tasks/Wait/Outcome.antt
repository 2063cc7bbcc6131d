-- ===== src/Tasks/Wait/Outcome.antt =====
-- What `Wait` returns: proxmox/tasks/service.go.
use proxmox_go_sdk.Base.{
  ℕ, ◌+◌, ◌<◌, ◌≡◌, ◌∙◌, refl, ap, true, false, some, List, [], arith, last?, Option-cases, inl,
  inr, append-nil, sym, ◌⊎◌, none,
}
use proxmox_go_sdk.Base.Eq.{text_Eq, text_eq_iff}
use proxmox_go_sdk.Base.Text.{text, Text, has_prefix, has_prefix-append}
use proxmox_go_sdk.Pverr.{
  Result, ok, err, Error, pve, task_failed, new_task_failed, is_transient, is_err,
}
use proxmox_go_sdk.Tasks.Upid.{Ref}
use proxmox_go_sdk.Tasks.Wait.{
  Status, LogLine, WaitPolicy, World, is_done, is_ok, wait, conclude, failure, log_message,
  fetch_log, status,
}
use proxmox_go_sdk.Tasks.Wait.Poll.{sleeps, GoesOn, met, wait_for_first}

-- The error of a failed task: of the right kind and not retryable, it names the task and leads with the exit status.
pub record ReportsFailure (st : Status) (e : Error) : Type 0 where
  pub kind : e.err ≡ some task_failed
  pub final : is_transient (pve e) ≡ false
  pub task : e.upid ≡ st.upid
  pub reason : has_prefix e.message st.exit_status ≡ true

-- The exit status is `OK`, or it begins with `WARNINGS:`.
abbrev pub Succeeded : Status → Type 0
Succeeded st = (st.exit_status ≡ text "OK") ⊎ (has_prefix st.exit_status (text "WARNINGS:") ≡ true)

is_ok-Succeeded : (st : Status) → Succeeded st → is_ok st ≡ true
unfolding is_ok
is_ok-Succeeded st h = ground (arith, text_eq_iff st.exit_status (text "OK"))

is_ok_failed : (st : Status) → ¬ Succeeded st → is_ok st ≡ false
unfolding is_ok
is_ok_failed st h = ground (arith, text_eq_iff st.exit_status (text "OK"))

module _ (w : World) (p : WaitPolicy) (r : Ref) where
  prefix_self : (s : Text) → has_prefix s s ≡ true
  prefix_self s = ap (λ t. has_prefix t s) (sym (append-nil s)) ∙ has_prefix-append s []

  log_message-prefix :
      (exit : Text) (log : Result (List LogLine)) → has_prefix (log_message exit log) exit ≡ true
  log_message-prefix exit (err e) = prefix_self exit
  log_message-prefix exit (ok lines) = elim (Option-cases (last? lines)) [
    | inl empty ↦ rw (empty, log_message) (prefix_self exit)
    | inr (line, at) ↦ rw (at, log_message) (has_prefix-append exit _)
  ]

  failure-ReportsFailure : (st : Status) → ReportsFailure st (failure w p r st)
  unfolding failure new_task_failed is_transient is_err
  failure-ReportsFailure st = record {
    kind = refl;
    final = refl;
    task = refl;
    reason = log_message-prefix st.exit_status (fetch_log w r);
  }

  -- If poll k is the first to report the task stopped, and until then no poll failed and no sleep was
  -- cancelled, then `Wait` returns, after k backoff sleeps and with any fuel above k: the status, with
  -- no error if it exited with `OK` or with warnings, and otherwise beside an error that wraps
  -- `ErrTaskFailed`, is not transient, names the task and leads with its exit status.
  pub wait_outcome :
      (k fuel : ℕ) (st : Status)
      → ((m : ℕ) → m < k → GoesOn w p r is_done m)
      → status w r k ≡ ok st
      → is_done st ≡ true
      → k < fuel
      → (Succeeded st → wait w p r fuel ≡ some ((st, none), sleeps p k p.initial))
        × (¬ Succeeded st
            → (e : Error) × (wait w p r fuel ≡ some ((st, some (pve e)), sleeps p k p.initial))
              × ReportsFailure st e)
  unfolding wait conclude
  wait_outcome k fuel st before answered done enough =
      let count : k + 0 ≡ k = omega arith in
      let finished =
        wait_for_first w p r is_done k fuel before (met answered done) enough
        ∙ ap (λ j. some (ok st, sleeps p j p.initial)) count in
      (
        (λ good. rw (finished, wait, is_ok-Succeeded st good) refl),
        (λ bad. (
          failure w p r st,
          rw (finished, wait, is_ok_failed st bad) refl,
          failure-ReportsFailure st,
        )),
      )
