-- ===== src/Tasks/Wait/Poll.antt =====
-- The poll loop of `WaitFor`: proxmox/tasks/service.go.
use proxmox_go_sdk.Base.{
  ℕ, zero, suc, ◌+◌, ◌≤◌, ◌<◌, ◌≡◌, refl, ap, ◌∙◌, subst, Bool, true, false, none, some, List, [],
  ◌∷◌, All, arith,
}
use proxmox_go_sdk.Pverr.{Result, ok, err, Err}
use proxmox_go_sdk.Tasks.Upid.{Ref}
use proxmox_go_sdk.Tasks.Wait.{Status, WaitPolicy, next, World, status, slept, wait_loop, wait_for}

-- the first k sleeps of a policy from an interval on
abbrev pub sleeps : WaitPolicy → ℕ → ℕ → List ℕ
sleeps p zero d = []
sleeps p (suc k) d = d ∷ sleeps p k (next p d)

next-le : (p : WaitPolicy) (d : ℕ) → next p d ≤ p.max
unfolding next
next-le p d = ground arith

-- However the durations grow, every sleep after the first is at most the policy's maximum.
pub sleeps-le : (p : WaitPolicy) (k d : ℕ) → d ≤ p.max → All (λ s. s ≤ p.max) (sleeps p k d)
sleeps-le p zero d h = tt
sleeps-le p (suc k) d h = (h, sleeps-le p k (next p d) (next-le p d))

module _ (w : World) (p : WaitPolicy) (r : Ref) (cond : Status → Bool) where
  -- The poll neither ends the wait nor is its sleep interrupted.
  abbrev pub GoesOn : ℕ → Type 0
  GoesOn n = (st : Status) × (status w r n ≡ ok st) × (cond st ≡ false) × (w.cancelled n ≡ none)

  goes_on :
      (fuel n d : ℕ)
      → GoesOn n
      → wait_loop w p r cond (suc fuel) n d ≡ slept d (wait_loop w p r cond fuel (suc n) (next p d))
  unfolding wait_loop
  goes_on fuel n d (st, answered, more, awake) = rw (answered, wait_loop, more, awake) refl

  -- How the n-th poll ends the wait: what is returned, and how many sleeps that poll makes.
  pub data Ends (n : ℕ) : Result Status → ℕ → Type 0 where
    failed : {e : Err} → status w r n ≡ err e → Ends n (err e) 0
    met : {st : Status} → status w r n ≡ ok st → cond st ≡ true → Ends n (ok st) 0
    interrupted :
        {st : Status} {e : Err}
        → status w r n ≡ ok st
        → cond st ≡ false
        → w.cancelled n ≡ some e
        → Ends n (err e) 1

  stops :
      {res : Result Status} {extra : ℕ} (fuel n d : ℕ)
      → Ends n res extra
      → wait_loop w p r cond (suc fuel) n d ≡ some (res, sleeps p extra d)
  unfolding wait_loop
  stops fuel n d (failed bad) = rw (bad, wait_loop) refl
  stops fuel n d (met answered yes_) = rw (answered, wait_loop, yes_) refl
  stops fuel n d (interrupted answered more woken) = rw (answered, wait_loop, more, woken) refl

  wait_loop_run :
      {res : Result Status} {extra : ℕ} (k fuel n last d : ℕ)
      → last ≡ n + k
      → ((m : ℕ) → n ≤ m → m < last → GoesOn m)
      → Ends last res extra
      → k < fuel
      → wait_loop w p r cond fuel n d ≡ some (res, sleeps p (k + extra) d)
  wait_loop_run k zero n last d at before ends enough = elim enough [ ]
  wait_loop_run {res} {extra} zero (suc fuel) n last d at before ends enough =
      let here : last ≡ n = omega arith in
      let count : extra ≡ zero + extra = omega arith in
      stops fuel n d (subst (λ m. Ends m res extra) here ends)
      ∙ ap (λ j. some (res, sleeps p j d)) count
  wait_loop_run {res} {extra} (suc k) (suc fuel) n last d at before ends enough =
      let count : suc (k + extra) ≡ suc k + extra = omega arith in
      goes_on fuel n d (before n (omega arith) (omega arith))
      ∙ ap (slept d) (
          wait_loop_run k fuel (suc n) last (next p d) (omega arith)
            (λ m low high. before m (omega arith) high) ends (omega arith))
      ∙ ap (λ j. some (res, sleeps p j d)) count

  -- If poll k is the first that ends the wait, by an error, by the condition or by the caller's
  -- cancellation during the sleep behind it, then the wait returns just that outcome, after the
  -- backoff sleeps of the policy, as soon as its fuel exceeds k.
  pub wait_for_first :
      {res : Result Status} {extra : ℕ} (k fuel : ℕ)
      → ((m : ℕ) → m < k → GoesOn m)
      → Ends k res extra
      → k < fuel
      → wait_for w p r cond fuel ≡ some (res, sleeps p (k + extra) p.initial)
  unfolding wait_for
  wait_for_first k fuel before ends enough =
      wait_loop_run k fuel 0 k p.initial (omega arith) (λ m low high. before m high) ends enough
