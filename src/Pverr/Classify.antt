-- ===== src/Pverr/Classify.antt =====
-- What `Classify` makes of a response: proxmox/pverr/classify.go.
use proxmox_go_sdk.Base.{
  ℕ, ◌≤◌, ◌<◌, ◌≡◌, ◌↔◌, ◌⊎◌, true, false, Option, none, some, is_some, refl, arith,
}
use proxmox_go_sdk.Base.Text.{Text}
use proxmox_go_sdk.Pverr.{
  unauthorized, ticket_expired, PveBody, Cause, deadline_exceeded, canceled, is_network_error,
  reports_expired, classify, pve, is_transient, is_err,
}

-- the statuses that have a sentinel of their own
abbrev pub IsNamed : ℕ → Type 0
IsNamed status = (status ≡ 401) ⊎ (status ≡ 403) ⊎ (status ≡ 404) ⊎ (status ≡ 409)

network_some : (cause : Option Cause) → is_network_error cause ≡ true → is_some cause ≡ true
unfolding is_network_error
network_some none h = cc
network_some (some c) h = refl

module _ (status : ℕ) (path : Text) (body : PveBody) (cause : Option Cause) where
  -- The error counts as transient, through `IsTransient`, exactly when the cause is a network error
  -- or the status is 500 or more.
  pub classify_transient :
      (is_transient (pve (classify status path body cause)) ≡ true)
      ↔ ((is_network_error cause ≡ true) ⊎ (500 ≤ status))
  unfolding classify is_transient is_err
  classify_transient = ground (arith, network_some cause)

  -- The error counts as transient, through `IsTransient`, exactly when the cause is a network error or
  -- the status is 500 or more. It is an expired ticket, and a failed authentication, exactly when the
  -- cause is no network error and the status is 401, told apart by the message. It wraps no sentinel
  -- exactly when the cause is no network error and the status is below 500 and none of 401, 403, 404
  -- and 409. A deadline of the caller's context is such a network error, whatever the status; its
  -- cancellation by itself is not.
  pub classify_sentinels :
      ((is_transient (pve (classify status path body cause)) ≡ true)
        ↔ ((is_network_error cause ≡ true) ⊎ (500 ≤ status)))
      × ((is_err (pve (classify status path body cause)) ticket_expired ≡ true) ↔ (
          (is_network_error cause ≡ false)
          × (status ≡ 401)
          × (reports_expired body.message ≡ true)))
      × ((is_err (pve (classify status path body cause)) unauthorized ≡ true) ↔ (
          (is_network_error cause ≡ false)
          × (status ≡ 401)
          × (reports_expired body.message ≡ false)))
      × (((classify status path body cause).err ≡ none)
          ↔ ((is_network_error cause ≡ false) × (status < 500) × (¬ IsNamed status)))
      × (is_transient (pve (classify status path body (some deadline_exceeded))) ≡ true)
      × ((is_transient (pve (classify status path body (some canceled))) ≡ true) ↔ (500 ≤ status))
  unfolding classify is_err is_transient is_network_error
  classify_sentinels = (
    classify_transient,
    ground (arith, network_some cause),
    ground (arith, network_some cause),
    ground (arith, network_some cause),
    refl,
    ground arith,
  )
