-- ===== src/Api/Transport/Outcome.antt =====
-- What a request returns: proxmox/api/transport.go.
use proxmox_go_sdk.Base.{
  ℕ, zero, suc, ◌<◌, ◌≡◌, refl, inl, inr, true, false, Option, none, ◌++◌, arith,
}
use proxmox_go_sdk.Base.Text.{Text}
use proxmox_go_sdk.Pverr.{Result, ok, err, Err, is_transient, Result-cases, or_empty}
use proxmox_go_sdk.Api.Retry.{RetryPolicy}
use proxmox_go_sdk.Api.Connection.{Connection, count, base_url, failover}
use proxmox_go_sdk.Api.Transport.{
  Decoder, Network, Net, Tried, returned, gave_up, perform, try_endpoint, endpoint_loop, execute,
  expand_path, record_send, last_result,
}

-- The result ends the request: a success, or an error that is not transient.
abbrev pub IsFinal : {A : Type 0} → Result (Option A) → Type 0
IsFinal (ok a) = Unit
IsFinal (err e) = is_transient e ≡ false

module _ {A : Type 0} (w : Network) (policy : RetryPolicy) (out : Decoder A) (path : Text) where
  try_endpoint_final :
      (left : ℕ) (url : Text) (last : Option Err) (s : Net)
      → 0 < left
      → w.cancelled s.sent ≡ none
      → IsFinal (perform out path (w.reply s.sent url))
      → try_endpoint w policy out path left url last s
        ≡ (returned (perform out path (w.reply s.sent url)), record_send url s)
  unfolding try_endpoint
  try_endpoint_final zero url last s pos_left awake final = elim pos_left [ ]
  try_endpoint_final (suc left) url last s pos_left awake final =
      elim (Result-cases (perform out path (w.reply s.sent url))) [
        | inl (a, good) ↦ ground arith
        | inr (e, bad) ↦ ground arith
      ]

-- The URL of a request at the active endpoint.
abbrev pub active_url : Net → Text → Text
active_url s path = or_empty (base_url s.conn) ++ expand_path path

module _ {A : Type 0} (w : Network) (policy : RetryPolicy) (out : Decoder A) (path : Text) where
  abbrev pub tried : Net → Tried A × Net
  tried s =
      try_endpoint w policy out path policy.attempts (or_empty (base_url s.conn) ++ path) none s

  endpoint_loop_returned :
      (eps : ℕ) (s : Net) (r : Result (Option A)) (s' : Net)
      → 0 < eps
      → tried s ≡ (returned r, s')
      → endpoint_loop w policy out path eps s ≡ (r, s')
  unfolding endpoint_loop
  endpoint_loop_returned zero s r s' some_left e = elim some_left [ ]
  endpoint_loop_returned (suc eps) s r s' some_left e = ground arith

  endpoint_loop_stuck :
      (eps : ℕ) (s : Net) (last : Option Err) (s' : Net)
      → tried s ≡ (gave_up last, s')
      → (failover s'.conn).1 ≡ false
      → endpoint_loop w policy out path (suc eps) s ≡ (last_result w policy out path last, s')
  unfolding endpoint_loop
  endpoint_loop_stuck eps s last s' e f = ground arith

  pub endpoint_loop_rotated :
      (eps : ℕ) (s : Net) (last : Option Err) (s' : Net)
      → tried s ≡ (gave_up last, s')
      → (failover s'.conn).1 ≡ true
      → endpoint_loop w policy out path (suc eps) s
        ≡ endpoint_loop w policy out path eps (record s' { conn = (failover s'.conn).0 })
  unfolding endpoint_loop
  endpoint_loop_rotated eps s last s' e f = ground arith

-- A reply that is a success, or an error that is not transient, is never retried: the request
-- returns just what the first reply says, after one exchange with the active endpoint, and the
-- connection is as it was. There is an endpoint, an attempt is allowed, and the caller has not
-- cancelled.
pub execute_final :
    {A : Type 0} (w : Network) (policy : RetryPolicy) (out : Decoder A) (path : Text) (s : Net)
    → 0 < count s.conn
    → 0 < policy.attempts
    → w.cancelled s.sent ≡ none
    → IsFinal (perform out (expand_path path) (w.reply s.sent (active_url s path)))
    → execute w policy out path s ≡ (
      perform out (expand_path path) (w.reply s.sent (active_url s path)),
      record_send (active_url s path) s,
    )
unfolding execute
execute_final w policy out path s endpoints attempts awake final =
    endpoint_loop_returned w policy out (expand_path path) (count s.conn) s _ _ endpoints (
      try_endpoint_final w policy out (expand_path path) policy.attempts (active_url s path) none s
        attempts awake final)

failover_single : (c : Connection) → count c ≡ 1 → (failover c).1 ≡ false
unfolding failover count
failover_single c h = ground arith

try_endpoint_zero :
    {A : Type 0} (w : Network) (policy : RetryPolicy) (out : Decoder A) (path url : Text) (n : ℕ)
    (last : Option Err) (s : Net)
    → n ≡ 0
    → try_endpoint w policy out path n url last s ≡ (gave_up last, s)
unfolding try_endpoint
try_endpoint_zero w policy out path url zero last s h = refl
try_endpoint_zero w policy out path url (suc n) last s h = absurd (omega arith)

-- With no attempt allowed and a single endpoint, every request reports success with no data, although
-- nothing was sent.
pub execute_no_attempts :
    {A : Type 0} (w : Network) (policy : RetryPolicy) (out : Decoder A) (path : Text) (s : Net)
    → policy.attempts ≡ 0
    → count s.conn ≡ 1
    → execute w policy out path s ≡ (ok none, s)
unfolding execute
execute_no_attempts w policy out path s none_left single = rw single (
    endpoint_loop_stuck w policy out (expand_path path) 0 s none s
      (try_endpoint_zero w policy out (expand_path path) _ policy.attempts none s none_left)
      (failover_single s.conn single))
