-- ===== src/Api/Transport/Sends.antt =====
-- How often a request is sent, and what it leaves of the connection: proxmox/api/transport.go.
use proxmox_go_sdk.Base.{
  ℕ, zero, suc, ◌+◌, ◌*◌, ◌≤◌, ◌≡◌, ◌⊎◌, ◌∙◌, refl, sym, ap, subst, inl, inr, Bool, true, false,
  Option, none, some, ◌++◌, arith,
}
use proxmox_go_sdk.Base.Text.{Text}
use proxmox_go_sdk.Pverr.{Err, Result-cases, or_empty}
use proxmox_go_sdk.Api.Retry.{RetryPolicy}
use proxmox_go_sdk.Api.Connection.{Connection, count, base_url, failover}
use proxmox_go_sdk.Api.Connection.Order.{IsValid, failover-IsValid}
use proxmox_go_sdk.Api.Transport.{
  Decoder, Network, Net, Tried, returned, gave_up, perform, try_endpoint, endpoint_loop, execute,
  expand_path, record_send,
}

module _ {A : Type 0} (w : Network) (policy : RetryPolicy) (out : Decoder A) (path : Text) where
  try_endpoint_sends :
      (left : ℕ) (url : Text) (last : Option Err) (s : Net)
      → let s' = (try_endpoint w policy out path left url last s).1 in
        (s.sent ≤ s'.sent) × (s'.sent ≤ s.sent + left) × (s'.conn ≡ s.conn)
  unfolding try_endpoint
  try_endpoint_sends zero url last s = ground arith
  try_endpoint_sends (suc left) url last s =
      elim (Result-cases (perform out path (w.reply s.sent url))) [
        | inl (a, good) ↦ ground arith
        | inr (e, bad) ↦ ground (arith, try_endpoint_sends left url (some e) (record_send url s))
      ]

failover-ordered : (c : Connection) → (failover c).0.ordered ≡ c.ordered
unfolding failover
failover-ordered c = ground arith

module _ {A : Type 0} (w : Network) (policy : RetryPolicy) (out : Decoder A) (path : Text) where
  abbrev at_endpoint : Net → Tried A × Net
  at_endpoint s =
      try_endpoint w policy out path policy.attempts (or_empty (base_url s.conn) ++ path) none s

  abbrev after_failover : Net → Net
  after_failover s = record s { conn = (failover s.conn).0 }

  -- Where the loop is after one endpoint: done, or at the next endpoint with the connection rotated.
  endpoint_step :
      (eps : ℕ) (s : Net)
      → (endpoint_loop w policy out path (suc eps) s).1 ≡ (at_endpoint s).1
        ⊎ (endpoint_loop w policy out path (suc eps) s).1
          ≡ (endpoint_loop w policy out path eps (after_failover (at_endpoint s).1)).1
  unfolding endpoint_loop
  endpoint_step eps s = go (at_endpoint s).0 (failover (at_endpoint s).1.conn).1 refl refl
    where
      go :
          (tried : Tried A) (rotated : Bool)
          → (at_endpoint s).0 ≡ tried
          → (failover (at_endpoint s).1.conn).1 ≡ rotated
          → (endpoint_loop w policy out path (suc eps) s).1 ≡ (at_endpoint s).1
            ⊎ (endpoint_loop w policy out path (suc eps) s).1
              ≡ (endpoint_loop w policy out path eps (after_failover (at_endpoint s).1)).1
      go (returned r) rotated e f = inl (rw (e, endpoint_loop) refl)
      go (gave_up last) true e f = inr (rw (e, endpoint_loop, f) refl)
      go (gave_up last) false e f = inl (rw (e, endpoint_loop, f) refl)

  endpoint_loop_sends :
      (eps : ℕ) (s : Net)
      → let s' = (endpoint_loop w policy out path eps s).1 in
        (s.sent ≤ s'.sent) × (s'.sent ≤ s.sent + eps * policy.attempts)
  endpoint_loop_sends zero s = unfold endpoint_loop in omega arith
  endpoint_loop_sends (suc eps) s =
      let (low, high, kept) =
        try_endpoint_sends w policy out path policy.attempts (or_empty (base_url s.conn) ++ path)
          none s in
      let later = endpoint_loop_sends eps (after_failover (at_endpoint s).1) in
      elim (endpoint_step eps s) [
        | inl stopped ↦ rw stopped (omega arith)
        | inr rotated ↦ rw rotated (omega arith)
      ]

  endpoint_loop_keeps :
      (eps : ℕ) (s : Net)
      → let s' = (endpoint_loop w policy out path eps s).1 in
        (s'.conn.ordered ≡ s.conn.ordered) × (IsValid s.conn → IsValid s'.conn)
  endpoint_loop_keeps zero s = unfold endpoint_loop in (refl, λ v. v)
  endpoint_loop_keeps (suc eps) s =
      let (low, high, kept) =
        try_endpoint_sends w policy out path policy.attempts (or_empty (base_url s.conn) ++ path)
          none s in
      let (ordered, valid) = endpoint_loop_keeps eps (after_failover (at_endpoint s).1) in
      elim (endpoint_step eps s) [
        | inl stopped ↦ rw (stopped, kept) (refl, λ v. v)
        | inr rotated ↦ rw rotated (
          ordered
              ∙ failover-ordered (at_endpoint s).1.conn
              ∙ ap (λ (c : Connection). c.ordered) kept,
          λ v. valid (failover-IsValid (at_endpoint s).1.conn (subst IsValid (sym kept) v)).0,
        )
      ]

-- A request is sent at most once for each attempt at each endpoint, whatever the replies and whenever the caller
-- cancels. It leaves the list of endpoints as it was, and a valid connection valid.
pub execute_sends :
    {A : Type 0} (w : Network) (policy : RetryPolicy) (out : Decoder A) (path : Text) (s : Net)
    → let s' = (execute w policy out path s).1 in
      (s.sent ≤ s'.sent)
      × (s'.sent ≤ s.sent + count s.conn * policy.attempts)
      × (s'.conn.ordered ≡ s.conn.ordered)
      × (IsValid s.conn → IsValid s'.conn)
unfolding execute
execute_sends w policy out path s =
    let sends = endpoint_loop_sends w policy out (expand_path path) (count s.conn) s in
    let keeps = endpoint_loop_keeps w policy out (expand_path path) (count s.conn) s in
    (sends.0, sends.1, keeps.0, keeps.1)
