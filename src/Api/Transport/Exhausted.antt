-- ===== src/Api/Transport/Exhausted.antt =====
-- A request that no endpoint answers: proxmox/api/transport.go.
use native.Mathlib.Nat.{mod-eq_of_lt, mod-add-mod, add-mod_right, mod-lt}
use proxmox_go_sdk.Base.{
  ℕ, zero, suc, ◌+◌, ◌*◌, ◌%◌, ◌<◌, ◌≡◌, ◌∙◌, refl, sym, ap, Bool, true, Option, none, some, ◌++◌,
  ◌∷◌, arith, get_elem?, Option-cases, length, inl, inr,
}
use proxmox_go_sdk.Base.Text.{Text}
use proxmox_go_sdk.Pverr.{err, Err, is_transient, or_empty}
use proxmox_go_sdk.Api.Retry.{RetryPolicy}
use proxmox_go_sdk.Api.Connection.{Connection, count, base_url, failover}
use proxmox_go_sdk.Api.Connection.Order.{IsValid}
use proxmox_go_sdk.Api.Transport.{
  Decoder, Network, Net, gave_up, perform, try_endpoint, endpoint_loop, execute, expand_path,
  record_send, all_exhausted, List, [],
}
use proxmox_go_sdk.Api.Transport.Outcome.{endpoint_loop_rotated, tried}

-- the connection after k failovers
abbrev pub rotations : ℕ → Connection → Connection
rotations zero c = c
rotations (suc k) c = rotations k (failover c).0

failover_many :
    (c : Connection)
    → 1 < count c
    → failover c ≡ (record c { current = (c.current + 1) % count c }, true)
unfolding failover count
failover_many c h = ground arith

failover-next :
    (c : Connection)
    → 1 < count c
    → (failover c).0 ≡ record c { current = (c.current + 1) % count c }
failover-next c many = ap (λ (r : Connection × Bool). r.0) (failover_many c many)

one_more : (a k : ℕ) → a + 1 + k ≡ a + suc k
one_more a k = omega arith

rotations_closed :
    (k : ℕ) (c : Connection)
    → 1 < count c
    → c.current < count c
    → rotations k c ≡ record c { current = (c.current + k) % count c }
unfolding count
rotations_closed zero c many inside =
    let same : c.current ≡ (c.current + zero) % count c =
      sym (mod-eq_of_lt inside) ∙ ap (λ n. n % count c) (omega arith) in
    ap (λ n. record c { current = n }) same
rotations_closed (suc k) c many inside =
    let c' : Connection = record c { current = (c.current + 1) % count c } in
    let index : ((c.current + 1) % count c + k) % count c ≡ (c.current + suc k) % count c =
      mod-add-mod (c.current + 1) (count c) k ∙ ap (λ n. n % count c) (one_more c.current k) in
    ap (λ p. rotations k p) (failover-next c many)
    ∙ rotations_closed k c' many (mod-lt (c.current + 1) (omega arith))
    ∙ ap (λ n. record c { current = n }) index

-- After as many failovers as there are endpoints the first of them is active again.
rotations_around : (c : Connection) → 1 < count c → c.current < count c → rotations (count c) c ≡ c
rotations_around c many inside =
    rotations_closed (count c) c many inside
    ∙ ap (λ n. record c { current = n }) (add-mod_right c.current (count c) ∙ mod-eq_of_lt inside)

count-failover : (c : Connection) → 1 < count c → count (failover c).0 ≡ count c
unfolding count failover
count-failover c many = ground arith

count_moved : (c : Connection) (i : ℕ) → count (record c { current = i }) ≡ count c
unfolding count
count_moved c i = refl

count-length : (c : Connection) → count c ≡ length c.ordered
unfolding count
count-length c = refl

-- one failover in round k
next_round :
    (c : Connection) (k : ℕ)
    → 1 < count c
    → (failover (record c { current = (c.current + k) % count c })).0
      ≡ record c { current = (c.current + suc k) % count c }
unfolding count
next_round c k many =
    failover-next (record c { current = (c.current + k) % count c }) many
    ∙ ap (λ n. record c { current = n })
        (mod-add-mod (c.current + k) (count c) 1 ∙ ap (λ n. n % count c) (omega arith))

-- the text so many times in front of the list
abbrev pub repeated : ℕ → Text → List Text → List Text
repeated zero url urls = urls
repeated (suc k) url urls = repeated k url (url ∷ urls)

-- the base URL of the endpoint at an index
abbrev pub base_at : Connection → ℕ → Text
base_at c i = elim (get_elem? c.ordered i) [ none ↦ [] | some p ↦ p.base ]

-- The URLs requested, the last one first, by so many rounds, the first of them being round k: each
-- round sends all attempts to the one endpoint that stands k places behind the active one in the list,
-- which begins anew behind its end.
abbrev pub visits : Connection → ℕ → Text → ℕ → ℕ → List Text → List Text
visits c attempts path zero k urls = urls
visits c attempts path (suc rounds) k urls =
    visits c attempts path rounds (suc k)
      (repeated attempts (base_at c ((c.current + k) % length c.ordered) ++ path) urls)

base_url_at :
    (c : Connection) (i : ℕ) → or_empty (base_url (record c { current = i })) ≡ base_at c i
unfolding base_url
base_url_at c i = elim (Option-cases (get_elem? c.ordered i)) [
  | inl out ↦ rw (out, or_empty, base_at) refl
  | inr (p, found) ↦ rw (found, or_empty, base_at) refl
]

module _ {A : Type 0} (w : Network) (policy : RetryPolicy) (out : Decoder A) (path : Text) where
  -- Every reply is a transient error, and the caller never cancels.
  abbrev pub IsDown : Type 0
  IsDown =
      ((n : ℕ) (url : Text)
        → (e : Err) × (perform out path (w.reply n url) ≡ err e) × (is_transient e ≡ true))
      × ((n : ℕ) → w.cancelled n ≡ none)

  try_endpoint_down :
      IsDown
      → (left : ℕ) (url : Text) (last : Option Err) (s : Net)
      → (l : Option Err) × ((try_endpoint w policy out path left url last s).0 ≡ gave_up l)
        × ((try_endpoint w policy out path left url last s).1.sent ≡ s.sent + left)
        × ((try_endpoint w policy out path left url last s).1.conn ≡ s.conn)
        × ((try_endpoint w policy out path left url last s).1.urls ≡ repeated left url s.urls)
  unfolding try_endpoint
  try_endpoint_down down zero url last s = (last, refl, omega arith, refl, refl)
  try_endpoint_down down (suc left) url last s =
      let (e, bad, transient_e) = down.0 s.sent url in
      let awake = down.1 s.sent in
      let (l, gave, sent, conn, urls) =
        try_endpoint_down down left url (some e) (record_send url s) in
      (l, ground arith, ground arith, ground arith, ground arith)

  endpoint_loop_down :
      IsDown
      → (eps : ℕ) (s : Net) → 1 < count s.conn
      → ((endpoint_loop w policy out path eps s).0 ≡ all_exhausted w policy out path)
        × ((endpoint_loop w policy out path eps s).1.sent ≡ s.sent + eps * policy.attempts)
        × ((endpoint_loop w policy out path eps s).1.conn ≡ rotations eps s.conn)
  endpoint_loop_down down zero s many = unfold endpoint_loop in (refl, omega arith, refl)
  endpoint_loop_down down (suc eps) s many =
      let (l, gave, sent, conn, urls) =
        try_endpoint_down down policy.attempts (or_empty (base_url s.conn) ++ path) none s in
      let s' = (tried w policy out path s).1 in
      let many' : 1 < count s'.conn = rw conn many in
      let step =
        endpoint_loop_rotated w policy out path eps s l s' (λ i. (gave i, s'))
          (ap (λ (r : Connection × Bool). r.1) (failover_many s'.conn many')) in
      let next : Net = record s' { conn = (failover s'.conn).0 } in
      let (exhausted, sent', conn') =
        endpoint_loop_down down eps next (rw (count-failover s'.conn many') many') in
      (
        ap (λ r. r.0) step ∙ exhausted,
        ap (λ r. r.1.sent) step ∙ omega (arith, sent, sent'),
        ap (λ r. r.1.conn) step ∙ conn' ∙ ap (λ c. rotations eps (failover c).0) conn,
      )

  tried-urls :
      IsDown
      → (c : Connection) (i : ℕ) (s : Net) → s.conn ≡ record c { current = i }
      → (tried w policy out path s).1.urls ≡ repeated policy.attempts (base_at c i ++ path) s.urls
  tried-urls down c i s at =
      let (l, gave, sent, conn, urls) =
        try_endpoint_down down policy.attempts (or_empty (base_url s.conn) ++ path) none s in
      urls
      ∙ ap (λ d. repeated policy.attempts (or_empty (base_url d) ++ path) s.urls) at
      ∙ ap (λ b. repeated policy.attempts (b ++ path) s.urls) (base_url_at c i)

  endpoint_loop-urls :
      IsDown
      → (c : Connection) → 1 < count c
      → (eps k : ℕ) (s : Net) → s.conn ≡ record c { current = (c.current + k) % count c }
      → (endpoint_loop w policy out path eps s).1.urls ≡ visits c policy.attempts path eps k s.urls
  endpoint_loop-urls down c many zero k s at = unfold endpoint_loop in refl
  endpoint_loop-urls down c many (suc eps) k s at =
      let (l, gave, sent, conn, urls) =
        try_endpoint_down down policy.attempts (or_empty (base_url s.conn) ++ path) none s in
      let s' = (tried w policy out path s).1 in
      let many' : 1 < count s'.conn = rw (ap count (conn ∙ at) ∙ count_moved c _) many in
      let step =
        endpoint_loop_rotated w policy out path eps s l s' (λ i. (gave i, s'))
          (ap (λ (r : Connection × Bool). r.1) (failover_many s'.conn many')) in
      let next : Net = record s' { conn = (failover s'.conn).0 } in
      let at' : next.conn ≡ record c { current = (c.current + suc k) % count c } =
        ap (λ d. (failover d).0) (conn ∙ at) ∙ next_round c k many in
      ap (λ r. r.1.urls) step
      ∙ endpoint_loop-urls down c many eps (suc k) next at'
      ∙ ap (visits c policy.attempts path eps (suc k)) (
          tried-urls down c _ s at
          ∙ ap (λ n. repeated policy.attempts (base_at c ((c.current + k) % n) ++ path) s.urls)
              (count-length c))

-- When every reply is a transient error and the caller never cancels, a request over two or more
-- endpoints reports them all exhausted, with a transient error, after all attempts at each endpoint:
-- first those at the active endpoint, then those at the one behind it, and so on around the list; and
-- the endpoint that was active is active again.
pub execute_down :
    {A : Type 0} (w : Network) (policy : RetryPolicy) (out : Decoder A) (path : Text) (s : Net)
    → IsDown w policy out (expand_path path)
    → IsValid s.conn
    → 1 < count s.conn
    → let (r, s') = execute w policy out path s in
      (r ≡ all_exhausted w policy out path)
      × (s'.sent ≡ s.sent + count s.conn * policy.attempts)
      × (s'.conn ≡ s.conn)
      × (s'.urls
          ≡ visits s.conn policy.attempts (expand_path path) (length s.conn.ordered) 0 s.urls)
unfolding execute count
execute_down w policy out path s down valid many =
    let (r, sent, conn) =
      endpoint_loop_down w policy out (expand_path path) down (count s.conn) s many in
    let start : s.conn ≡ record s.conn { current = (s.conn.current + 0) % count s.conn } =
      ap (λ n. record s.conn { current = n })
        (sym (mod-eq_of_lt valid.in_range) ∙ ap (λ n. n % count s.conn) (omega arith)) in
    (
      r,
      sent,
      conn ∙ rotations_around s.conn many valid.in_range,
      endpoint_loop-urls w policy out (expand_path path) down s.conn many (count s.conn) 0 s start,
    )
