-- ===== src/Api/Retry.antt =====
-- The retry policy: proxmox/api/retry.go. A duration is in nanoseconds; a negative number of attempts
-- acts as zero, so attempts are natural numbers.
use proxmox_go_sdk.Base.{
  ℕ, zero, suc, ◌+◌, ◌-◌, ◌/◌, ◌*◌, ◌≤◌, ◌<◌, ◌≡◌, Bool, false, ◌&&◌, if◌then◌else◌, ltb, leb,
  arith,
}

-- `scale d` is `time.Duration(float64(d) * p.BackoffFactor)`
pub record RetryPolicy : Type 0 where
  pub attempts : ℕ
  pub initial_delay : ℕ
  pub max_delay : ℕ
  pub scale : ℕ → ℕ
  pub jitter : Bool

-- the loop of `delay`, with the rounds that are left
unfoldable pub backoff : RetryPolicy → ℕ → ℕ → ℕ
backoff p zero d = d
backoff p (suc rounds) d =
    let grown = p.scale d in
    let rest = backoff p rounds grown in if leb p.max_delay grown then p.max_delay else rest

-- `draw half` is `rand.Int64N(half)`
unfoldable pub delay : RetryPolicy → (ℕ → ℕ) → ℕ → ℕ
delay p draw attempt =
    let d = backoff p (attempt - 1) p.initial_delay in
    let half = d / 2 in if p.jitter && ltb 0 half then d + draw half else d

-- Below the cap at the start, the backoff stays below it however the factor scales.
backoff-le : (p : RetryPolicy) (rounds d : ℕ) → d ≤ p.max_delay → backoff p rounds d ≤ p.max_delay
unfolding backoff
backoff-le p zero d h = h
backoff-le p (suc rounds) d h = ground (arith, backoff-le p rounds (p.scale d))

-- If the initial delay is within the cap and the random draw is below its bound, then the wait before
-- any retry is at most one and a half times the cap, and it is within the cap where jitter is off.
pub delay-le :
    (p : RetryPolicy) (draw : ℕ → ℕ) (attempt : ℕ)
    → p.initial_delay ≤ p.max_delay
    → ((half : ℕ) → 0 < half → draw half < half)
    → (2 * delay p draw attempt ≤ 3 * p.max_delay)
      × (p.jitter ≡ false → delay p draw attempt ≤ p.max_delay)
unfolding delay
delay-le p draw attempt start drawn =
    let d = backoff p (attempt - 1) p.initial_delay in
    ground (arith, backoff-le p (attempt - 1) p.initial_delay start, drawn (d / 2))
