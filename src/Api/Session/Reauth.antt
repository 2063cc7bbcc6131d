-- ===== src/Api/Session/Reauth.antt =====
-- Minting and replaying: proxmox/api/credentials.go and proxmox/api/transport.go.
use proxmox_go_sdk.Base.{refl, ℕ, ◌+◌, ◌*◌, ◌≤◌, ◌≡◌, ap, Bool, true, arith, length, ◌∙◌}
use proxmox_go_sdk.Base.Text.{Text}
use proxmox_go_sdk.Api.Retry.{RetryPolicy}
use proxmox_go_sdk.Api.Connection.{count}
use proxmox_go_sdk.Api.Transport.{Decoder}
use proxmox_go_sdk.Api.Transport.Sends.{execute_sends}
use proxmox_go_sdk.Api.Session.{
  Login, Credentials, token, ticket, user, Env, Session, mint_ticket, refresh_creds, refresh, send,
  replay, attempt, do_request, none, needs_refresh, ok, false, expires_soon, now,
}

-- What a step of a session may have done: at most `mints` tickets minted and `sends` requests sent,
-- over the same endpoints.
pub record Used (mints sends : ℕ) (s s' : Session) : Type 0 where
  pub minted : s'.minted ≤ s.minted + mints
  pub sent : s'.net.sent ≤ s.net.sent + sends
  pub endpoints : count s'.net.conn ≡ count s.net.conn

module _ (w : Env) where
  mint_ticket-Used : (login : Login) (s : Session) → Used 1 0 s (mint_ticket w login s).1
  unfolding mint_ticket
  mint_ticket-Used login s = ground arith

  refresh_creds-Used :
      (c : Credentials) (force : Bool) (s : Session) → Used 1 0 s (refresh_creds w c force s).1
  unfolding refresh_creds
  refresh_creds-Used (token id secret) force s = ground arith
  refresh_creds-Used (ticket t) force s = ground arith
  refresh_creds-Used (user login t) force s = ground (arith, mint_ticket-Used login s)

  refresh-Used : (force : Bool) (s : Session) → Used 1 0 s (refresh w force s).1
  unfolding refresh
  refresh-Used force s = refresh_creds-Used s.creds force s

module _ {A : Type 0} (w : Env) (policy : RetryPolicy) (out : Decoder A) (path : Text) where
  send-Used :
      (s : Session) → Used 0 (count s.net.conn * policy.attempts) s (send w policy out path s).1
  unfolding send count
  send-Used s =
      let (low, high, ordered, valid) = execute_sends w.network policy out path s.net in
      record { minted = omega arith; sent = high; endpoints = ap length ordered }

  replay-Used :
      (s : Session) → Used 1 (count s.net.conn * policy.attempts) s (replay w policy out path s).1
  unfolding replay
  replay-Used s = ground (arith, refresh-Used w true s, send-Used (refresh w true s).1)

  attempt-Used :
      (s : Session)
      → Used 1 (2 * (count s.net.conn * policy.attempts)) s (attempt w policy out path s).1
  unfolding attempt
  attempt-Used s =
      let first = send-Used s in
      let again = replay-Used (send w policy out path s).1 in
      let same : count (send w policy out path s).1.net.conn * policy.attempts
          ≡ count s.net.conn * policy.attempts =
        ap (λ n. n * policy.attempts) first.endpoints in
      ground (arith, first, again, same)

-- One call of `DoRequest` mints at most two tickets and sends at most two requests for each attempt at
-- each endpoint, whatever the server answers: an expired ticket is replayed once, never in a loop.
pub do_request_bounded :
    {A : Type 0} (w : Env) (policy : RetryPolicy) (out : Decoder A) (path : Text) (s : Session)
    → Used 2 (2 * (count s.net.conn * policy.attempts)) s (do_request w policy out path s).1
unfolding do_request
do_request_bounded w policy out path s =
    let first = refresh-Used w false s in
    let rest = attempt-Used w policy out path (refresh w false s).1 in
    let direct = attempt-Used w policy out path s in
    let same : count (refresh w false s).1.net.conn * policy.attempts
        ≡ count s.net.conn * policy.attempts =
      ap (λ n. n * policy.attempts) first.endpoints in
    ground (arith, first, rest, direct, same)

-- The credentials that the three constructors of the package make, or that a mint leaves: a ticket of
-- the caller's own has no expiry.
abbrev pub IsBuilt : Credentials → Type 0
IsBuilt (token id secret) = Unit
IsBuilt (ticket t) = t.expiry ≡ none
IsBuilt (user login t) = Unit

module _ (w : Env) where
  mint_ticket_settles :
      (login : Login) (s : Session)
      → (mint_ticket w login s).0 ≡ ok tt
      → needs_refresh (mint_ticket w login s).1.creds (now w (mint_ticket w login s).1) ≡ false
  unfolding mint_ticket needs_refresh expires_soon
  mint_ticket_settles login s e = ground arith

  refresh_creds_settles :
      (c : Credentials) (force : Bool) (s : Session)
      → s.creds ≡ c
      → IsBuilt c
      → (refresh_creds w c force s).0 ≡ ok tt
      → needs_refresh (refresh_creds w c force s).1.creds (now w (refresh_creds w c force s).1)
        ≡ false
  unfolding refresh_creds
  refresh_creds_settles (token id secret) force s own built e =
      ap (λ d. needs_refresh d (now w s)) own ∙ unfold needs_refresh in refl
  refresh_creds_settles (ticket t) force s own built e =
      ap (λ d. needs_refresh d (now w s)) own
      ∙ unfold needs_refresh in rw (built, needs_refresh) refl
  refresh_creds_settles (user login t) force s own built e =
      ground (arith, mint_ticket_settles login s)

-- Once a refresh has succeeded, forced or not, the credentials want no refresh at the time of the next
-- exchange, so the session does not mint again at once. The credentials are as the package builds them.
pub refresh_settles :
    (w : Env) (force : Bool) (s : Session)
    → IsBuilt s.creds
    → (refresh w force s).0 ≡ ok tt
    → needs_refresh (refresh w force s).1.creds (now w (refresh w force s).1) ≡ false
unfolding refresh
refresh_settles w force s built e = refresh_creds_settles w s.creds force s refl built e
