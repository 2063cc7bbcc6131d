-- ===== src/Api/Session.antt =====
-- Credentials and the replay after an expired ticket: proxmox/api/credentials.go and `DoRequest` of
-- proxmox/api/transport.go. Times are in nanoseconds; the clock is read by the number of exchanges
-- made so far, so it may move between any two of them.
pub mod Reauth
use proxmox_go_sdk.Base.{
  ℕ, ◌+◌, ◌*◌, Bool, true, false, not, ◌&&◌, Option, none, some, [], ◌++◌, if◌then◌else◌, ltb,
}
use proxmox_go_sdk.Base.Text.{Text, text, is_empty}
use proxmox_go_sdk.Pverr.{Result, ok, err, Err, plain, wrap, is_err, ticket_expired}
use proxmox_go_sdk.Api.Retry.{RetryPolicy}
use proxmox_go_sdk.Api.Transport.{Decoder, Network, Net, execute}

abbrev pub second : ℕ
second = 1000000000

-- 5 minutes
abbrev pub ticket_skew : ℕ
ticket_skew = 300 * second

-- 2 hours
abbrev pub ticket_lifetime : ℕ
ticket_lifetime = 7200 * second

-- `ticketCreds`; no expiry is Go's zero time
pub record Ticket : Type 0 where
  pub ticket : Text
  pub csrf : Text
  pub expiry : Option ℕ

pub record Login : Type 0 where
  pub user : Text
  pub password : Text
  pub otp : Text

-- `tokenCreds`, `ticketCreds`, `userCreds`
pub data Credentials : Type 0 where
  token : Text → Text → Credentials
  ticket : Ticket → Credentials
  user : Login → Ticket → Credentials

-- `time.Now().Add(ticketSkew).After(expiry)`
unfoldable pub expires_soon : ℕ → ℕ → Bool
expires_soon now expiry = ltb expiry (now + ticket_skew)

unfoldable pub needs_refresh : Credentials → ℕ → Bool
needs_refresh (token id secret) now = false
needs_refresh (ticket t) now = elim t.expiry [ none ↦ false | some e ↦ expires_soon now e ]
needs_refresh (user login t) now = elim t.expiry [ none ↦ true | some e ↦ expires_soon now e ]

-- The header or cookie that a request carries.
pub data Authorization : Type 0 where
  header : Text → Authorization
  cookie : Text → Authorization

unfoldable pub authorize : Credentials → Authorization
authorize (token id secret) = header (text "PVEAPIToken=" ++ (id ++ (text "=" ++ secret)))
authorize (ticket t) = cookie t.ticket
authorize (user login t) = cookie t.ticket

unfoldable pub csrf_token : Credentials → Text
csrf_token (token id secret) = []
csrf_token (ticket t) = t.csrf
csrf_token (user login t) = t.csrf

-- The environment of a session: the network, the clock, and the answer to the n-th POST of a login to
-- /access/ticket, which is a ticket with its CSRF token.
pub record Env : Type 0 where
  pub network : Network
  pub clock : ℕ → ℕ
  pub mint : ℕ → Login → Result (Text × Text)

pub record Session : Type 0 where
  pub net : Net
  pub minted : ℕ
  pub creds : Credentials

-- the time of the next exchange
abbrev pub now : Env → Session → ℕ
now w s = w.clock (s.net.sent + s.minted)

abbrev pub record_mint : Session → Session
record_mint s = record s { minted = s.minted + 1 }

module _ (w : Env) where
  -- `userCreds.refresh` behind its guard
  unfoldable pub mint_ticket : Login → Session → Result (Unit {0}) × Session
  mint_ticket login s = elim (w.mint s.minted login) [
    | err e ↦ (err (wrap (text "api: mint ticket") e), record_mint s)
    | ok (fresh, csrf) ↦
        if is_empty fresh
        then (err (plain (text "api: mint ticket: empty ticket in response")), record_mint s)
        else (
          ok tt,
          record (record_mint s) {
            creds = user login (record {
              ticket = fresh;
              csrf = csrf;
              expiry = some (now w (record_mint s) + ticket_lifetime);
            });
          },
        )
  ]

  -- `refresh` of the credentials `c`, which are those of the session
  unfoldable pub refresh_creds : Credentials → Bool → Session → Result (Unit {0}) × Session
  refresh_creds (token id secret) force s = (ok tt, s)
  refresh_creds (ticket t) force s = (ok tt, s)
  refresh_creds (user login t) force s =
      if not force && not (needs_refresh (user login t) (now w s))
      then (ok tt, s)
      else mint_ticket login s

  unfoldable pub refresh : Bool → Session → Result (Unit {0}) × Session
  refresh force s = refresh_creds s.creds force s

module _ {A : Type 0} (w : Env) (policy : RetryPolicy) (out : Decoder A) (path : Text) where
  -- `execute` within a session
  unfoldable pub send : Session → Result (Option A) × Session
  send s = let (r, net) = execute w.network policy out path s.net in (r, record s { net = net })

  -- the refresh with force, and the replay
  unfoldable pub replay : Session → Result (Option A) × Session
  replay s = let (r, s') = refresh w true s in elim r [ err e ↦ (err e, s') | ok _ ↦ send s' ]

  unfoldable pub attempt : Session → Result (Option A) × Session
  attempt s =
      let (r, s') = send s in
      elim r [
        | ok a ↦ (ok a, s')
        | err e ↦ if is_err e ticket_expired then replay s' else (err e, s')
      ]

  unfoldable pub do_request : Session → Result (Option A) × Session
  do_request s =
      if needs_refresh s.creds (now w s)
      then (let (r, s') = refresh w false s in elim r [ err e ↦ (err e, s') | ok _ ↦ attempt s' ])
      else attempt s
