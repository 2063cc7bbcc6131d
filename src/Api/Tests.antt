-- ===== src/Api/Tests.antt =====
-- The transport at concrete inputs: two endpoints, the first of them down.
use proxmox_go_sdk.Base.{
  ◌+◌, ◌*◌, ◌≤◌, ◌<◌, ◌≡◌, ◌↔◌, refl, true, false, none, some, [], ◌∷◌, arith, if◌then◌else◌, ltb,
  length,
}
use proxmox_go_sdk.Base.Text.{Text, text}
use proxmox_go_sdk.Base.Number.{pos, negsuc}
use proxmox_go_sdk.Pverr.{Result, ok, is_transient}
use proxmox_go_sdk.Api.Retry.{RetryPolicy, delay, delay-le}
use proxmox_go_sdk.Api.Connection.{Connection, Endpoint, new_connection, failover, count}
use proxmox_go_sdk.Api.Connection.Order.{IsValid, new_connection-IsValid, failover-IsValid}
use proxmox_go_sdk.Api.Transport.{
  Decoder, Network, Net, Reply, failed, answered, json, execute, perform, expand_path, record_send,
  all_exhausted,
}
use proxmox_go_sdk.Api.Transport.Sends.{execute_sends}
use proxmox_go_sdk.Api.Transport.Outcome.{active_url, execute_final, execute_no_attempts}
use proxmox_go_sdk.Api.Transport.Exhausted.{IsDown, visits, execute_down}
use proxmox_go_sdk.Api.Session.{Env, Session, user, Login, refresh, now, needs_refresh, do_request}
use proxmox_go_sdk.Api.Session.Reauth.{Used, do_request_bounded, refresh_settles}
use proxmox_go_sdk.Api.Connection.{collect}
use proxmox_go_sdk.Api.Connection.{was_seen}
use proxmox_go_sdk.Base.Eq.{text_eq}
use proxmox_go_sdk.Base.Sort.{sort}
use proxmox_go_sdk.Api.Connection.{int_le}
use proxmox_go_sdk.Api.Transport.{decode_payload}
use proxmox_go_sdk.Pverr.{is_err}
use proxmox_go_sdk.Pverr.{classify_net_error}
use proxmox_go_sdk.Api.Session.{refresh_creds}
use proxmox_go_sdk.Api.Session.{mint_ticket}

abbrev policy : RetryPolicy
policy = record {
  attempts = 3;
  initial_delay = 200;
  max_delay = 10000;
  scale = λ d. d * 2;
  jitter = true;
}

delay-le_example :
    (2 * delay policy (λ half. 0) 4 ≤ 3 * policy.max_delay)
    × (policy.jitter ≡ false → delay policy (λ half. 0) 4 ≤ policy.max_delay)
delay-le_example = delay-le policy (λ half. 0) 4 (omega arith) (λ half h. h)

abbrev extra : Endpoint
extra = record { name = text "b"; address = text "b"; priority = negsuc 0 }

abbrev as_is : Text → Result Text
as_is s = ok s

abbrev built : Connection
built = record {
  ordered =
      record { endpoint = extra; base = text "b" }
      ∷ record {
        endpoint = record { name = text "primary"; address = text "a"; priority = pos 0 };
        base = text "a";
      }
      ∷ [];
  current = 0;
}

built_lem : new_connection as_is (text "a") (extra ∷ extra ∷ []) ≡ ok built
unfolding new_connection collect was_seen text_eq sort int_le
built_lem = refl

new_connection-IsValid_example : IsValid built × (built.current ≡ 0)
new_connection-IsValid_example =
    new_connection-IsValid as_is (text "a") (extra ∷ extra ∷ []) built built_lem

failover-IsValid_example :
    IsValid (failover built).0
    × (((failover built).1 ≡ true) ↔ (1 < count built))
    × ((failover built).1 ≡ true
        → (failover built).0.current
          ≡ (if ltb (built.current + 1) (count built) then built.current + 1 else 0))
failover-IsValid_example = failover-IsValid built new_connection-IsValid_example.0

abbrev start : Net
start = record { conn = built; sent = 0; urls = [] }

abbrev payload : Decoder Text
payload = some (λ raw. some raw)

abbrev answer : Reply
answer = answered (record {
  status = 200;
  body = json (record { payload = text "1"; errors = []; message = [] });
})

abbrev working : Network
working = record { reply = λ n url. answer; cancelled = λ n. none }

abbrev down : Network
down = record { reply = λ n url. failed (text "refused"); cancelled = λ n. none }

execute_sends_example :
    let s' = (execute down policy payload (text "/version") start).1 in
    (start.sent ≤ s'.sent)
    × (s'.sent ≤ start.sent + count start.conn * policy.attempts)
    × (s'.conn.ordered ≡ start.conn.ordered)
    × (IsValid start.conn → IsValid s'.conn)
execute_sends_example = execute_sends down policy payload (text "/version") start

execute_final_example : execute working policy payload (text "/version") start ≡ (
  perform payload (expand_path (text "/version")) answer,
  record_send (active_url start (text "/version")) start,
)
unfolding count perform decode_payload
execute_final_example =
    execute_final working policy payload (text "/version") start (omega arith) (omega arith) refl tt

always_down : IsDown down policy payload (expand_path (text "/version"))
unfolding perform is_transient is_err classify_net_error
always_down = ((λ n url. (_, refl, refl)), (λ n. refl))

execute_down_example :
    let (r, s') = execute down policy payload (text "/version") start in
    (r ≡ all_exhausted down policy payload (text "/version"))
    × (s'.sent ≡ start.sent + count start.conn * policy.attempts)
    × (s'.conn ≡ start.conn)
    × (s'.urls
        ≡ visits start.conn policy.attempts
            (expand_path (text "/version"))
            (length start.conn.ordered)
            0
            [])
unfolding count
execute_down_example =
    execute_down down policy payload (text "/version") start always_down
      new_connection-IsValid_example.0 (omega arith)

abbrev single : Net
single = record start {
  conn = record { ordered = record { endpoint = extra; base = text "b" } ∷ []; current = 0 };
}

abbrev no_retries : RetryPolicy
no_retries = record policy { attempts = 0 }

execute_no_attempts_example :
    execute down no_retries payload (text "/version") single ≡ (ok none, single)
unfolding count
execute_no_attempts_example =
    execute_no_attempts down no_retries payload (text "/version") single refl refl

abbrev login : Login
login = record { user = text "root@pam"; password = text "secret"; otp = [] }

abbrev env : Env
env = record { network = working; clock = λ n. n; mint = λ n l. ok (text "t", text "c") }

abbrev session : Session
session = record {
  net = start;
  minted = 0;
  creds = user login (record { ticket = []; csrf = []; expiry = none });
}

do_request_bounded_example :
    Used 2
      (2 * (count session.net.conn * policy.attempts))
      session
      (do_request env policy payload (text "/version") session).1
do_request_bounded_example = do_request_bounded env policy payload (text "/version") session

refresh_settles_example :
    needs_refresh (refresh env false session).1.creds (now env (refresh env false session).1)
    ≡ false
unfolding refresh refresh_creds needs_refresh mint_ticket
refresh_settles_example = refresh_settles env false session tt refl
