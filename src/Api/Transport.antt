-- ===== src/Api/Transport.antt =====
-- One request with its retries and its failover: proxmox/api/transport.go. The network and the decoders
-- are parameters: the answer to the n-th request, and what `json.Unmarshal` makes of a body.
pub mod Sends
pub mod Outcome
pub mod Exhausted
use proxmox_go_sdk.Base.{
  ℕ, zero, suc, ◌+◌, Bool, true, false, not, ◌&&◌, ◌||◌, Option, none, some, List, [], ◌∷◌, ◌++◌,
  if◌then◌else◌, ltb, leb, is_some,
}
use proxmox_go_sdk.Base.Eq.{◌==◌, text_Eq}
use proxmox_go_sdk.Base.Map.{Map}
use proxmox_go_sdk.Base.Text.{Text, text, is_empty, has_prefix}
use proxmox_go_sdk.Pverr.{
  Result, ok, err, Err, plain, pve, sentinel, wrap, transient, is_err, is_transient, classify,
  classify_net_error, PveBody, or_empty,
}
use proxmox_go_sdk.Api.Retry.{RetryPolicy}
use proxmox_go_sdk.Api.Connection.{Connection, count, base_url, failover}

abbrev pub api_prefix : Text
api_prefix = text "/api2/json"

unfoldable pub expand_path : Text → Text
expand_path path =
    if has_prefix path api_prefix
    then path
    else if has_prefix path (text "/")
    then api_prefix ++ path
    else api_prefix ++ (text "/" ++ path)

unfoldable pub is_write_method : Text → Bool
is_write_method m = m == text "POST" || (m == text "PUT" || m == text "DELETE")

-- `pveEnvelope`; `payload` is the raw `data` member
pub record Envelope : Type 0 where
  pub payload : Text
  pub errors : Map Text Text
  pub message : Text

abbrev pub no_envelope : Envelope
no_envelope = record { payload = []; errors = []; message = [] }

-- A response body: what `io.ReadAll` and `json.Unmarshal` make of it. The body that does not decode
-- carries the members that the decoder had set by its error.
pub data Body : Type 0 where
  unreadable : Text → Body
  empty : Body
  not_json : Envelope → Body
  json : Envelope → Body

pub record Response : Type 0 where
  pub status : ℕ
  pub body : Body

-- The end of one HTTP exchange: `failed` carries the text of the error of `doHTTP`.
pub data Reply : Type 0 where
  failed : Text → Reply
  answered : Response → Reply

unfoldable pub is_success : ℕ → Bool
is_success status = leb 200 status && ltb status 300

-- `out` is nil for a caller that wants no data; else it is decoded, or left alone at an empty payload.
abbrev pub Decoder : Type 0 → Type 0
Decoder A = Option (Text → Option A)

module _ {A : Type 0} where
  unfoldable pub decode_payload : Decoder A → Text → Text → Result (Option A)
  decode_payload none path payload = ok none
  decode_payload (some decode) path [] = ok none
  decode_payload (some decode) path (c ∷ payload) = elim (decode (c ∷ payload)) [
    | none ↦ err (plain (text "api: decode response data from " ++ path))
    | some a ↦ ok (some a)
  ]

  -- the end of `readResponse`, with the envelope at hand
  unfoldable pub read_envelope : Decoder A → Text → ℕ → Envelope → Result (Option A)
  unfolding is_success
  read_envelope out path status env =
      if is_success status
      then decode_payload out path env.payload
      else err
          (pve (classify status path (record { message = env.message; errors = env.errors }) none))

  unfoldable pub read_response : Decoder A → Text → Response → Result (Option A)
  unfolding read_envelope
  read_response out path resp = elim resp.body [
    | unreadable message ↦ err (pve (classify_net_error path message))
    | empty ↦ read_envelope out path resp.status no_envelope
    | not_json env ↦
        if is_success resp.status && is_some out
        then err (plain (text "api: decode response from " ++ path))
        else read_envelope out path resp.status env
    | json env ↦ read_envelope out path resp.status env
  ]

  -- one attempt, its transport error classified
  unfoldable pub perform : Decoder A → Text → Reply → Result (Option A)
  unfolding read_response
  perform out path (failed message) = err (pve (classify_net_error path message))
  perform out path (answered resp) = read_response out path resp

-- The network as a request meets it: the reply to the n-th request, and the error of the caller's
-- context when it is checked before that request.
pub record Network : Type 0 where
  pub reply : ℕ → Text → Reply
  pub cancelled : ℕ → Option Err

-- What a request changes: the active endpoint and the requests sent, the last one first.
pub record Net : Type 0 where
  pub conn : Connection
  pub sent : ℕ
  pub urls : List Text

abbrev pub record_send : Text → Net → Net
record_send url s = record s { sent = s.sent + 1; urls = url ∷ s.urls }

-- The end of the attempts at one endpoint: a result to return, or the last error, if there was any.
pub data Tried (A : Type 0) : Type 0 where
  returned : Result (Option A) → Tried A
  gave_up : Option Err → Tried A

module _ {A : Type 0} (w : Network) (policy : RetryPolicy) (out : Decoder A) (path : Text) where
  -- the loop over attempts at one URL, with the attempts that are left
  unfoldable pub try_endpoint : ℕ → Text → Option Err → Net → Tried A × Net
  try_endpoint zero url last s = (gave_up last, s)
  try_endpoint (suc left) url last s = elim (w.cancelled s.sent) [
    | some e ↦ (returned (err e), s)
    | none ↦ elim (perform out path (w.reply s.sent url)) [
      | ok a ↦ (returned (ok a), record_send url s)
      | err e ↦
          let again = try_endpoint left url (some e) (record_send url s) in
          if is_transient e then again else (returned (err e), record_send url s)
    ]
  ]

  -- A nil `lastErr` is returned as no error.
  abbrev pub last_result : Option Err → Result (Option A)
  last_result none = ok none
  last_result (some e) = err e

  abbrev pub all_exhausted : Result (Option A)
  all_exhausted = err (wrap (text "api: all endpoints exhausted") (sentinel transient))

  -- the loop over endpoints, with the endpoints that are left
  unfoldable pub endpoint_loop : ℕ → Net → Result (Option A) × Net
  endpoint_loop zero s = (all_exhausted, s)
  endpoint_loop (suc eps) s =
      let (tried, s') = try_endpoint policy.attempts (or_empty (base_url s.conn) ++ path) none s in
      elim tried [
        | returned r ↦ (r, s')
        | gave_up last ↦
            let (conn', rotated) = failover s'.conn in
            let rest = endpoint_loop eps (record s' { conn = conn' }) in
            if rotated then rest else (last_result last, s')
      ]

unfoldable pub execute :
    {A : Type 0}
    → Network
    → RetryPolicy
    → Option (Text → Option A)
    → Text
    → Net
    → Result (Option A) × Net
execute w policy out path s = endpoint_loop w policy out (expand_path path) (count s.conn) s
