-- ===== src/Api/Connection.antt =====
-- Endpoints and failover: proxmox/api/connection.go. `normalise` is `normaliseAddress` with
-- `(*url.URL).String` behind it: package net/url stays a parameter.
pub mod Order
use proxmox_go_sdk.Base.{
  ℕ, zero, suc, ◌+◌, ◌%◌, ◌≤◌, ◌<◌, ◌≡◌, Bool, true, false, ◌||◌, Option, none, some, List, [], ◌∷◌,
  if◌then◌else◌, ltb, leb, length, get_elem?,
}
use proxmox_go_sdk.Base.Eq.{◌==◌, text_Eq}
use proxmox_go_sdk.Base.Sort.{sort}
use proxmox_go_sdk.Base.Text.{Text, text}
use proxmox_go_sdk.Base.Number.{ℤ, pos, negsuc}
use proxmox_go_sdk.Pverr.{Result, ok, err, ◌>>=◌}

pub record Endpoint : Type 0 where
  pub name : Text
  pub address : Text
  pub priority : ℤ

-- `parsedEndpoint`, its base URL printed
pub record ParsedEndpoint : Type 0 where
  pub endpoint : Endpoint
  pub base : Text

pub record Connection : Type 0 where
  pub ordered : List ParsedEndpoint
  pub current : ℕ

-- whether x need not go behind y
unfoldable pub int_le : ℤ → ℤ → Bool
int_le (pos a) (pos b) = leb a b
int_le (pos a) (negsuc b) = false
int_le (negsuc a) (pos b) = true
int_le (negsuc a) (negsuc b) = leb b a

abbrev pub before : ParsedEndpoint → ParsedEndpoint → Bool
before x y = int_le x.endpoint.priority y.endpoint.priority

unfoldable pub was_seen : Text → List Text → Bool
was_seen key [] = false
was_seen key (k ∷ seen) = key == k || was_seen key seen

abbrev pub primary_endpoint : Text → Endpoint
primary_endpoint address = record { name = text "primary"; address = address; priority = pos 0 }

module _ (normalise : Text → Result Text) where
  -- the loop over all endpoints; a duplicate address is dropped
  unfoldable pub collect : List Text → List Endpoint → Result (List ParsedEndpoint)
  collect seen [] = ok []
  collect seen (ep ∷ eps) = elim (normalise ep.address) [
    | err e ↦ err e
    | ok base ↦
        let dropped = collect seen eps in
        let kept : Result (List ParsedEndpoint) = elim (collect (base ∷ seen) eps) [
          | err e ↦ err e
          | ok rest ↦ ok (record { endpoint = ep; base = base } ∷ rest)
        ] in
        if was_seen base seen then dropped else kept
  ]

  unfoldable pub new_connection : Text → List Endpoint → Result Connection
  new_connection primary extras = do
    parsed ← collect [] (primary_endpoint primary ∷ extras)
    ok (record { ordered = sort before parsed; current = 0 })

unfoldable pub count : Connection → ℕ
count c = length c.ordered

-- `none` is a read out of range
unfoldable pub base_url : Connection → Option Text
base_url c = elim (get_elem? c.ordered c.current) [ none ↦ none | some p ↦ some p.base ]

-- the new connection, and whether there was another endpoint to rotate to
unfoldable pub failover : Connection → Connection × Bool
failover c =
    if leb (length c.ordered) 1
    then (c, false)
    else (record c { current = (c.current + 1) % length c.ordered }, true)
