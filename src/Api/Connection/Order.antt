-- ===== src/Api/Connection/Order.antt =====
-- The endpoint list and its rotation: proxmox/api/connection.go.
use proxmox_go_sdk.Base.{
  ℕ, ◌+◌, ◌%◌, ◌<◌, ◌≡◌, ◌≢◌, ◌⊎◌, inl, inr, refl, sym, true, false, List, [], ◌∷◌, arith, length,
  All, Bool-cases, if◌then◌else◌, ltb, ltb→lt, ◌↔◌,
}
use proxmox_go_sdk.Base.Eq.{text_Eq, text_eq_iff}
use proxmox_go_sdk.Base.Sort.{
  sort, insert_sorted, IsSorted, sort-IsSorted, length-sort, insert_sorted-All,
}
use proxmox_go_sdk.Base.Text.{Text}
use proxmox_go_sdk.Base.Number.{ℤ, pos, negsuc}
use native.Mathlib.Nat.{mod-eq_of_lt, mod-lt, mod_self}
use proxmox_go_sdk.Pverr.{Result, ok, Result-cases}
use proxmox_go_sdk.Api.Connection.{
  Endpoint, ParsedEndpoint, Connection, int_le, before, was_seen, collect, primary_endpoint,
  new_connection, count, failover,
}

int_le_total : (a b : ℤ) → (int_le a b ≡ true) ⊎ (int_le b a ≡ true)
unfolding int_le
int_le_total (pos a) (pos b) = ground arith
int_le_total (pos a) (negsuc b) = inr refl
int_le_total (negsuc a) (pos b) = inl refl
int_le_total (negsuc a) (negsuc b) = ground arith

abbrev pub Differs : Text → List ParsedEndpoint → Type 0
Differs base = All (λ (q : ParsedEndpoint). base ≢ q.base)

-- No base URL stands twice.
abbrev pub IsDistinct : List ParsedEndpoint → Type 0
IsDistinct [] = Unit
IsDistinct (p ∷ ps) = Differs p.base ps × IsDistinct ps

-- A connection that can serve requests: the active index is in range, the endpoints are in the order of their priority, no base
-- URL stands twice.
pub record IsValid (c : Connection) : Type 0 where
  pub in_range : c.current < length c.ordered
  pub by_priority : IsSorted before c.ordered
  pub distinct : IsDistinct c.ordered

insert_sorted-IsDistinct :
    (p : ParsedEndpoint) (l : List ParsedEndpoint)
    → Differs p.base l
    → IsDistinct l
    → IsDistinct (insert_sorted before p l)
unfolding insert_sorted
insert_sorted-IsDistinct p [] d h = (tt, tt)
insert_sorted-IsDistinct p (q ∷ l) d h = elim (Bool-cases (before p q)) [
  | inl e ↦ rw e (d, h)
  | inr e ↦ rw e (
    insert_sorted-All before (λ (x : ParsedEndpoint). q.base ≢ x.base) p l (λ same. d.0 (sym same))
        h.0,
    insert_sorted-IsDistinct p l d.1 h.1,
  )
]

sort-Differs : (b : Text) (l : List ParsedEndpoint) → Differs b l → Differs b (sort before l)
unfolding sort
sort-Differs b [] h = tt
sort-Differs b (p ∷ l) h =
    insert_sorted-All before (λ (x : ParsedEndpoint). b ≢ x.base) p (sort before l) h.0
      (sort-Differs b l h.1)

sort-IsDistinct : (l : List ParsedEndpoint) → IsDistinct l → IsDistinct (sort before l)
unfolding sort
sort-IsDistinct [] h = tt
sort-IsDistinct (p ∷ l) h =
    insert_sorted-IsDistinct p (sort before l) (sort-Differs p.base l h.0) (sort-IsDistinct l h.1)

-- None of the keys was seen before.
abbrev Fresh : List Text → List ParsedEndpoint → Type 0
Fresh seen ps = All (λ (k : Text). Differs k ps) seen

was_seen-ne : (k b : Text) (seen : List Text) → was_seen b (k ∷ seen) ≡ false → k ≢ b
unfolding was_seen
was_seen-ne k b seen h = ground (arith, text_eq_iff b k)

Fresh-cons :
    (seen : List Text) (p : ParsedEndpoint) (ps : List ParsedEndpoint)
    → was_seen p.base seen ≡ false
    → Fresh seen ps
    → Fresh seen (p ∷ ps)
unfolding was_seen
Fresh-cons [] p ps new h = tt
Fresh-cons (k ∷ seen) p ps new h =
    ((was_seen-ne k p.base seen new, h.0), Fresh-cons seen p ps (ground arith) h.1)

Fresh-nil : (seen : List Text) → Fresh seen []
Fresh-nil [] = tt
Fresh-nil (k ∷ seen) = (tt, Fresh-nil seen)

module _ (normalise : Text → Result Text) where
  -- What a successful round of the loop did: it dropped the endpoint or kept it.
  collect_inv :
      (seen : List Text) (ep : Endpoint) (eps : List Endpoint) (ps : List ParsedEndpoint)
      → collect normalise seen (ep ∷ eps) ≡ ok ps
      → (collect normalise seen eps ≡ ok ps)
        ⊎ ((b : Text) × (rest : List ParsedEndpoint) × (was_seen b seen ≡ false)
            × (collect normalise (b ∷ seen) eps ≡ ok rest)
            × (ps ≡ record { endpoint = ep; base = b } ∷ rest))
  unfolding collect
  collect_inv seen ep eps ps e = elim (Result-cases (normalise ep.address)) [
    | inr (x, bad) ↦ absurd (ground arith)
    | inl (b, good) ↦ elim (Bool-cases (was_seen b seen)) [
      | inl dup ↦ inl (ground arith)
      | inr new ↦ elim (Result-cases (collect normalise (b ∷ seen) eps)) [
        | inr (x, bad) ↦ absurd (ground arith)
        | inl (rest, kept) ↦ inr (b, rest, new, kept, ground arith)
      ]
    ]
  ]

  collect-IsDistinct :
      (seen : List Text) (eps : List Endpoint) (ps : List ParsedEndpoint)
      → collect normalise seen eps ≡ ok ps
      → Fresh seen ps × IsDistinct ps
  unfolding collect
  collect-IsDistinct seen [] ps e =
      let none_left : ps ≡ [] = cc in rw none_left (Fresh-nil seen, tt)
  collect-IsDistinct seen (ep ∷ eps) ps e = elim (collect_inv seen ep eps ps e) [
    | inl dropped ↦ collect-IsDistinct seen eps ps dropped
    | inr (b, rest, new, kept, whole) ↦
        let (fresh, distinct) = collect-IsDistinct (b ∷ seen) eps rest kept in
        let p : ParsedEndpoint = record { endpoint = ep; base = b } in
        rw whole (Fresh-cons seen p rest new fresh.1, (fresh.0, distinct))
  ]

  -- The primary endpoint is always kept, so there is one.
  collect_first :
      (ep : Endpoint) (eps : List Endpoint) (ps : List ParsedEndpoint)
      → collect normalise [] (ep ∷ eps) ≡ ok ps
      → 0 < length ps
  unfolding collect was_seen
  collect_first ep eps ps e = ground arith

  -- A connection that is built is valid: it has an endpoint, the first in the order of priority is
  -- active, and no base URL stands twice.
  pub new_connection-IsValid :
      (primary : Text) (extras : List Endpoint) (c : Connection)
      → new_connection normalise primary extras ≡ ok c
      → IsValid c × (c.current ≡ 0)
  unfolding new_connection
  new_connection-IsValid primary extras c e =
      elim (Result-cases (collect normalise [] (primary_endpoint primary ∷ extras))) [
        | inr (x, bad) ↦ absurd (ground arith)
        | inl (parsed, good) ↦
            let built : c ≡ record { ordered = sort before parsed; current = 0 } = ground arith in
            rw built (
              record {
                in_range = rw length-sort (collect_first _ extras parsed good);
                by_priority =
                    sort-IsSorted before
                      (λ x y. int_le_total x.endpoint.priority y.endpoint.priority) parsed;
                distinct = sort-IsDistinct parsed (collect-IsDistinct [] _ parsed good).1;
              },
              refl,
            )
      ]

rotate :
    (i n : ℕ) → i < n → ((i + 1) % n ≡ (if ltb (i + 1) n then i + 1 else 0)) × ((i + 1) % n < n)
rotate i n h = elim (Bool-cases (ltb (i + 1) n)) [
  | inl inside ↦ rw inside (mod-eq_of_lt (ltb→lt (i + 1) n inside), mod-lt (i + 1) (omega arith))
  | inr last ↦
      let whole : i + 1 ≡ n = ground arith in
      let full : ltb n n ≡ false = ground arith in
      rw (whole, full) (mod_self n, mod-lt n (omega arith))
]

-- Failover keeps a connection valid, and reports whether there is a second endpoint; if there is, the
-- next one in the order becomes active, and behind the last one the first.
pub failover-IsValid :
    (c : Connection)
    → IsValid c
    → IsValid (failover c).0
      × (((failover c).1 ≡ true) ↔ (1 < count c))
      × ((failover c).1 ≡ true
          → (failover c).0.current ≡ (if ltb (c.current + 1) (count c) then c.current + 1 else 0))
unfolding failover count
failover-IsValid c v =
    let (current_moves, in_range) = rotate c.current (length c.ordered) v.in_range in
    (
      record { in_range = ground arith; by_priority = ground arith; distinct = ground arith },
      ground arith,
      ground arith,
    )
