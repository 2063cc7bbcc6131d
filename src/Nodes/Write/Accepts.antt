-- ===== src/Nodes/Write/Accepts.antt =====
-- What a body that is sent holds: `SetNodeConfig` of proxmox/nodes/nodeconfig.go.
use proxmox_go_sdk.Base.{
  ℕ, ◌<◌, ◌≡◌, refl, sym, ◌∙◌, true, false, some, List, [], ◌∷◌, All, arith, leb→le, ◌⊎◌, inl, inr,
}
use proxmox_go_sdk.Base.Eq.{text_Eq, text_eq, text_eq_iff}
use proxmox_go_sdk.Base.Map.{lookup, insert, lookup-insert}
use proxmox_go_sdk.Base.Text.{Text, text, is_empty}
use proxmox_go_sdk.Base.Number.{ℤ, pos, negsuc, int_Eq, int_eq_iff, two63}
use proxmox_go_sdk.Nodes.{AcmeDomain, NodeConfigUpdate}
use proxmox_go_sdk.Nodes.Acme.{acme_domain_key, acme_domain_slot, encode_acme_domain, max_index}
use proxmox_go_sdk.Nodes.Acme.Slots.{acme_domain_slot_iff}
use proxmox_go_sdk.Nodes.Write.{
  Body, in_range, was_given, put_acme, put_domains, put_delete, put_digest, update_body,
  encode_extra,
}

small : (n : ℕ) → in_range (pos n) ≡ true → n < two63
small n h = let le = leb→le n max_index h in ground (arith, le)

-- the keys of two slots in range differ where the slots do
key-injective :
    (i j : ℤ)
    → in_range i ≡ true
    → in_range j ≡ true
    → acme_domain_key i ≡ acme_domain_key j
    → i ≡ j
key-injective (pos m) (pos n) hi hj e =
    let read : acme_domain_slot (acme_domain_key (pos m)) ≡ some (pos m) =
      (acme_domain_slot_iff (acme_domain_key (pos m)) m (small m hi)).1 refl in
    let read' : acme_domain_slot (acme_domain_key (pos m)) ≡ some (pos n) =
      (acme_domain_slot_iff (acme_domain_key (pos m)) n (small n hj)).1 e in
    ground (arith, sym read ∙ read')
key-injective (negsuc m) j hi hj e = ground (arith, hi)
key-injective (pos m) (negsuc n) hi hj e = ground (arith, hj)

-- What a step of the loop that succeeds has found.
record Passed (d : AcmeDomain) (ds : List AcmeDomain) (seen : List ℤ) (body body' : Body)
    : Type 0 where
  ranged : in_range d.index ≡ true
  named : is_empty d.domain ≡ false
  fresh : was_given d.index seen ≡ false
  rest :
      put_domains ds (d.index ∷ seen) (insert (acme_domain_key d.index) (encode_acme_domain d) body)
      ≡ inr body'

put_domains-Passed :
    (d : AcmeDomain) (ds : List AcmeDomain) (seen : List ℤ) (body body' : Body)
    → put_domains (d ∷ ds) seen body ≡ inr body'
    → Passed d ds seen body body'
unfolding put_domains
put_domains-Passed d ds seen body body' h = record {
  ranged = ground (arith, h);
  named = ground (arith, h);
  fresh = ground (arith, h);
  rest = ground (arith, h);
}

-- the key of a slot that was given before is not the key of a new one
keys-differ :
    (seen : List ℤ) (i j : ℤ)
    → was_given i seen ≡ false
    → was_given j seen ≡ true
    → in_range i ≡ true
    → in_range j ≡ true
    → text_eq (acme_domain_key i) (acme_domain_key j) ≡ false
keys-differ seen i j fresh given hi hj = ground (
  arith,
  text_eq_iff (acme_domain_key i) (acme_domain_key j),
  key-injective i j hi hj,
  fresh,
  given,
)

-- a slot that was given before is not written again
put_domains-keeps :
    (ds : List AcmeDomain) (seen : List ℤ) (body body' : Body) (j : ℤ)
    → was_given j seen ≡ true
    → in_range j ≡ true
    → put_domains ds seen body ≡ inr body'
    → lookup (acme_domain_key j) body' ≡ lookup (acme_domain_key j) body
unfolding put_domains
put_domains-keeps [] seen body body' j given ranged h = ground (arith, h)
put_domains-keeps (d ∷ ds) seen body body' j given ranged h =
    let p = put_domains-Passed d ds seen body body' h in
    let differ = keys-differ seen d.index j p.fresh given p.ranged ranged in
    let known : was_given j (d.index ∷ seen) ≡ true = ground (arith, given) in
    put_domains-keeps ds (d.index ∷ seen) _ body' j known ranged p.rest
    ∙ ground (
      arith,
      lookup-insert (acme_domain_key d.index) (acme_domain_key j) (encode_acme_domain d) body,
      differ,
    )

-- A domain that is in order and whose slot holds what it renders to.
pub IsWritten : Body → AcmeDomain → Type 0
IsWritten body d =
    (in_range d.index ≡ true)
    × (is_empty d.domain ≡ false)
    × (lookup (acme_domain_key d.index) body ≡ some (encode_acme_domain d))

put_domains-IsWritten :
    (ds : List AcmeDomain) (seen : List ℤ) (body body' : Body)
    → put_domains ds seen body ≡ inr body'
    → All (λ d. IsWritten body' d) ds
unfolding IsWritten
put_domains-IsWritten [] seen body body' h = tt
put_domains-IsWritten (d ∷ ds) seen body body' h =
    let p = put_domains-Passed d ds seen body body' h in
    let known : was_given d.index (d.index ∷ seen) ≡ true =
      ground (arith, int_eq_iff d.index d.index) in
    let kept = put_domains-keeps ds (d.index ∷ seen) _ body' d.index known p.ranged p.rest in
    let key = acme_domain_key d.index in
    let written : lookup key body' ≡ some (encode_acme_domain d) =
      kept
      ∙ ground (arith, lookup-insert key key (encode_acme_domain d) body, text_eq_iff key key) in
    ((p.ranged, p.named, written), put_domains-IsWritten ds (d.index ∷ seen) _ body' p.rest)

lookup-put_delete :
    (ks : List Text) (i : ℤ) (body : Body)
    → lookup (acme_domain_key i) (put_delete ks body) ≡ lookup (acme_domain_key i) body
unfolding text_eq acme_domain_key
lookup-put_delete [] i body = refl
lookup-put_delete (k ∷ ks) i body = lookup-insert (text "delete") (acme_domain_key i) _ body

lookup-put_digest :
    (digest : Text) (i : ℤ) (body : Body)
    → lookup (acme_domain_key i) (put_digest digest body) ≡ lookup (acme_domain_key i) body
unfolding text_eq acme_domain_key
lookup-put_digest [] i body = refl
lookup-put_digest (c ∷ digest) i body = lookup-insert (text "digest") (acme_domain_key i) _ body

-- the delete list and the digest are written beside the slots
finish-IsWritten :
    (u : NodeConfigUpdate) (body : Body) (ds : List AcmeDomain)
    → All (λ d. IsWritten body d) ds
    → All (λ d. IsWritten (put_digest u.digest (put_delete u.delete body)) d) ds
unfolding IsWritten
finish-IsWritten u body [] h = tt
finish-IsWritten u body (d ∷ ds) ((ranged, named, written), rest) =
    let found =
      lookup-put_digest u.digest d.index (put_delete u.delete body)
      ∙ lookup-put_delete u.delete d.index body
      ∙ written in
    ((ranged, named, found), finish-IsWritten u body ds rest)

-- a chain that succeeds has a first step that succeeds
bound {ℓ} :
    {A B E : Type ℓ} (m : E ⊎ A) (f : A → E ⊎ B) (b : B)
    → elim m [ inl e ↦ inl e | inr a ↦ f a ] ≡ inr b
    → (a : A) × (m ≡ inr a) × (f a ≡ inr b)
bound (inl e) f b h = ground (arith, h)
bound (inr a) f b h = (a, refl, h)

-- An update that is accepted names only slots from 0 to the highest index with a domain in each,
-- and the body holds under each slot's key what that slot's domain renders to.
pub update_body-IsWritten :
    (u : NodeConfigUpdate) (body : Body)
    → update_body u ≡ inr body
    → All (λ d. IsWritten body d) u.acme_domains
unfolding update_body
update_body-IsWritten u body h =
    let (begun, _, h') = bound (put_acme u.acme (encode_extra u.extra [])) _ body h in
    let (body', written, same) = bound (put_domains u.acme_domains [] begun) _ body h' in
    let sent : body ≡ put_digest u.digest (put_delete u.delete body') = ground (arith, same) in
    rw sent (
      finish-IsWritten u body' u.acme_domains
        (put_domains-IsWritten u.acme_domains [] begun body' written))
