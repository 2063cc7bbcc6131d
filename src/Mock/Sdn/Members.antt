-- ===== src/Mock/Sdn/Members.antt =====
-- Membership in fabrics: proxmox/mockpve/sdn.go. Members are stored apart from the fabrics.
use proxmox_go_sdk.Base.{
  [], sym, ◌∙◌, subst, Bool-cases, inl, inr, is_some, arith, refl, ◌≡◌, true, some, none, Option,
}
use proxmox_go_sdk.Base.Eq.{◌==◌, text_Eq, eq_sound, text_eq_iff}
use proxmox_go_sdk.Base.Map.{lookup, insert, erase, lookup-insert, lookup-erase}
use proxmox_go_sdk.Base.Text.{Text}
use proxmox_go_sdk.Mock.{State, Payload}
use proxmox_go_sdk.Mock.Collection.{put_record, drop_record}
use proxmox_go_sdk.Mock.Sdn.{fabric_records, drop_members}
use proxmox_go_sdk.Mock.Sdn.FabricNodes.{member_records}
use proxmox_go_sdk.Mock.SdnRecords.{FabricRecord, FabricNodeRecord}
use proxmox_go_sdk.Mock.Store.{or_empty_map}

abbrev pub member : Text → Text → State → Option FabricNodeRecord
member f node s = lookup node (or_empty_map (lookup f s.sdn.fabric_nodes))

-- Every member belongs to a fabric that is stored.
abbrev pub IsOwned : State → Type 0
IsOwned s =
    (f node : Text) (rec : FabricNodeRecord)
    → member f node s ≡ some rec
    → is_some (lookup f s.sdn.fabrics) ≡ true

abbrev pub Owned : Payload × State → Type 0
Owned a = IsOwned a.1

lookup-empty : (k : Text) → lookup {V = FabricNodeRecord} k [] ≡ none
unfolding lookup
lookup-empty k = refl

module _ (s : State) (owned : IsOwned s) where
  pub put_fabric-IsOwned :
      (name : Text) (rec : FabricRecord) → IsOwned (put_record fabric_records name rec s)
  unfolding put_record
  put_fabric-IsOwned name rec f node found h =
      ground (arith, lookup-insert name f rec s.sdn.fabrics, owned f node found h)

  pub drop_fabric-IsOwned :
      (name : Text) → IsOwned (drop_members name (drop_record fabric_records name s))
  unfolding drop_record drop_members
  drop_fabric-IsOwned name f node found h = ground (
    arith,
    lookup-erase name f s.sdn.fabrics,
    lookup-erase name f s.sdn.fabric_nodes,
    owned f node found,
    lookup-empty node,
  )

  pub put_member-IsOwned :
      (name node : Text) (rec : FabricNodeRecord)
      → is_some (lookup name s.sdn.fabrics) ≡ true
      → IsOwned (put_record (member_records name) node rec s)
  unfolding put_record
  put_member-IsOwned name node rec known f n found h = elim (Bool-cases (name == f)) [
    | inl e ↦ subst (λ g. is_some (lookup g s.sdn.fabrics) ≡ true) (eq_sound name f e) known
    | inr e ↦ owned f n found (
        sym (
          rw
            (
              lookup-insert name f (insert node rec (or_empty_map (lookup name s.sdn.fabric_nodes)))
                  s.sdn.fabric_nodes,
              e,
            )
            refl)
        ∙ h)
  ]

  pub drop_member-IsOwned : (name node : Text) → IsOwned (drop_record (member_records name) node s)
  unfolding drop_record
  drop_member-IsOwned name node f n found h = ground (
    arith,
    lookup-insert name f (erase node (or_empty_map (lookup name s.sdn.fabric_nodes)))
        s.sdn.fabric_nodes,
    lookup-erase node n (or_empty_map (lookup name s.sdn.fabric_nodes)),
    text_eq_iff name f,
    owned f n found,
  )
