-- ===== src/Metadata/Changes.antt =====
-- When a change of the cluster can be made, and what it makes of the membership: the three
-- reconfigurations of src/metadata_store/metadata_store.cpp.
use mathlib.Core.List.{Memᴰ}
use crown_kv.Common.{
  ◌++◌, ◌≡◌, ◌≢◌, refl, ◌⊎◌, inl, inr, arith, true, false, Bool-cases, ◌==◌, text_eq, text_beq_iff,
  eq_sound, erase, assign, List, [], ◌∷◌, Text, All,
}
use crown_kv.Messages.{NodeInfo}
use crown_kv.Metadata.{ClusterState, has_member, without}
use crown_kv.Metadata.Ids.{without-found}
use crown_kv.Metadata.History.{Change, removes, adds, switches}

-- The second list is the first without the members of an id, in order.
pub data IsWithout (id : Text) : List NodeInfo → List NodeInfo → Type 0 where
  done : IsWithout id [] []
  keeps :
      {m : NodeInfo} {l l' : List NodeInfo}
      → m.node_id ≢ id
      → IsWithout id l l'
      → IsWithout id (m ∷ l) (m ∷ l')
  leaves_out :
      {m : NodeInfo} {l l' : List NodeInfo}
      → m.node_id ≡ id
      → IsWithout id l l'
      → IsWithout id (m ∷ l) l'

-- Some member has the id, and none has it.
abbrev pub Has : Text → List NodeInfo → Type 0
Has id members = (m : NodeInfo) × Memᴰ m members × (m.node_id ≡ id)

abbrev pub HasNot : Text → List NodeInfo → Type 0
HasNot id members = All (λ (m : NodeInfo). m.node_id ≢ id) members

-- Which changes can be made: the failed node is a member, the added one is not, any switch.
abbrev pub IsPossible : Change → ClusterState → Type 0
IsPossible (removes failed) s = Has failed s.membership
IsPossible (adds at added) s = HasNot added.node_id s.membership
IsPossible (switches mode) s = Unit

-- What the cluster is after a change, its epoch aside.
abbrev pub IsDone : Change → ClusterState → ClusterState → Type 0
IsDone (removes failed) s s' =
    IsWithout failed s.membership s'.membership
    × (s'.mode ≡ s.mode)
    × (s'.last_heartbeat ≡ erase failed s.last_heartbeat)
    × (s'.reconfig_in_progress ≡ false)
IsDone (adds at added) s s' =
    (s'.membership ≡ s.membership ++ added ∷ [])
    × (s'.mode ≡ s.mode)
    × (s'.last_heartbeat ≡ assign added.node_id at s.last_heartbeat)
    × (s'.reconfig_in_progress ≡ false)
IsDone (switches mode) s s' =
    (s'.membership ≡ s.membership)
    × (s'.mode ≡ mode)
    × (s'.last_heartbeat ≡ s.last_heartbeat)
    × (s'.reconfig_in_progress ≡ false)

pub without-IsWithout :
    (id : Text) (members : List NodeInfo) → IsWithout id members (without id members).0
unfolding without
without-IsWithout id [] = done
without-IsWithout id (m ∷ members) = elim (Bool-cases (m.node_id == id)) [
  | inl e ↦ rw e (leaves_out (eq_sound m.node_id id e) (without-IsWithout id members))
  | inr e ↦
      rw e (keeps (ground (arith, e, text_beq_iff m.node_id id)) (without-IsWithout id members))
]

pub has_member-cases :
    (id : Text) (members : List NodeInfo)
    → ((has_member id members ≡ true) × Has id members)
      ⊎ ((has_member id members ≡ false) × HasNot id members)
unfolding has_member
has_member-cases id [] = inr (refl, tt)
has_member-cases id (m ∷ members) = elim (Bool-cases (m.node_id == id)) [
  | inl e ↦ rw e (inl (refl, (m, Memᴰ.head refl, eq_sound m.node_id id e)))
  | inr e ↦
      let other : m.node_id ≢ id = ground (arith, e, text_beq_iff m.node_id id) in
      rw e (elim (has_member-cases id members) [
        | inl (f, (x, at, same)) ↦ inl (f, (x, Memᴰ.tail at, same))
        | inr (f, none_has) ↦ inr (f, (other, none_has))
      ])
]

pub without-cases :
    (id : Text) (members : List NodeInfo)
    → (((without id members).1 ≡ true) × Has id members)
      ⊎ (((without id members).1 ≡ false) × HasNot id members)
without-cases id members = rw (without-found id members) (has_member-cases id members)
