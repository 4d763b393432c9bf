-- ===== src/Tests/Places.antt =====
-- Runs of the placement of keys, of addresses as text, and of `update_membership`.
use crown_kv.Common.{
  ◌<◌, if◌then◌else◌, ltb, ℕ, ◌+◌, ◌≡◌, ◌↔◌, inl, refl, arith, none, some, text_eq, length,
}
use crown_kv.Ring.{head_index, tail_index, walk}
use crown_kv.Ring.Placement.{walk-tail}
use crown_kv.Replication.{make_replication_stub}
use crown_kv.Membership.{update_membership}
use crown_kv.Membership.Neighbours.{IsFirst, update_membership-places}
use crown_kv.Tests.Data.{key, first, second, third, members, object}

walk-tail_example :
    let head = head_index key 3 in
    ((walk 3 2 head ≡ tail_index key 3) ↔ (◌≡◌ {A = ℕ} (2 + 1) 3))
    × ((walk 3 2 head ≡ walk 3 1 head) ↔ (◌≡◌ {A = ℕ} 2 1))
walk-tail_example = walk-tail key 3 2 1 (omega arith) (omega arith) (omega arith)

second_IsFirst : IsFirst second.node_id members 1
second_IsFirst = record { found = (second, refl, refl); first = λ j node h e. ground arith }

update_membership-places_example :
    let r' = update_membership members second.node_id (object 0 none none) in
    (r'.node_index ≡ 1)
    × (r'.ring_size ≡ length members)
    × (r'.membership ≡ members)
    × (1 < length members)
    × (r'.prev_stub ≡ (if ltb 1 (length members) then some (make_replication_stub first) else none))
    × (r'.next_stub ≡ (if ltb 1 (length members) then some (make_replication_stub third) else none))
update_membership-places_example =
    update_membership-places members second.node_id (object 0 none none) 1 0 2 first third
      second_IsFirst (inl refl) refl (inl refl) refl
