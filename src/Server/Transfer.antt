-- ===== src/Server/Transfer.antt =====
-- The state transfer of src/server/server.cpp, from the `StateDump` of one node to the
-- `SyncFromPeer` of another.
use crown_kv.Common.{
  ℕ, ◌≡◌, ◌≢◌, ◌⊎◌, inl, inr, arith, none, some, List, [], ◌∷◌, ◌++◌, Text, text_eq, text_beq_iff,
  find, IsDistinct, assign_all, find-assign_all, assign_all-IsDistinct, All, Map,
}
use crown_kv.Messages.{NodeInfo}
use crown_kv.KvStore.{Record, KvStore, snapshot_committed}
use crown_kv.KvStore.Views.{committed, promote, dirty_record}
use crown_kv.KvStore.Snapshot.{snapshot_record, outdate, apply_committed_snapshot-merges}
use crown_kv.Replication.{make_replication_stub}
use crown_kv.Server.Gateway.{dump}
use crown_kv.Server.Reconfigure.{Peers, copy_map, sync_from_peer}

find-copy_map :
    {V : Type 0} (k : Text) (m : List (Text × V)) → IsDistinct m → find k (copy_map m) ≡ find k m
unfolding copy_map find
find-copy_map k m d = ground (arith, find-assign_all (λ x. x) k m [] d)

copy_map-IsDistinct : {V : Type 0} (m : Map Text V) → IsDistinct (copy_map m)
unfolding copy_map
copy_map-IsDistinct m = assign_all-IsDistinct (λ x. x) m [] tt

-- The maps of a dump, copied, hold each committed record of the store.
snapshot_record-dump :
    (source : KvStore) (epoch : ℕ) (key : Text)
    → IsDistinct source.store
    → snapshot_record
        (copy_map (dump source epoch).kv_data)
        (copy_map (dump source epoch).version_data)
        key
      ≡ committed source key
unfolding snapshot_record dump committed snapshot_committed find
snapshot_record-dump source epoch key d = ground (
  arith,
  find-copy_map key (assign_all (λ (r : Record). r.value) source.store [])
      (assign_all-IsDistinct (λ (r : Record). r.value) source.store [] tt),
  find-copy_map key (assign_all (λ (r : Record). r.verison) source.store [])
      (assign_all-IsDistinct (λ (r : Record). r.verison) source.store [] tt),
  find-assign_all (λ (r : Record). r.value) key source.store [] d,
  find-assign_all (λ (r : Record). r.verison) key source.store [] d,
)

-- What the members before the one that answers are: the node itself, or silent.
abbrev pub IsPassedOver : Peers → Text → ℕ → NodeInfo → Type 0
IsPassedOver peers node_id epoch x =
    (x.node_id ≡ node_id) ⊎ (peers (make_replication_stub x) epoch ≡ none)

-- A node that synchronises from the first other member that answers, with a dump of a store that
-- has each key once, ends with the newer of the two committed records of every key, its own or that
-- member's; a dirty record of its own goes if that member has committed its version or a later one.
-- The members before are the node itself or do not answer.
pub sync_from_peer-merges :
    (peers : Peers) (before after : List NodeInfo) (member : NodeInfo) (node_id : Text)
    (epoch peer_epoch : ℕ) (kv source : KvStore)
    → All (IsPassedOver peers node_id epoch) before
    → member.node_id ≢ node_id
    → peers (make_replication_stub member) epoch ≡ some (dump source peer_epoch)
    → IsDistinct source.store
    → (key : Text)
    → let kv' = sync_from_peer peers (before ++ member ∷ after) node_id epoch kv in
      (committed kv' key ≡ promote (committed source key) (committed kv key))
      × ((v : ℕ)
          → dirty_record kv' key v ≡ outdate (committed source key) v (dirty_record kv key v))
unfolding sync_from_peer
sync_from_peer-merges peers [] after member node_id epoch peer_epoch kv source b h e d key =
    ground (
      arith,
      text_beq_iff member.node_id node_id,
      h,
      e,
      snapshot_record-dump source peer_epoch key d,
      apply_committed_snapshot-merges kv (copy_map (dump source peer_epoch).kv_data)
          (copy_map (dump source peer_epoch).version_data)
          (copy_map-IsDistinct (dump source peer_epoch).kv_data) key,
    )
sync_from_peer-merges peers (x ∷ before) after member node_id epoch peer_epoch kv source (inl p, b)
      h e d key =
    ground (
      arith,
      text_beq_iff x.node_id node_id,
      p,
      sync_from_peer-merges peers before after member node_id epoch peer_epoch kv source b h e d
          key,
    )
sync_from_peer-merges peers (x ∷ before) after member node_id epoch peer_epoch kv source (inr p, b)
      h e d key =
    ground (
      arith,
      p,
      sync_from_peer-merges peers before after member node_id epoch peer_epoch kv source b h e d
          key,
    )
