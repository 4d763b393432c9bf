-- ===== src/Server/Reconfigure.antt =====
-- `NodeMetadataService` of src/server/server.cpp: a reconfiguration, and the state transfer to a node
-- that is added. `peers` is what the other nodes answer to a `StateDump`: none is a status other
-- than OK.
use crown_kv.Common.{
  ℕ, ltb, Bool, true, false, ◌&&◌, not, if◌then◌else◌, Option, none, some, List, [], ◌∷◌, Text,
  text_eq, ◌==◌, Map, assign_all,
}
use crown_kv.Messages.{NodeInfo, StateDumpResponse, ReconfigureRequest}
use crown_kv.KvStore.{KvStore, apply_committed_snapshot}
use crown_kv.Replication.{Stub, make_replication_stub}
use crown_kv.Apportioned.{is_empty}
use crown_kv.Server.{normal, Process, apply_membership}

abbrev pub Peers : Type 0
Peers = Stub → ℕ → Option StateDumpResponse

-- The loops that copy a map of the response.
unfoldable pub copy_map : {V : Type 0} → Map Text V → Map Text V
copy_map entries = assign_all (λ x. x) entries []

-- The first other member that answers is copied from.
unfoldable pub sync_from_peer : Peers → List NodeInfo → Text → ℕ → KvStore → KvStore
sync_from_peer peers [] node_id epoch kv = kv
sync_from_peer peers (member ∷ membership) node_id epoch kv =
    let rest = sync_from_peer peers membership node_id epoch kv in
    if member.node_id == node_id then rest else elim (peers (make_replication_stub member) epoch) [
      | none ↦ rest
      | some response ↦
          apply_committed_snapshot kv (copy_map response.kv_data) (copy_map response.version_data)
    ]

-- The Boolean is the `success` of the response. The report to the metadata store at the end of a
-- synchronisation changes nothing in this process.
unfoldable pub reconfigure : ℕ → Peers → ReconfigureRequest → Process → Process × Bool
reconfigure now peers q p =
    if ltb q.epoch p.server.epoch
    then (p, false)
    else (let s = p.server in
        let needs_sync = not (is_empty q.added_node_id) && (q.added_node_id == s.node_id) in
        let kv =
          if needs_sync then sync_from_peer peers q.membership s.node_id q.epoch p.kv else p.kv in
        let p' : Process = record p {
          kv = kv;
          server = record s { epoch = q.epoch; mode = q.mode; membership = q.membership };
        } in
        let p'' =
          apply_membership now q.membership s.node_id q.mode q.epoch (ltb s.epoch q.epoch) p' in
        (record p'' { server = record p''.server { state = normal } }, true))
