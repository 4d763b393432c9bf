-- ===== src/Membership.antt =====
-- `update_membership`, `BuildStub` and `get_next_stub`, which are the same text in
-- src/replication/chain/chain_replication.cpp, craq/craq_replication.cpp and
-- crown/crown_replication.cpp.
pub mod Neighbours
use crown_kv.Common.{
  ℕ, zero, suc, ◌+◌, Bool, if◌then◌else◌, ltb, leb, Option, none, some, ◌>>=◌, List, [], ◌∷◌, Text,
  text_eq, ◌==◌, length, get_elem?,
}
use crown_kv.Messages.{NodeInfo}
use crown_kv.Ring.{prev_index, next_index}
use crown_kv.Replication.{Stub, make_replication_stub, Replication}

-- No stub out of range; an index is never negative here.
unfoldable pub build_stub : List NodeInfo → ℕ → Option Stub
build_stub membership index =
    get_elem? membership index >>= λ node. some (make_replication_stub node)

-- The loop stops at the first node with the id, and leaves `node_index` at 0 if there is none.
unfoldable pub index_of : Text → ℕ → List NodeInfo → ℕ
index_of node_id i [] = 0
index_of node_id i (node ∷ rest) =
    let more = index_of node_id (i + 1) rest in if node.node_id == node_id then i else more

unfoldable pub update_membership : List NodeInfo → Text → Replication → Replication
update_membership membership node_id r =
    let ring_size = length membership in
    let node_index = index_of node_id 0 membership in
    let shared = ltb 1 ring_size in
    record r {
      membership = membership;
      ring_size = ring_size;
      node_index = node_index;
      prev_stub = if shared then build_stub membership (prev_index ring_size node_index) else none;
      next_stub = if shared then build_stub membership (next_index ring_size node_index) else none;
    }

unfoldable pub get_next_stub : Replication → Option Stub
get_next_stub r = r.next_stub
