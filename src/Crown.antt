-- ===== src/Crown.antt =====
-- src/replication/crown/crown_replication.cpp: each key has a head and a tail of its own, neighbours on
-- the ring.
use crown_kv.Common.{ℕ, Bool, Option, List, Text}
use crown_kv.Messages.{
  PutRequest, PutResponse, GetResponse, VersionQueryRequest, VersionQueryResponse, NodeInfo,
}
use crown_kv.KvStore.{KvStore, Record}
use crown_kv.Replication.{Stub, Replication, Node}
use crown_kv.Membership
use crown_kv.Apportioned.{Roles, CleanState}
use crown_kv.Ring.{head_index, tail_index}
use crown_kv.Apportioned

abbrev pub roles : Roles
roles = record { head = head_index; tail = tail_index }

unfoldable pub handle_put : ℕ → PutRequest → Node → Node × PutResponse
handle_put = Apportioned.handle_put roles

unfoldable pub handle_get :
    (Stub → VersionQueryRequest → Option VersionQueryResponse) → Text → Node → GetResponse
handle_get = Apportioned.handle_get roles

unfoldable pub handle_ack : ℕ → Node → Node
handle_ack = Apportioned.handle_ack roles

unfoldable pub handle_version_query : VersionQueryRequest → Node → VersionQueryResponse
handle_version_query = Apportioned.handle_version_query roles

-- The file has its own copies of these.
unfoldable pub update_membership : List NodeInfo → Text → Replication → Replication
update_membership = Membership.update_membership

unfoldable pub build_stub : List NodeInfo → ℕ → Option Stub
build_stub = Membership.build_stub

unfoldable pub get_committed_state : KvStore → Text → CleanState
get_committed_state = Apportioned.get_committed_state

unfoldable pub has_dirty : KvStore → Text → Bool
has_dirty = Apportioned.has_dirty

unfoldable pub get_dirty_record : KvStore → Text → ℕ → Option Record
get_dirty_record = Apportioned.get_dirty_record
