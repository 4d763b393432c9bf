-- ===== src/Craq.antt =====
-- src/replication/craq/craq_replication.cpp: the head is the first node and the tail the last one,
-- for every key.
use crown_kv.Common.{ℕ, ◌-◌, Option, Text}
use crown_kv.Messages.{
  PutRequest, PutResponse, GetResponse, VersionQueryRequest, VersionQueryResponse,
}
use crown_kv.Replication.{Stub, Node}
use crown_kv.Apportioned.{Roles}
use crown_kv.Apportioned

abbrev pub roles : Roles
roles = record { head = λ key ring_size. 0; tail = λ key ring_size. ring_size - 1 }

unfoldable pub handle_put : ℕ → PutRequest → Node → Node × PutResponse
handle_put = Apportioned.handle_put roles

unfoldable pub handle_get :
    (Stub → VersionQueryRequest → Option VersionQueryResponse) → Text → Node → GetResponse
handle_get = Apportioned.handle_get roles

unfoldable pub handle_ack : ℕ → Node → Node
handle_ack = Apportioned.handle_ack roles

unfoldable pub handle_version_query : VersionQueryRequest → Node → VersionQueryResponse
handle_version_query = Apportioned.handle_version_query roles
