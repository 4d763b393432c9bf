-- ===== src/Chain.antt =====
-- src/replication/chain/chain_replication.cpp: writes at the first node, reads at the last one.
pub mod Tail
pub mod Acks
use crown_kv.Common.{
  ℕ, ◌-◌, Bool, true, leb, nat_beq, if◌then◌else◌, Option, none, some, List, Text, nat_eq, find,
}
use crown_kv.Messages.{
  PutRequest, PutResponse, GetResponse, no_membership, wrong_node, not_found, NodeInfo,
}
use crown_kv.KvStore.{put, get, get_latest_version, mark_clean}
use crown_kv.Replication.{Stub, Replication, forward_put, send_ack, erase_pending_ack, Node}
use crown_kv.Membership
use crown_kv.Apportioned.{put_error, put_success, get_error, get_success, wrong_node_error}

-- `ring_size == 1 || !next_stub`
unfoldable pub is_alone : Replication → Bool
is_alone r = elim r.next_stub [ none ↦ true | some _ ↦ nat_beq r.ring_size 1 ]

-- A write from a client, at the head.
unfoldable pub put_at_head : ℕ → PutRequest → Node → Node × PutResponse
put_at_head now request n =
    let (kv, assigned) = put n.kv request.key request.value none in
    let request' = record request { version = assigned } in
    if is_alone n.repl
    then (
      record {
        kv = mark_clean kv request.key assigned;
        repl = send_ack request' n.repl.prev_stub n.repl;
      },
      put_success assigned,
    )
    else (
      record { kv = kv; repl = forward_put now request' n.repl.next_stub n.repl },
      put_success assigned,
    )

-- A write from the predecessor: stale if it is not newer than every version of the key, clean or
-- dirty. The tail acknowledges to its predecessor and to the client.
unfoldable pub put_versioned : ℕ → PutRequest → Node → Node × PutResponse
put_versioned now request n =
    let r = n.repl in
    let stale = leb request.version (get_latest_version n.kv request.key) in
    let kv =
      if stale then n.kv else (put n.kv request.key request.value (some request.version)).0 in
    if nat_beq r.node_index (r.ring_size - 1)
    then (
      record {
        kv = if stale then kv else mark_clean kv request.key request.version;
        repl = send_ack request none (send_ack request r.prev_stub r);
      },
      put_success request.version,
    )
    else (
      record { kv = kv; repl = forward_put now request r.next_stub r },
      put_success request.version,
    )

unfoldable pub handle_put : ℕ → PutRequest → Node → Node × PutResponse
handle_put now request n =
    let r = n.repl in
    if nat_beq r.ring_size 0
    then (n, put_error no_membership)
    else if nat_beq request.version 0
    then (if nat_beq r.node_index 0
        then put_at_head now request n
        else (n, put_error (wrong_node_error r.membership 0)))
    else put_versioned now request n

unfoldable pub handle_get : Text → Node → GetResponse
handle_get key n =
    let r = n.repl in
    if nat_beq r.ring_size 0
    then get_error no_membership
    else if nat_beq r.node_index (r.ring_size - 1)
    then elim (get n.kv key) [
      | none ↦ get_error not_found
      | some x ↦ get_success x (get_latest_version n.kv key)
    ]
    else get_error (wrong_node none)

unfoldable pub handle_ack : ℕ → Node → Node
handle_ack request_id n = elim (find request_id n.repl.pending_acks) [
  | none ↦ n
  | some entry ↦
      let request = entry.request in
      let r = n.repl in
      let kv = mark_clean n.kv request.key request.version in
      let acked = if nat_beq r.node_index 0 then r else send_ack request r.prev_stub r in
      if nat_beq r.ring_size 0 then record { kv = kv; repl = r } else record {
        kv = kv;
        repl = record acked { pending_acks = erase_pending_ack request_id acked.pending_acks };
      }
]

-- The file has its own copies of these.
unfoldable pub update_membership : List NodeInfo → Text → Replication → Replication
update_membership = Membership.update_membership

unfoldable pub build_stub : List NodeInfo → ℕ → Option Stub
build_stub = Membership.build_stub
