-- ===== src/Apportioned.antt =====
-- The handlers that src/replication/craq/craq_replication.cpp and
-- src/replication/crown/crown_replication.cpp have in common: the two files differ only in where the
-- head and the tail of a key are, which is the parameter `Roles` here. `Craq` and `Crown` are their
-- two uses. What a node asks the tail over the network, and whether that RPC succeeds, is the
-- argument `query`: none is a status other than OK.
pub mod Puts
pub mod Forwards
pub mod Acks
pub mod Gets
pub mod Rounds
pub mod Passes
use crown_kv.Common.{
  ℕ, ◌-◌, Bool, true, false, not, ◌||◌, leb, nat_beq, if◌then◌else◌, Option, none, some, ◌>>=◌,
  List, [], ◌∷◌, Text, text_eq, nat_eq, Map, find, length, get_elem?,
}
use crown_kv.Messages.{
  PutRequest, PutResponse, GetResponse, VersionQueryRequest, VersionQueryResponse, Error, no_error,
  no_membership, wrong_node, not_found, tail_unavailable, version_not_found, NodeInfo,
}
use crown_kv.Address.{address_from_node}
use crown_kv.KvStore.{Record, KvStore, put, get, mark_clean}
use crown_kv.Replication.{
  Stub, make_replication_stub, PendingEntry, Replication, forward_put, send_ack, erase_pending_ack,
  Node,
}

pub record CleanState : Type 0 where
  pub version : ℕ
  pub found : Bool

unfoldable pub get_committed_state : KvStore → Text → CleanState
get_committed_state s key = elim (find key s.store) [
  | none ↦ record { version = 0; found = false }
  | some r ↦ record { version = r.verison; found = true }
]

abbrev pub is_empty {ℓ} : {A : Type ℓ} → List A → Bool
is_empty [] = true
is_empty (x ∷ xs) = false

unfoldable pub has_dirty : KvStore → Text → Bool
has_dirty s key = elim (find key s.dirty_store) [ none ↦ false | some d ↦ not (is_empty d) ]

unfoldable pub get_dirty_record : KvStore → Text → ℕ → Option Record
get_dirty_record s key version = do d ← find key s.dirty_store; find version d

-- Where the head and the tail of a key are on a ring of some size.
pub record Roles : Type 0 where
  pub head : Text → ℕ → ℕ
  pub tail : Text → ℕ → ℕ

abbrev pub put_error : Error → PutResponse
put_error e = record { success = false; error = e; version = 0 }

abbrev pub put_success : ℕ → PutResponse
put_success v = record { success = true; error = no_error; version = v }

abbrev pub get_error : Error → GetResponse
get_error e = record { value = []; version = 0; error = e }

abbrev pub get_success : Text → ℕ → GetResponse
get_success x v = record { value = x; version = v; error = no_error }

-- The address of the head is added if it is a member.
unfoldable pub wrong_node_error : List NodeInfo → ℕ → Error
wrong_node_error membership head =
    wrong_node (get_elem? membership head >>= λ node. some (address_from_node node))

-- `if (prev_stub) send_ack(request, prev_stub); send_ack(request, nullptr);`
unfoldable pub acknowledge : PutRequest → Replication → Replication
acknowledge request r = elim r.prev_stub [
  | none ↦ send_ack request none r
  | some prev ↦ send_ack request none (send_ack request (some prev) r)
]

-- `node_index == tail_index || !next_stub`
unfoldable pub is_last : ℕ → Replication → Bool
is_last tail r = elim r.next_stub [ none ↦ true | some _ ↦ nat_beq r.node_index tail ]

-- A write from a client, at the head: the store assigns its version.
unfoldable pub put_at_head : ℕ → ℕ → PutRequest → Node → Node × PutResponse
put_at_head now tail request n =
    let (kv, assigned) = put n.kv request.key request.value none in
    let request' = record request { version = assigned } in
    if is_last tail n.repl
    then (
      record { kv = mark_clean kv request.key assigned; repl = acknowledge request' n.repl },
      put_success assigned,
    )
    else (
      record { kv = kv; repl = forward_put now request' n.repl.next_stub n.repl },
      put_success assigned,
    )

-- A write from the predecessor, with its version.
unfoldable pub put_versioned : ℕ → ℕ → PutRequest → Node → Node × PutResponse
put_versioned now tail request n =
    let stale = leb request.version (get_committed_state n.kv request.key).version in
    let kv =
      if stale then n.kv else (put n.kv request.key request.value (some request.version)).0 in
    if is_last tail n.repl
    then (
      record {
        kv = if stale then kv else mark_clean kv request.key request.version;
        repl = acknowledge request n.repl;
      },
      put_success request.version,
    )
    else (
      record { kv = kv; repl = forward_put now request n.repl.next_stub n.repl },
      put_success request.version,
    )

module _ (roles : Roles) where
  unfoldable pub handle_put : ℕ → PutRequest → Node → Node × PutResponse
  handle_put now request n =
      let r = n.repl in
      let head = roles.head request.key r.ring_size in
      let tail = roles.tail request.key r.ring_size in
      if nat_beq r.ring_size 0
      then (n, put_error no_membership)
      else if nat_beq request.version 0
      then (if nat_beq r.node_index head
          then put_at_head now tail request n
          else (n, put_error (wrong_node_error r.membership head)))
      else put_versioned now tail request n

  unfoldable pub handle_version_query : VersionQueryRequest → Node → VersionQueryResponse
  handle_version_query request n =
      let r = n.repl in
      if nat_beq r.ring_size 0
      then record { committed_version = 0; error = no_membership }
      else if nat_beq r.node_index (roles.tail request.key r.ring_size)
      then (let state = get_committed_state n.kv request.key in
          record {
            committed_version = state.version;
            error = if state.found then no_error else not_found;
          })
      else record { committed_version = 0; error = wrong_node none }

  unfoldable pub handle_ack : ℕ → Node → Node
  handle_ack request_id n = elim (find request_id n.repl.pending_acks) [
    | none ↦ n
    | some entry ↦
        let request = entry.request in
        let r = n.repl in
        let kv = mark_clean n.kv request.key request.version in
        let head = roles.head request.key r.ring_size in
        let acked = if nat_beq r.node_index head then r else send_ack request r.prev_stub r in
        if nat_beq r.ring_size 0 then record { kv = kv; repl = r } else record {
          kv = kv;
          repl = record acked { pending_acks = erase_pending_ack request_id acked.pending_acks };
        }
  ]

-- The record to answer with, once the committed version is known.
unfoldable pub get_version : KvStore → Text → ℕ → GetResponse
get_version kv key version =
    if nat_beq version 0 then get_error not_found else elim (get_dirty_record kv key version) [
      | some r ↦ get_success r.value version
      | none ↦
          let state = get_committed_state kv key in
          elim (get kv key) [
            | none ↦ get_error version_not_found
            | some x ↦
                if leb version state.version
                then get_success x state.version
                else get_error version_not_found
          ]
    ]

-- What the tail has answered.
unfoldable pub get_answered : KvStore → Text → Option VersionQueryResponse → GetResponse
get_answered kv key none = get_error tail_unavailable
get_answered kv key (some answer) = elim answer.error [
  | no_error ↦ get_version kv key answer.committed_version
  | _ ↦ get_error answer.error
]

module _ (roles : Roles) (query : Stub → VersionQueryRequest → Option VersionQueryResponse) where
  -- With dirty versions of the key, at another node than the tail or at the tail itself.
  unfoldable pub get_dirty : Text → Node → GetResponse
  get_dirty key n =
      let r = n.repl in
      let tail = roles.tail key r.ring_size in
      if nat_beq r.node_index tail
      then get_version n.kv key (get_committed_state n.kv key).version
      else elim (get_elem? r.membership tail) [
        | none ↦ get_error tail_unavailable
        | some node ↦
            get_answered n.kv key
              (query (make_replication_stub node) (record { key = key; epoch = r.epoch }))
      ]

  unfoldable pub handle_get : Text → Node → GetResponse
  handle_get key n =
      if nat_beq n.repl.ring_size 0
      then get_error no_membership
      else if has_dirty n.kv key
      then get_dirty key n
      else elim (get n.kv key) [
        | none ↦ get_error not_found
        | some x ↦ get_success x (get_committed_state n.kv key).version
      ]
