-- ===== src/Replication.antt =====
-- The base class of src/replication/replication.h with the methods of
-- src/replication/common/replication_common.cpp: pending acks, the forward queue and the acks.
-- A stub is the address that it is made for; `calls` logs the RPCs that were handed to gRPC, in
-- order, and `taken` the tasks that forward workers have popped and not sent yet: a worker pops under
-- the lock and sends after it, so the sends come in any order. Times are milliseconds of the steady
-- clock, and an argument.
pub mod Pending
pub mod Caches
pub mod Retries
pub mod Queue
use crown_kv.Common.{
  ℕ, zero, suc, ◌>>=◌, ◌+◌, Bool, if◌then◌else◌, ltb, leb, Option, none, some, List, [], ◌∷◌, ◌++◌,
  Text, nat_eq, Map, find, assign, erase, length, map,
}
use crown_kv.Messages.{PutRequest, NodeInfo, WriteAck, CommitAck}
use crown_kv.Address.{parse_host_port, address_from_node}
use crown_kv.KvStore.{KvStore}

abbrev pub ack_timeout : ℕ
ack_timeout = 10000

abbrev pub max_forward_queue_size : ℕ
max_forward_queue_size = 100000

abbrev pub max_retry_count : ℕ
max_retry_count = 3

abbrev pub Stub : Type 0
Stub = Text

unfoldable pub make_replication_stub : NodeInfo → Stub
make_replication_stub node = address_from_node node

pub record PendingEntry : Type 0 where
  pub request : PutRequest
  pub deadline : ℕ
  pub retry_count : ℕ

pub record ForwardTask : Type 0 where
  pub request : PutRequest
  pub stub : Stub

pub data Call : Type 0 where
  put_call : Stub → PutRequest → Call
  write_ack_call : Stub → WriteAck → Call
  commit_ack_call : Text → CommitAck → Call

-- The base class's fields, with the ring that each subclass adds.
pub record Replication : Type 0 where
  pub pending_acks : Map ℕ PendingEntry
  pub epoch : ℕ
  pub forward_queue : List ForwardTask
  pub forward_shutdown : Bool
  pub taken : List ForwardTask
  pub calls : List Call
  pub node_index : ℕ
  pub ring_size : ℕ
  pub membership : List NodeInfo
  pub prev_stub : Option Stub
  pub next_stub : Option Stub

-- The entry that a request is pending under: one that is there keeps its retry count.
abbrev pub restage : ℕ → PutRequest → Option PendingEntry → PendingEntry
restage now request none = record {
  request = request;
  deadline = now + ack_timeout;
  retry_count = 0;
}
restage now request (some entry) = record entry { request = request; deadline = now + ack_timeout }

unfoldable pub add_to_pending_acks : ℕ → PutRequest → Map ℕ PendingEntry → Map ℕ PendingEntry
add_to_pending_acks now request pending =
    assign request.request_id (restage now request (find request.request_id pending)) pending

unfoldable pub erase_pending_ack : ℕ → Map ℕ PendingEntry → Map ℕ PendingEntry
erase_pending_ack request_id pending = erase request_id pending

unfoldable pub pending_count : Map ℕ PendingEntry → ℕ
pending_count pending = length pending

unfoldable pub snapshot_pending_requests : Map ℕ PendingEntry → List PutRequest
snapshot_pending_requests [] = []
snapshot_pending_requests ((id, entry) ∷ pending) =
    entry.request ∷ snapshot_pending_requests pending

abbrev pub retried : ℕ → PendingEntry → PendingEntry
retried now entry = record entry {
  deadline = now + ack_timeout;
  retry_count = entry.retry_count + 1;
}

-- The entries after the loop, and the requests that it collected.
unfoldable pub collect_expired_requests :
    ℕ → Map ℕ PendingEntry → Map ℕ PendingEntry × List PutRequest
collect_expired_requests now [] = ([], [])
collect_expired_requests now ((id, entry) ∷ pending) =
    let (pending', expired) = collect_expired_requests now pending in
    if ltb now entry.deadline
    then ((id, entry) ∷ pending', expired)
    else if leb max_retry_count entry.retry_count
    then ((id, entry) ∷ pending', expired)
    else ((id, retried now entry) ∷ pending', entry.request ∷ expired)

-- The locked half of a round of `forward_worker_loop`: a worker takes the task in front.
unfoldable pub forward_worker_take : Replication → Replication
forward_worker_take r = elim r.forward_queue [
  | [] ↦ r
  | task ∷ queue ↦ record r { forward_queue = queue; taken = r.taken ++ task ∷ [] }
]

-- The task at a place, and the others.
unfoldable pub pick : ℕ → List ForwardTask → Option (ForwardTask × List ForwardTask)
pick i [] = none
pick zero (task ∷ tasks) = some (task, tasks)
pick (suc i) (task ∷ tasks) = pick i tasks >>= λ p. some (p.0, task ∷ p.1)

-- The other half: one of the workers sends the task that it has taken.
unfoldable pub forward_worker_send : ℕ → Replication → Replication
unfolding pick
forward_worker_send i r = elim (pick i r.taken) [
  | none ↦ r
  | some (task, rest) ↦ record r {
    taken = rest;
    calls = r.calls ++ put_call task.stub task.request ∷ [];
  }
]

-- The wait for room in the queue: it ends when the workers have taken enough tasks.
unfoldable pub wait_for_room :
    List ForwardTask → List ForwardTask → List ForwardTask × List ForwardTask
wait_for_room taken [] = (taken, [])
wait_for_room taken (task ∷ queue) =
    let rest = wait_for_room (taken ++ task ∷ []) queue in
    if ltb (length (task ∷ queue)) max_forward_queue_size then (taken, task ∷ queue) else rest

unfoldable pub enqueue_forward_task : ForwardTask → Replication → Replication
unfolding wait_for_room
enqueue_forward_task task r =
    if r.forward_shutdown
    then r
    else (let (taken, queue) = wait_for_room r.taken r.forward_queue in
        record r { taken = taken; forward_queue = queue ++ task ∷ [] })

unfoldable pub forward_put : ℕ → PutRequest → Option Stub → Replication → Replication
forward_put now request none r = r
forward_put now request (some stub) r =
    let stamped = record request { epoch = r.epoch } in
    enqueue_forward_task (record { request = stamped; stub = stub })
      (record r { pending_acks = add_to_pending_acks now stamped r.pending_acks })

-- To the predecessor, or to the client if its address has the right shape.
unfoldable pub send_ack : PutRequest → Option Stub → Replication → Replication
send_ack request (some stub) r =
    let ack : WriteAck = record {
      request_id = request.request_id;
      key = request.key;
      version = request.version;
      epoch = request.epoch;
    } in
    record r { calls = r.calls ++ write_ack_call stub ack ∷ [] }
send_ack request none r = elim (parse_host_port request.client_addr) [
  | none ↦ r
  | some _ ↦ record r {
    calls =
        r.calls
        ++ commit_ack_call request.client_addr
            (record { key = request.key; version = request.version })
          ∷ [];
  }
]

unfoldable pub set_epoch : ℕ → Replication → Replication
set_epoch epoch r = record r { epoch = epoch }

-- A node as a handler sees it: the process's store, and the object of one mode.
pub record Node : Type 0 where
  pub kv : KvStore
  pub repl : Replication
