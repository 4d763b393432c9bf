-- ===== src/Network.antt =====
-- A cluster of nodes whose messages are under way: many writes at once, in any order. The handlers
-- are those of src/replication/craq/craq_replication.cpp and
-- src/replication/crown/crown_replication.cpp, the rounds those of the forward workers
-- (src/replication/common/replication_common.cpp) and of `RetryLoop` (src/server/server.cpp). The
-- membership stays as it is.
pub mod Rings
pub mod Stores
pub mod Safety
pub mod Traffic
pub mod Moves
pub mod Issues
pub mod Methods
pub mod Invariant
pub mod Handlers
pub mod Acks
pub mod Puts
pub mod Arrivals
pub mod Reached
pub mod Agreement
pub mod Behind
pub mod Reads
pub mod Redirects
pub mod Later
pub mod Delays
use mathlib.Core.List.{Memᴰ}
use crown_kv.Common.{
  ℕ, ◌+◌, ◌≤◌, ◌<◌, ◌≡◌, ◌≢◌, nat_beq, if◌then◌else◌, none, some, List, [], ◌∷◌, Text, text_eq,
  find, length, get_elem?, All,
}
use crown_kv.Messages.{PutRequest, NodeInfo, WriteAck}
use crown_kv.Ring.{next_index}
use crown_kv.KvStore.{KvStore}
use crown_kv.Replication.{
  Stub, make_replication_stub, put_call, write_ack_call, Replication, Node, forward_worker_take,
  forward_worker_send,
}
use crown_kv.Replication.Retries.{retry_round}
use crown_kv.Apportioned.{Roles, handle_put, handle_ack}
use crown_kv.Apportioned.Puts.{HasRoom, write_version}

-- A write of a client with the version that its head has given it.
pub record Write : Type 0 where
  pub request_id : ℕ
  pub key : Text
  pub version : ℕ
  pub value : Text

abbrev pub write_of : PutRequest → Write
write_of q = record { request_id = q.request_id; key = q.key; version = q.version; value = q.value }

-- The nodes by their places, and all writes that a head has accepted, the newest first.
pub record System : Type 0 where
  pub nodes : ℕ → Node
  pub issued : List Write

abbrev pub update {ℓ} : {A : Type ℓ} → (ℕ → A) → ℕ → A → ℕ → A
update f i a j = if nat_beq i j then a else f j

abbrev pub set_node : System → ℕ → Node → System
set_node s i n = record s { nodes = update s.nodes i n }

-- The address of the member at a place.
abbrev pub IsAt : List NodeInfo → ℕ → Stub → Type 0
IsAt members i stub =
    (node : NodeInfo) × (get_elem? members i ≡ some node) × (make_replication_stub node ≡ stub)

-- What `update_membership` gives the member at a place, on a ring of two or more.
pub record IsPlaced (members : List NodeInfo) (i : ℕ) (r : Replication) : Type 0 where
  pub index : r.node_index ≡ i
  pub size : r.ring_size ≡ length members
  pub all : r.membership ≡ members
  pub next :
      (stub : Stub) × (r.next_stub ≡ some stub) × IsAt members (next_index (length members) i) stub

-- A node that has just started.
pub record IsFresh (members : List NodeInfo) (i : ℕ) (n : Node) : Type 0 where
  pub placed : IsPlaced members i n.repl
  pub store : n.kv ≡ record { store = []; dirty_store = [] }
  pub calls : n.repl.calls ≡ []
  pub queue : n.repl.forward_queue ≡ []
  pub taken : n.repl.taken ≡ []
  pub pending : n.repl.pending_acks ≡ []

module _ (roles : Roles) (members : List NodeInfo) where
  -- What one node does next: a message that some node has sent may arrive at any later time, in any
  -- order, more than once, or never.
  pub data Step (s : System) : System → Type 0 where
    -- A client's write, under an id of its own, at the head of its key.
    write :
        (i now : ℕ) (q : PutRequest)
        → i < length members
        → q.version ≡ 0
        → i ≡ roles.head q.key (length members)
        → All (λ (w : Write). w.request_id ≢ q.request_id) s.issued
        → HasRoom q (s.nodes i)
        → Step s (record {
          nodes = update s.nodes i (handle_put roles now q (s.nodes i)).0;
          issued =
              write_of (record q { version = (handle_put roles now q (s.nodes i)).1.version })
              ∷ s.issued;
        })
    -- A put of another node arrives.
    pass :
        (i j now : ℕ) (stub : Stub) (q : PutRequest)
        → i < length members
        → j < length members
        → Memᴰ (put_call stub q) (s.nodes i).repl.calls
        → IsAt members j stub
        → Step s (set_node s j (handle_put roles now q (s.nodes j)).0)
    -- An ack of another node arrives.
    ack :
        (i j : ℕ) (stub : Stub) (a : WriteAck)
        → i < length members
        → j < length members
        → Memᴰ (write_ack_call stub a) (s.nodes i).repl.calls
        → Step s (set_node s j (handle_ack roles a.request_id (s.nodes j)))
    -- A forward worker takes the task in front.
    take :
        (i : ℕ)
        → i < length members
        → Step s (set_node s i (record (s.nodes i) { repl = forward_worker_take (s.nodes i).repl }))
    -- A forward worker sends a task that it has taken, before or after other workers send theirs.
    work :
        (i k : ℕ)
        → i < length members
        → Step s
            (set_node s i (record (s.nodes i) { repl = forward_worker_send k (s.nodes i).repl }))
    -- The retry loop makes a round.
    retry :
        (i now : ℕ)
        → i < length members
        → Step s (set_node s i (record (s.nodes i) { repl = (retry_round now (s.nodes i).repl).0 }))

  pub data Reach : System → Type 0 where
    start :
        (nodes : ℕ → Node)
        → ((i : ℕ) → i < length members → IsFresh members i (nodes i))
        → Reach (record { nodes = nodes; issued = [] })
    later : {s t : System} → Reach s → Step s t → Reach t
