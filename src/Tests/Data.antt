-- ===== src/Tests/Data.antt =====
-- The data of the tests: a store with a clean and a dirty version, three nodes, and their objects.
use crown_kv.Common.{
  ℕ, arith, false, Option, some, List, [], ◌∷◌, Text, text_eq, nat_eq, bytes, pos, find,
}
use crown_kv.Messages.{PutRequest, NodeInfo}
use crown_kv.KvStore.{Record, KvStore}
use crown_kv.KvStore.Views.{committed, committed_version, dirty_record}
use crown_kv.KvStore.Invariant.{IsConsistent}
use crown_kv.Replication.{PendingEntry, Replication, Node, Stub}

abbrev pub key : Text
key = bytes "k"

abbrev pub clean_record : Record
clean_record = record { verison = 1; value = bytes "a" }

abbrev pub dirty : Record
dirty = record { verison = 2; value = bytes "b" }

-- "k" is committed at version 1, and dirty at version 2.
abbrev pub store : KvStore
store = record { store = (key, clean_record) ∷ []; dirty_store = (key, (2, dirty) ∷ []) ∷ [] }

abbrev pub empty_store : KvStore
empty_store = record { store = []; dirty_store = [] }

pub store_IsConsistent : IsConsistent store
unfolding dirty_record committed_version committed find
store_IsConsistent = record { tagged = λ k v r e. ground arith; newer = λ k v r e. ground arith }

abbrev pub node : Text → Text → ℕ → NodeInfo
node id host port = record { node_id = id; address = host; port = pos port }

abbrev pub first : NodeInfo
first = node (bytes "n1") (bytes "a") 5001

abbrev pub second : NodeInfo
second = node (bytes "n2") (bytes "b") 5002

abbrev pub third : NodeInfo
third = node (bytes "n3") (bytes "c") 5003

abbrev pub members : List NodeInfo
members = first ∷ second ∷ third ∷ []

-- A write of "k", with a version or without (0).
abbrev pub request : ℕ → PutRequest
request version = record {
  request_id = 7;
  key = key;
  value = bytes "c";
  version = version;
  client_addr = bytes "d:9";
  epoch = 3;
}

abbrev pub entry : PendingEntry
entry = record {
  request = record (request 2) { value = bytes "b" };
  deadline = 10000;
  retry_count = 0;
}

-- An object at a place of the ring of three.
abbrev pub object : ℕ → Option Stub → Option Stub → Replication
object place prev next = record {
  pending_acks = (7, entry) ∷ [];
  epoch = 3;
  forward_queue = [];
  taken = [];
  forward_shutdown = false;
  calls = [];
  node_index = place;
  ring_size = 3;
  membership = members;
  prev_stub = prev;
  next_stub = next;
}

abbrev pub head_node : Node
head_node = record { kv = store; repl = object 0 (some (bytes "c:5003")) (some (bytes "b:5002")) }

abbrev pub middle_node : Node
middle_node = record { kv = store; repl = object 1 (some (bytes "a:5001")) (some (bytes "c:5003")) }

abbrev pub tail_node : Node
tail_node = record { kv = store; repl = object 2 (some (bytes "b:5002")) (some (bytes "a:5001")) }
