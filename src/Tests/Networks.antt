-- ===== src/Tests/Networks.antt =====
-- A cluster of three nodes with src/replication/craq/craq_replication.cpp: a client's write goes from
-- the head by the middle node to the tail, and no ack has come back yet.
use mathlib.Core.List.{Memᴰ}
use crown_kv.Common.{
  ◌⊎◌, true, get_elem?, ℕ, zero, suc, refl, ◌<◌, ◌≤◌, ◌≡◌, inl, inr, arith, some, none, [], ◌∷◌,
  bytes, Text, text_eq, text_beq, nat_eq, false, ◌≢◌, ◌==◌, text_beq_iff, find, assign, erase_upto,
  Option,
}
use crown_kv.Messages.{NodeInfo, wrong_node, VersionQueryRequest, VersionQueryResponse}
use crown_kv.Address.{address_from_node, to_string, digits, parse_host_port, rfind, stoi}
use crown_kv.Ring.{prev_index, next_index}
use crown_kv.KvStore.{
  version_of, Record, put, get_latest_version, newest, mark_clean, add_dirty, commit,
}
use crown_kv.KvStore.Views.{committed, committed_version, dirty_record}
use crown_kv.Replication.{
  Stub, make_replication_stub, Node, forward_put, enqueue_forward_task, wait_for_room,
  forward_worker_take, forward_worker_send, pick, send_ack,
}
use crown_kv.Membership.{update_membership, index_of, build_stub}
use crown_kv.Apportioned.{
  handle_put, put_at_head, put_versioned, is_last, acknowledge, get_committed_state, handle_get,
  get_success, get_answered, handle_version_query,
}
use crown_kv.Apportioned.Gets.{answer}
use crown_kv.Network.Stores.{Holds}
use crown_kv.Network.Agreement.{records_agree, committed_version-tail}
use crown_kv.Network.Delays.{get_answered-IsBetween}
use crown_kv.Network.Safety.{IsIssued}
use crown_kv.Network.Later.{stay, next, handle_get-IsMonotone}
use crown_kv.Network.Redirects.{handle_put-redirects}
use crown_kv.Network.Reads.{handle_get-IsStrong, handle_get-after_ack}
use crown_kv.Craq
use crown_kv.Network.{
  System, IsFresh, Reach, start, later, write, pass, take, work, update, set_node, write_of,
}
use crown_kv.Network.Rings.{IsRing, Craq-IsRing}
use crown_kv.Network.Handlers.{AreApart, AreDistinct-AreApart}
use crown_kv.Tests.Data.{key, request, members, first, second, third, empty_store}

-- The objects as `update_membership` leaves them.
abbrev fresh : Text → Node
fresh id = record {
  kv = empty_store;
  repl = update_membership members id (record {
    pending_acks = [];
    epoch = 3;
    forward_queue = [];
    taken = [];
    forward_shutdown = false;
    calls = [];
    node_index = 0;
    ring_size = 0;
    membership = [];
    prev_stub = none;
    next_stub = none;
  });
}

abbrev nodes : ℕ → Node
nodes zero = fresh (bytes "n1")
nodes (suc zero) = fresh (bytes "n2")
nodes (suc (suc i)) = fresh (bytes "n3")

nodes-IsFresh : (i : ℕ) → i < 3 → IsFresh members i (nodes i)
unfolding update_membership index_of build_stub prev_index next_index text_beq
nodes-IsFresh zero l = record {
  placed = record {
    index = refl;
    size = refl;
    all = refl;
    next = (make_replication_stub second, refl, (second, refl, refl));
  };
  store = refl;
  calls = refl;
  queue = refl;
  taken = refl;
  pending = refl;
}
nodes-IsFresh (suc zero) l = record {
  placed = record {
    index = refl;
    size = refl;
    all = refl;
    next = (make_replication_stub third, refl, (third, refl, refl));
  };
  store = refl;
  calls = refl;
  queue = refl;
  taken = refl;
  pending = refl;
}
nodes-IsFresh (suc (suc zero)) l = record {
  placed = record {
    index = refl;
    size = refl;
    all = refl;
    next = (make_replication_stub first, refl, (first, refl, refl));
  };
  store = refl;
  calls = refl;
  queue = refl;
  taken = refl;
  pending = refl;
}
nodes-IsFresh (suc (suc (suc i))) l = absurd (omega arith)

not_equal : (a b : Text) → (a == b) ≡ false → a ≢ b
not_equal a b h e = ground (arith, text_beq_iff a b)

pub members-AreApart : AreApart members
unfolding make_replication_stub address_from_node to_string digits text_beq
members-AreApart =
    AreDistinct-AreApart members
      ((not_equal _ _ refl, (not_equal _ _ refl, tt)), ((not_equal _ _ refl, tt), (tt, tt)))

abbrev pub ring : IsRing Craq.roles 3
ring = Craq-IsRing 3 (omega arith)

abbrev begun : System
begun = record { nodes = nodes; issued = [] }

-- The head has the write.
abbrev written : System
written = record {
  nodes = update nodes 0 (handle_put Craq.roles 0 (request 0) (nodes 0)).0;
  issued =
      write_of
        (record (request 0) { version = (handle_put Craq.roles 0 (request 0) (nodes 0)).1.version })
      ∷ [];
}

abbrev take_at : ℕ → System → System
take_at i s = set_node s i (record (s.nodes i) { repl = forward_worker_take (s.nodes i).repl })

abbrev work_at : ℕ → System → System
work_at i s = set_node s i (record (s.nodes i) { repl = forward_worker_send 0 (s.nodes i).repl })

abbrev pass_to : ℕ → System → System
pass_to i s = set_node s i (handle_put Craq.roles 0 (request 1) (s.nodes i)).0

abbrev passed : System
passed = pass_to 1 (work_at 0 (take_at 0 written))

-- The tail has it too.
abbrev pub done : System
done = pass_to 2 (work_at 1 (take_at 1 passed))

written-Reach : Reach Craq.roles members written
unfolding get_latest_version newest find text_beq
written-Reach =
    later (start nodes nodes-IsFresh)
      (write 0 0 (request 0) (omega arith) refl refl tt (omega arith))

passed-Reach : Reach Craq.roles members passed
unfolding forward_worker_take forward_worker_send pick handle_put put_at_head forward_put
    enqueue_forward_task wait_for_room put get_latest_version newest find text_beq is_last
    update_membership index_of build_stub next_index make_replication_stub address_from_node
    to_string digits
passed-Reach = later (later (later written-Reach (take 0 (omega arith))) (work 0 0 (omega arith))) (
    pass 0 1 0 (bytes "b:5002") (request 1) (omega arith) (omega arith) (Memᴰ.head refl)
      (second, refl, refl))

pub done-Reach : Reach Craq.roles members done
unfolding forward_worker_take forward_worker_send pick handle_put put_at_head put_versioned
    get_committed_state forward_put enqueue_forward_task wait_for_room put get_latest_version newest
    find text_beq is_last update_membership index_of build_stub next_index make_replication_stub
    address_from_node to_string digits
done-Reach = later (later (later passed-Reach (take 1 (omega arith))) (work 1 0 (omega arith))) (
    pass 1 2 0 (bytes "c:5003") (request 1) (omega arith) (omega arith) (Memᴰ.head refl)
      (third, refl, refl))

-- Every node asks the tail.
ask : Stub → VersionQueryRequest → Option VersionQueryResponse
ask stub request = some (Craq.handle_version_query request (done.nodes 2))

-- The head has the value as a dirty record and the tail has committed it.
records_agree_example : bytes "c" ≡ bytes "c"
unfolding dirty_record committed handle_put put_at_head put_versioned get_committed_state put
    add_dirty mark_clean commit assign erase_upto get_latest_version newest find text_beq is_last
    update_membership index_of build_stub next_index
records_agree_example =
    records_agree Craq.roles members ring members-AreApart done done-Reach 0 2 key 1 (bytes "c")
      (bytes "c") (omega arith) (omega arith)
      (record { verison = 1; value = bytes "c" }, refl, inr refl)
      (record { verison = 1; value = bytes "c" }, refl, inl (refl, refl))

committed_version-tail_example :
    (committed_version (done.nodes 0).kv key ≤ 1) × Holds (done.nodes 0).kv key 1
unfolding committed_version committed handle_put put_at_head put_versioned get_committed_state put
    add_dirty mark_clean commit assign erase_upto get_latest_version newest find text_beq is_last
    update_membership index_of build_stub next_index
committed_version-tail_example =
    committed_version-tail Craq.roles members ring members-AreApart done done-Reach 0 key
      (omega arith)

read_head : handle_get Craq.roles ask key (done.nodes 0) ≡ get_success (bytes "c") 1
unfolding ask Craq.handle_version_query committed handle_put put_at_head put_versioned
    get_committed_state put add_dirty mark_clean commit assign erase_upto get_latest_version newest
    find text_beq is_last update_membership index_of build_stub next_index
read_head =
    handle_get-IsStrong Craq.roles members ring members-AreApart done done-Reach key ask
      (λ stub epoch at. refl) 0 (omega arith)

-- The head's record is dirty; it asks.
handle_get-IsStrong_example :
    handle_get Craq.roles ask key (done.nodes 0) ≡ answer (committed (done.nodes 2).kv key)
unfolding ask Craq.handle_version_query
handle_get-IsStrong_example =
    handle_get-IsStrong Craq.roles members ring members-AreApart done done-Reach key ask
      (λ stub epoch at. refl) 0 (omega arith)

-- The tail's worker has a round with nothing to send.
abbrev rested : System
rested = work_at 2 done

ask_rested : Stub → VersionQueryRequest → Option VersionQueryResponse
ask_rested stub request = some (Craq.handle_version_query request (rested.nodes 2))

-- The head is read first, then the middle node.
handle_get-IsMonotone_example :
    (r : Record) × (handle_get Craq.roles ask_rested key (rested.nodes 1)
      ≡ get_success r.value r.verison)
    × (1 ≤ r.verison)
    × (1 ≡ r.verison → bytes "c" ≡ r.value)
unfolding ask ask_rested Craq.handle_version_query
handle_get-IsMonotone_example =
    handle_get-IsMonotone Craq.roles members ring members-AreApart key done-Reach
      (next stay (work 2 0 (omega arith))) ask ask_rested (λ stub epoch at. refl)
      (λ stub epoch at. refl) 0 1 (omega arith) (omega arith) (bytes "c") 1 read_head

-- The head gets the answer to its query only now.
get_answered-IsBetween_example :
    (o : Option Record) × (get_answered
        (rested.nodes 0).kv
        key
        (some (handle_version_query Craq.roles (record { key = key; epoch = 3 }) (done.nodes 2)))
      ≡ answer o)
    × (committed_version (done.nodes 2).kv key ≤ version_of o)
    × (version_of o ≤ committed_version (rested.nodes 2).kv key)
    × ((r : Record) → o ≡ some r → IsIssued rested.issued key r.verison r.value)
get_answered-IsBetween_example =
    get_answered-IsBetween Craq.roles members ring members-AreApart key done-Reach
      (next stay (work 2 0 (omega arith))) 0 3 (omega arith)

handle_get-after_ack_example :
    (r : Record) × (handle_get Craq.roles ask key (done.nodes 0) ≡ get_success r.value r.verison)
    × (1 ≤ r.verison)
unfolding ask Craq.handle_version_query acknowledge send_ack parse_host_port handle_put put_at_head
    put_versioned get_committed_state put add_dirty mark_clean commit assign erase_upto
    get_latest_version newest find text_beq is_last update_membership index_of build_stub next_index
    prev_index rfind stoi
handle_get-after_ack_example =
    handle_get-after_ack Craq.roles members ring members-AreApart done done-Reach key ask
      (λ stub epoch at. refl) 0 2 (bytes "d:9") 1 (omega arith) (omega arith)
      (Memᴰ.tail (Memᴰ.head refl))

-- The middle node gets a client's write, and then the head.
handle_put-redirects_example :
    let (n', response) = handle_put Craq.roles 0 (request 0) (nodes 1) in
    let i : ℕ = 1 in
    ((i ≡ 0) × (response.success ≡ true))
    ⊎ ((i ≢ 0)
        × (n' ≡ nodes 1)
        × (response.success ≡ false)
        × ((node : NodeInfo) × (get_elem? members 0 ≡ some node)
            × (response.error ≡ wrong_node (some (address_from_node node))))
        × ((handle_put Craq.roles 0 (request 0) (nodes 0)).1.success ≡ true))
handle_put-redirects_example =
    handle_put-redirects Craq.roles members ring (request 0) refl 1 0 0 (nodes 1) (nodes 0)
      (nodes-IsFresh 1 (omega arith)).placed (nodes-IsFresh 0 (omega arith)).placed
