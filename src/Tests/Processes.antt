-- ===== src/Tests/Processes.antt =====
-- Runs of a server process of src/server/server.cpp.
use crown_kv.Common.{
  ℕ, ◌≤◌, ◌≡◌, ◌≢◌, inl, refl, arith, false, none, some, List, [], ◌∷◌, text_eq, nat_eq, bytes,
  find,
}
use crown_kv.Messages.{
  PutRequest, ReconfigureRequest, no_error, MembershipResponse, service_unavailable,
}
use crown_kv.KvStore.Views.{committed, dirty_record, promote}
use crown_kv.KvStore.Snapshot.{outdate}
use crown_kv.Replication.{Replication, set_epoch}
use crown_kv.Membership.{update_membership, index_of}
use crown_kv.Apportioned.{put_error}
use crown_kv.Server.{normal, Process, starting, install, refresh_membership_async}
use crown_kv.Server.Gateway.{Query, forward_put, get, version_query, state_dump, put, dump}
use crown_kv.Server.Reconfigure.{reconfigure, Peers, sync_from_peer}
use crown_kv.Server.Next.{AreInstalled}
use crown_kv.Server.Epochs.{
  Event, put_event, heartbeat_event, retry_event, ack_event, run, run-epoch,
}
use crown_kv.Server.Starting.{heartbeats, refresh_membership_async-strands}
use crown_kv.Server.Stale.{run-refuses}
use crown_kv.Server.Transfer.{sync_from_peer-merges}
use crown_kv.Tests.Data.{key, store, empty_store, request, first, second, members}

abbrev idle_object : Replication
idle_object = record {
  pending_acks = [];
  epoch = 0;
  forward_queue = [];
  taken = [];
  forward_shutdown = false;
  calls = [];
  node_index = 0;
  ring_size = 0;
  membership = [];
  prev_stub = none;
  next_stub = none;
}

-- Node n2 as it starts.
abbrev pub new_process : Process
new_process = record {
  server = record {
    node_id = bytes "n2";
    epoch = 0;
    mode = bytes "CHAIN";
    membership = [];
    state = starting;
  };
  kv = empty_store;
  chain = idle_object;
  craq = idle_object;
  crown = idle_object;
}

abbrev pub membership_3 : MembershipResponse
membership_3 = record { epoch = 3; membership = members; mode = bytes "CRAQ" }

new_process-AreInstalled : AreInstalled new_process
unfolding install update_membership set_epoch index_of
new_process-AreInstalled = (refl, refl, refl)

-- A heartbeat brings a membership, then a write comes, its ack, and a round of the retry loop.
abbrev events : List Event
events =
    heartbeat_event 0 (some 3) (some membership_3)
    ∷ put_event 10 none (request 2)
    ∷ ack_event 20 none (record { request_id = 7; key = key; version = 2; epoch = 3 })
    ∷ retry_event 250
    ∷ []

run-epoch_example :
    let p' = run events new_process in
    (0 ≤ p'.server.epoch) × (p'.server.node_id ≡ bytes "n2") × AreInstalled p'
run-epoch_example = run-epoch events new_process new_process-AreInstalled

refresh_membership_async-strands_example :
    let p' =
      heartbeats 0
        ((some 3, some membership_3) ∷ (none, none) ∷ [])
        (refresh_membership_async 0 (some membership_3) new_process) in
    (p'.server.epoch ≡ 3) × (put 1 none (request 0) p' ≡ (p', put_error service_unavailable))
refresh_membership_async-strands_example =
    refresh_membership_async-strands 0 1 membership_3 new_process
      ((some 3, some membership_3) ∷ (none, none) ∷ []) none (request 0) refl (omega arith)
      (omega arith, (tt, tt))

-- Every member dumps `store`.
abbrev pub peers : Peers
peers stub epoch = some (dump store 3)

-- n1 passes over itself and asks n2.
sync_from_peer-merges_example :
    let kv' = sync_from_peer peers members (bytes "n1") 3 empty_store in
    (committed kv' key ≡ promote (committed store key) (committed empty_store key))
    × ((v : ℕ)
        → dirty_record kv' key v ≡ outdate (committed store key) v (dirty_record empty_store key v))
unfolding find
sync_from_peer-merges_example =
    sync_from_peer-merges peers (first ∷ []) _ second (bytes "n1") 3 3 empty_store store
      (inl refl, tt) (λ e. ground (arith, e)) refl (refl, tt) key

-- A process that serves CRAQ at epoch 3, and requests of epoch 2.
abbrev pub serving_process : Process
serving_process = record new_process {
  server = record new_process.server { epoch = 3; mode = bytes "CRAQ"; state = normal };
}

abbrev old_request : PutRequest
old_request = record (request 0) { epoch = 2 }

abbrev old_reconfiguration : ReconfigureRequest
old_reconfiguration = record {
  epoch = 2;
  membership = members;
  mode = bytes "CRAQ";
  removed_node_id = [];
  added_node_id = [];
}

abbrev silent : Query
silent stub q = none

-- The process takes over epoch 4 from the metadata store and makes a round of its retry loop.
abbrev between : List Event
between =
    heartbeat_event 5 (some 4)
      (some (record { epoch = 4; membership = members; mode = bytes "CROWN" }))
    ∷ retry_event 6
    ∷ []

abbrev late_process : Process
late_process = run between serving_process

run-refuses_example :
    let p = late_process in
    let (after_put, put_response) = put 0 none old_request p in
    let (after_forward, forward_response) = forward_put 0 none old_request p in
    let (after_get, get_response) = get 0 none silent key 2 p in
    let (after_query, query_response) = version_query 0 none (record { key = key; epoch = 2 }) p in
    ((after_put ≡ p) × (put_response.success ≡ false))
    × ((after_forward ≡ p) × (forward_response.success ≡ false))
    × ((after_get ≡ p) × (get_response.error ≢ no_error))
    × ((after_query ≡ p) × (query_response.error ≢ no_error))
    × (state_dump 0 none 2 p ≡ (p, none))
    × (reconfigure 0 peers old_reconfiguration p ≡ (p, false))
run-refuses_example =
    run-refuses between serving_process 0 2 none silent peers key old_request old_reconfiguration
      (omega arith) refl refl
