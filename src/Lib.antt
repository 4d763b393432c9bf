-- ===== src/Lib.antt =====
-- crown-kv: a key-value store that a ring of nodes replicates, by chain replication (CHAIN), by
-- chain replication with apportioned queries (CRAQ) or by CRAQ with a head and a tail of its own
-- for each key (CROWN). A metadata store keeps the cluster's membership, and clients write and
-- read. This library models the three programs in src/: the node process, the metadata store and
-- the client.
--
-- The parts, and the files that model them:
-- - KvStore: src/kv_store/kv_store.h and kv_store.cpp. `store_` and `dirty_store_` are the two
--   maps of the record KvStore, lists of entries with their keys. put, get, get_latest_version,
--   mark_clean, snapshot_committed and apply_committed_snapshot have their names. KvStore/History
--   has sequences of calls, KvStore/Register the specification.
-- - Ring and Address: src/replication/common/replication_common.h, the placement of keys and the
--   text of addresses; Address has `ParseMember` of src/metadata_store/metadata_store.cpp too.
-- - Messages: proto/replication.proto, and the texts of the error fields as constructors.
-- - Replication: the base class of src/replication/replication.h with
--   src/replication/common/replication_common.cpp: the pending acks, the forward queue, the acks.
--   An RPC that is handed to gRPC is an entry of the log `calls`; a stub is the address that it
--   is made for. Replication/Queue/Workers has sequences of what the forward workers and their
--   callers do, Replication/Caches the caches that make stubs.
-- - Membership: update_membership, BuildStub and get_next_stub, which the three replications
--   repeat.
-- - Apportioned: the handlers that src/replication/craq/craq_replication.cpp and
--   src/replication/crown/crown_replication.cpp have in common, with the place of the head and of
--   the tail as the parameter Roles; Craq and Crown instantiate it. Apportioned/Passes has a
--   write along a chain of nodes.
-- - Network: a cluster of the nodes of Apportioned with many writes under way. Step is one step of
--   one node, and any message that a node has sent may arrive at any later time, again, or never;
--   a message that the gateway refuses is one that never arrives. Reach is what such steps lead to
--   from nodes that have just started. Network/Stores, Safety, Moves and Issues are about the
--   stores, Traffic and Methods about messages, Acks, Puts and Arrivals about the steps, Reached,
--   Agreement, Reads, Later, Delays and Redirects about what follows. Network/Rings says that
--   CRAQ and CROWN have the roles that it asks for.
-- - Chain: src/replication/chain/chain_replication.cpp.
-- - Server: src/server/server.cpp. Server has ApplyMembership, the two refreshes and the rounds
--   of HeartbeatLoop and RetryLoop, Server/Gateway the handlers of ReplicationGatewayService,
--   Server/Reconfigure Reconfigure and SyncFromPeer; Server/Epochs has sequences of all of these,
--   Server/Main the options and the start.
-- - Metadata: src/metadata_store/metadata_store.cpp. ClusterState and the handlers and Trigger...
--   functions have their names; each takes what one critical section sees. Metadata/Start has
--   Split and main, Metadata/History sequences of all of these, Metadata/Changes when a
--   reconfiguration is made and what it makes of the members, Metadata/Rollouts what the
--   requests of a reconfiguration do at the processes, Metadata/Failures the rounds of
--   MonitorFailures.
-- - Client: src/client/client.cpp. Client has the routes and the attempts, Client/Commits
--   CommitAck and RecordAcceptedWrite, Client/Commands the put, get and use of RunRepl and the
--   sender of main, Client/Bench the calls of bench, Client/Waiting its wait for the acks,
--   Client/Repl the whole of RunRepl, Client/Options those of main, Client/Words and
--   Client/Workload the text and the dataset. Client/Cluster and Client/Answers run the client
--   against the processes of Server that have joined a cluster of Metadata.
-- - Tests: concrete runs.
--
-- How they interact: a handler of Server.Gateway checks the epoch, perhaps installs a newer
-- membership in the three replication objects, and passes the request to the object of the
-- process's mode. That reads and changes the store, the pending acks, the queue and the log of
-- calls. The metadata store sends Reconfigure to the members after each change; a process that
-- misses it finds the newer epoch in the answer to its heartbeat and fetches the membership. A
-- client fetches the membership too, chooses the node by its mode and the key, and fetches again
-- when a node answers STALE_EPOCH or WRONG_NODE.
--
-- Bounds: versions are uint64_t and a version that the store assigns wraps at 2 ^ 64, as does the
-- hash; ring sizes and indices are int, and the results on the ring say which sizes they need.
-- The forward queue holds 100000 tasks; the wait at a full queue ends when workers have taken enough
-- tasks. A worker takes a task under the lock and sends it later, so tasks are taken in the queue's
-- order and sent in any; how many a model's workers hold at once is not bounded, while the program
-- has 16 of them. `digits` runs on fuel, n + 1 rounds for n, and n has at most as many digits. The
-- client's loops of 3 attempts and 10 rounds recurse on the number that is left, its wait for acks
-- on a list of ticks, of which twelve for each missing commit and twelve more are enough. All other
-- functions recurse on a list. The epoch of the metadata store and the counters of the client are
-- uint64_t with their wrap.
--
-- Assumptions: a method that holds its locks from beginning to end is one step. So is a handler,
-- which in the program releases the lock of the server's state before it installs a membership
-- and reads the ring under a lock of its own; handle_get also takes the value and its version from
-- the store under two locks. The answers of other nodes and of the metadata store, and the clock, are arguments; none is an answer with a status other than OK. A container
-- is an association list in iteration order.
--
-- Not modelled: what the client prints while a command runs, and the gRPC calls and servers around
-- the functions that are modelled; the pump that frees the objects of finished ack RPCs, logging,
-- the start and the end of threads, the generated code. Latencies are kept as pairs of times, since the sum of them is a
-- floating-point number.
pub mod Common
pub mod Messages
pub mod Address
pub mod KvStore
pub mod Ring
pub mod Replication
pub mod Membership
pub mod Apportioned
pub mod Craq
pub mod Crown
pub mod Network
pub mod Chain
pub mod Server
pub mod Metadata
pub mod Client
pub mod Tests
