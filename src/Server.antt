-- ===== src/Server.antt =====
-- The server process of src/server/server.cpp: its state, the installation of memberships, and the
-- two background loops, a round each. What the metadata store answers is an argument: none is a
-- status other than OK. A round that takes a lock in the middle is one step here.
pub mod Gateway
pub mod Reconfigure
pub mod Views
pub mod Next
pub mod Handlers
pub mod Epochs
pub mod Transfer
pub mod Starting
pub mod Stale
pub mod Main
use crown_kv.Common.{
  ℕ, Bool, true, ltb, leb, if◌then◌else◌, Option, none, some, List, Text, text_eq, ◌==◌, bytes,
}
use crown_kv.Messages.{NodeInfo, MembershipResponse}
use crown_kv.KvStore.{KvStore}
use crown_kv.Replication.{Replication, snapshot_pending_requests, set_epoch}
use crown_kv.Replication.Retries.{forward_all, retry_round}
use crown_kv.Membership.{update_membership, get_next_stub}

pub data NodeState : Type 0 where
  starting normal : NodeState

pub record ServerState : Type 0 where
  pub node_id : Text
  pub epoch : ℕ
  pub mode : Text
  pub membership : List NodeInfo
  pub state : NodeState

-- The process: the state, the static store, and an object for each mode.
pub record Process : Type 0 where
  pub server : ServerState
  pub kv : KvStore
  pub chain : Replication
  pub craq : Replication
  pub crown : Replication

pub data Mode : Type 0 where
  chain_mode craq_mode crown_mode : Mode

-- `SelectReplicationForMode`, and `SelectReplication` of the gateway service.
unfoldable pub select_mode : Text → Option Mode
select_mode mode =
    if mode == bytes "CHAIN"
    then some chain_mode
    else if mode == bytes "CRAQ"
    then some craq_mode
    else if mode == bytes "CROWN"
    then some crown_mode
    else none

unfoldable pub selected : Mode → Process → Replication
selected chain_mode p = p.chain
selected craq_mode p = p.craq
selected crown_mode p = p.crown

unfoldable pub with_selected : Mode → Replication → Process → Process
with_selected chain_mode r p = record p { chain = r }
with_selected craq_mode r p = record p { craq = r }
with_selected crown_mode r p = record p { crown = r }

unfoldable pub install : List NodeInfo → Text → ℕ → Replication → Replication
install membership node_id epoch r = set_epoch epoch (update_membership membership node_id r)

-- The pending requests go out again through the new chain.
unfoldable pub reforward : ℕ → Replication → Replication
reforward now r = elim (get_next_stub r) [
  | none ↦ r
  | some stub ↦ forward_all now (snapshot_pending_requests r.pending_acks) (some stub) r
]

unfoldable pub reforward_mode : ℕ → Option Mode → Process → Process
reforward_mode now none p = p
reforward_mode now (some mode) p = with_selected mode (reforward now (selected mode p)) p

unfoldable pub apply_membership : ℕ → List NodeInfo → Text → Text → ℕ → Bool → Process → Process
apply_membership now membership node_id mode epoch epoch_advanced p =
    let p' : Process = record p {
      chain = install membership node_id epoch p.chain;
      craq = install membership node_id epoch p.craq;
      crown = install membership node_id epoch p.crown;
    } in
    if epoch_advanced then reforward_mode now (select_mode mode) p' else p'

-- The gateway's fallback when a request has a newer epoch.
unfoldable pub refresh_membership_async : ℕ → Option MembershipResponse → Process → Process
refresh_membership_async now none p = p
refresh_membership_async now (some m) p =
    if leb m.epoch p.server.epoch
    then p
    else apply_membership now m.membership p.server.node_id m.mode m.epoch true (record p {
      server = record p.server { epoch = m.epoch; mode = m.mode; membership = m.membership };
    })

-- At the start, and after a heartbeat with a newer epoch. It is the one refresh that ends STARTING.
unfoldable pub refresh_membership : ℕ → Option MembershipResponse → Process → Process
refresh_membership now none p = p
refresh_membership now (some m) p =
    if ltb m.epoch p.server.epoch
    then p
    else apply_membership now m.membership p.server.node_id m.mode m.epoch
        (ltb p.server.epoch m.epoch)
        (record p {
          server = record p.server {
            epoch = m.epoch;
            mode = m.mode;
            membership = m.membership;
            state = normal;
          };
        })

-- A round of `HeartbeatLoop`: the master's epoch, if the heartbeat came through, and what the
-- metadata store then answers.
unfoldable pub heartbeat_round : ℕ → Option ℕ → Option MembershipResponse → Process → Process
heartbeat_round now none answer p = p
heartbeat_round now (some master_epoch) answer p =
    if ltb p.server.epoch master_epoch then refresh_membership now answer p else p

-- A round of `RetryLoop`.
unfoldable pub retry_loop_round : ℕ → Process → Process
retry_loop_round now p = elim (select_mode p.server.mode) [
  | none ↦ p
  | some mode ↦ with_selected mode (retry_round now (selected mode p)).0 p
]
