-- ===== src/Metadata.antt =====
-- The metadata store, src/metadata_store/metadata_store.cpp: the cluster's state, the service's
-- handlers, the three reconfigurations, and a round of the failure monitor. A function of the state
-- is what one critical section does. Times are milliseconds of the steady clock, and an argument.
-- Epochs are uint64_t. What `SendReconfigure` is called with is a result; its answer is only logged.
pub mod History
pub mod Ids
pub mod Changes
pub mod Rollouts
pub mod Failures
pub mod Start
pub mod Members
use crown_kv.Common.{
  ℕ, ◌+◌, ◌-◌, ◌*◌, ◌%◌, ◌^◌, Bool, true, false, not, ◌&&◌, if◌then◌else◌, ltb, Option, none, some,
  List, [], ◌∷◌, ◌++◌, Text, text_eq, ◌==◌, bytes, Map, find, assign, erase, map,
}
use crown_kv.Messages.{
  NodeInfo, ReconfigureRequest, MembershipResponse, SetModeResponse, HeartbeatRequest,
  HeartbeatResponse, no_error, unknown_mode,
}

abbrev pub heartbeat_interval : ℕ
heartbeat_interval = 400

abbrev pub heartbeat_miss_threshold : ℕ
heartbeat_miss_threshold = 10

pub record ClusterState : Type 0 where
  pub epoch : ℕ
  pub mode : Text
  pub membership : List NodeInfo
  pub last_heartbeat : Map Text ℕ
  pub reconfig_in_progress : Bool

-- A call of `SendReconfigure`: the node, and the request for it.
abbrev pub Rollout : Type 0
Rollout = List (NodeInfo × ReconfigureRequest)

unfoldable pub get_membership : ClusterState → MembershipResponse
get_membership s = record { epoch = s.epoch; membership = s.membership; mode = s.mode }

abbrev pub known_mode : Text → Bool
known_mode mode =
    not (not (mode == bytes "CHAIN") && (not (mode == bytes "CRAQ") && not (mode == bytes "CROWN")))

-- `SetMode` takes its lock twice, in the states `s` and `later`. The second result is the mode that a
-- thread is started for.
unfoldable pub set_mode : Text → ClusterState → ClusterState → SetModeResponse × Option Text
set_mode mode s later =
    if not (known_mode mode)
    then (record { success = false; error = unknown_mode; epoch = 0 }, none)
    else if s.mode == mode
    then (record { success = true; error = no_error; epoch = s.epoch }, none)
    else (
      record { success = true; error = no_error; epoch = (later.epoch + 1) % 2 ^ 64 },
      some mode,
    )

unfoldable pub heartbeat : ℕ → HeartbeatRequest → ClusterState → ClusterState × HeartbeatResponse
heartbeat now request s = (
  record s { last_heartbeat = assign request.node_id now s.last_heartbeat },
  record { alive = true; epoch = s.epoch },
)

unfoldable pub send_reconfigure :
    ClusterState → Text → Text → NodeInfo → NodeInfo × ReconfigureRequest
send_reconfigure s removed added node = (
  node,
  record {
    epoch = s.epoch;
    membership = s.membership;
    mode = s.mode;
    removed_node_id = removed;
    added_node_id = added;
  },
)

-- The loops over the members that a change has left.
unfoldable pub send_all : ClusterState → Text → Text → Rollout
unfolding send_reconfigure
send_all s removed added = map (send_reconfigure s removed added) s.membership

-- The members without the failed one, and whether it was found.
unfoldable pub without : Text → List NodeInfo → List NodeInfo × Bool
without id [] = ([], false)
without id (member ∷ members) =
    let (rest, found) = without id members in
    if member.node_id == id then (rest, true) else (member ∷ rest, found)

unfoldable pub trigger_reconfigure_remove : Text → ClusterState → ClusterState × Rollout
unfolding without send_all
trigger_reconfigure_remove failed s =
    if s.reconfig_in_progress
    then (s, [])
    else (let (survivors, found) = without failed s.membership in
        if not found
        then (record s { reconfig_in_progress = false }, [])
        else (let s' : ClusterState = record s {
          epoch = (s.epoch + 1) % 2 ^ 64;
          membership = survivors;
          last_heartbeat = erase failed s.last_heartbeat;
          reconfig_in_progress = false;
        } in
            (s', send_all s' failed [])))

-- The loop that looks for the added node.
unfoldable pub has_member : Text → List NodeInfo → Bool
has_member id [] = false
has_member id (member ∷ members) = if member.node_id == id then true else has_member id members

unfoldable pub trigger_reconfigure_add : ℕ → NodeInfo → ClusterState → ClusterState × Rollout
unfolding has_member send_all
trigger_reconfigure_add now added s =
    if s.reconfig_in_progress
    then (s, [])
    else if has_member added.node_id s.membership
    then (record s { reconfig_in_progress = false }, [])
    else (let s' : ClusterState = record s {
      epoch = (s.epoch + 1) % 2 ^ 64;
      membership = s.membership ++ added ∷ [];
      last_heartbeat = assign added.node_id now s.last_heartbeat;
      reconfig_in_progress = false;
    } in
        (s', send_all s' [] added.node_id))

unfoldable pub trigger_mode_change : Text → ClusterState → ClusterState × Rollout
unfolding send_all
trigger_mode_change mode s =
    if s.reconfig_in_progress
    then (s, [])
    else (let s' : ClusterState = record s {
      epoch = (s.epoch + 1) % 2 ^ 64;
      mode = mode;
      reconfig_in_progress = false;
    } in
        (s', send_all s' [] []))

-- A member that was heard of, but not for too long. (No time is before the one it is compared with.)
unfoldable pub is_dead : ℕ → Map Text ℕ → NodeInfo → Bool
is_dead now last_heartbeat member = elim (find member.node_id last_heartbeat) [
  | none ↦ false
  | some heard ↦ ltb (heartbeat_interval * heartbeat_miss_threshold) (now - heard)
]

unfoldable pub failed_nodes : ℕ → Map Text ℕ → List NodeInfo → List Text
unfolding is_dead
failed_nodes now last_heartbeat [] = []
failed_nodes now last_heartbeat (member ∷ members) =
    let rest = failed_nodes now last_heartbeat members in
    if is_dead now last_heartbeat member then member.node_id ∷ rest else rest

-- A round of `MonitorFailures`; the second half takes the lock again, in the state `later`.
unfoldable pub remove_first : List Text → ClusterState → ClusterState × Rollout
remove_first [] later = (later, [])
remove_first (failed ∷ _) later = trigger_reconfigure_remove failed later

unfoldable pub monitor_round : ℕ → ClusterState → ClusterState → ClusterState × Rollout
unfolding remove_first failed_nodes
monitor_round now s later = remove_first (failed_nodes now s.last_heartbeat s.membership) later
