-- ===== src/Tests/Clusters.antt =====
-- Runs of the metadata store, src/metadata_store/metadata_store.cpp.
use crown_kv.Common.{
  ◌≡◌, refl, ◌⊎◌, arith, true, false, none, some, List, [], ◌∷◌, text_eq, text_beq, bytes, All,
  find,
}
use crown_kv.Messages.{NodeInfo, HeartbeatRequest}
use crown_kv.Metadata
use crown_kv.Metadata.{ClusterState, get_membership, heartbeat, has_member, is_dead, monitor_round}
use crown_kv.Metadata.History.{
  removes, adds, switches, Event, hears, changes, change, run, IsIdle, Succeeds, run-Succeeds,
}
use crown_kv.Metadata.Ids.{IsDistinct, run-IsDistinct}
use crown_kv.Metadata.Rollouts.{HasJoined, IsMade, change-IsMade, heartbeat_round-HasJoined}
use crown_kv.Metadata.Failures.{
  monitor_rounds, AreAlive, monitor_rounds-AreAlive, monitor_round_lem,
}
use crown_kv.Metadata.Start.{main}
use crown_kv.Metadata.Members.{members_text, main-members_text}
use crown_kv.Server.{heartbeat_round}
use crown_kv.Tests.Data.{first, second, third, members}
use crown_kv.Tests.Processes.{new_process, peers}

-- Three members; the first was heard at 0 and the second at 4000.
abbrev pub cluster : ClusterState
cluster = record {
  epoch = 3;
  mode = bytes "CRAQ";
  membership = members;
  last_heartbeat = (first.node_id, 0) ∷ (second.node_id, 4000) ∷ [];
  reconfig_in_progress = false;
}

abbrev beat : HeartbeatRequest
beat = record { node_id = second.node_id; epoch = 3 }

-- n2 goes, is heard of, comes back, and the mode is switched.
abbrev events : List Event
events =
    changes (removes second.node_id)
    ∷ hears 5000 beat
    ∷ changes (adds 6000 second)
    ∷ changes (switches (bytes "CHAIN"))
    ∷ []

run-Succeeds_example : Succeeds cluster (run events cluster) × IsIdle (run events cluster)
run-Succeeds_example = run-Succeeds events cluster (omega arith) refl

run-IsDistinct_example : IsDistinct (run events cluster).membership
unfolding has_member text_beq
run-IsDistinct_example = run-IsDistinct events cluster (refl, (refl, (refl, tt)))

change-IsMade_example :
    IsMade 0 peers new_process
      (removes second.node_id)
      cluster
      (change (removes second.node_id) cluster)
change-IsMade_example =
    change-IsMade 0 peers new_process (removes second.node_id) cluster (omega arith) refl
      (omega arith)

heartbeat_round-HasJoined_example : HasJoined cluster (
    heartbeat_round 10
      (some (heartbeat 5 beat cluster).1.epoch)
      (some (get_membership cluster))
      new_process)
heartbeat_round-HasJoined_example =
    heartbeat_round-HasJoined beat 5 10 cluster cluster new_process (omega arith) (omega arith)

monitor_rounds-AreAlive_example : AreAlive 5000 (monitor_rounds (5000 ∷ 5400 ∷ 5800 ∷ []) cluster)
monitor_rounds-AreAlive_example =
    monitor_rounds-AreAlive 5000 (5000 ∷ 5400 ∷ 5800 ∷ []) cluster refl
      (omega arith, (omega arith, (omega arith, tt))) (omega arith)

monitor_round_lem_example :
    let s' = (monitor_round 5000 cluster cluster).0 in
    All
      (λ (m : NodeInfo).
        (is_dead 5000 cluster.last_heartbeat m ≡ true)
        ⊎ (has_member m.node_id s'.membership ≡ true))
      members
monitor_round_lem_example = monitor_round_lem 5000 cluster cluster refl

-- The first member goes.
monitor_round_value : (monitor_round 5000 cluster cluster).0.membership ≡ second ∷ third ∷ []
unfolding monitor_round Metadata.failed_nodes is_dead Metadata.remove_first
    Metadata.trigger_reconfigure_remove Metadata.without find text_beq
monitor_round_value = refl

main-members_text_example :
    main
      (bytes "--mode" ∷ bytes "CRAQ" ∷ bytes "--members" ∷ members_text (first ∷ second ∷ []) ∷ [])
    ≡ some (
      record {
        epoch = 1;
        mode = bytes "CRAQ";
        membership = first ∷ second ∷ [];
        last_heartbeat = [];
        reconfig_in_progress = false;
      },
      none,
    )
main-members_text_example = main-members_text (bytes "CRAQ") (first ∷ second ∷ []) (
  ((omega arith, ground arith), ground arith, (omega arith, ground arith), omega arith),
  (((omega arith, ground arith), ground arith, (omega arith, ground arith), omega arith), tt),
)
