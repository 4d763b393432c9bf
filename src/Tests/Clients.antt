-- ===== src/Tests/Clients.antt =====
-- Runs of the client, src/client/client.cpp.
use crown_kv.Common.{
  ◌+◌, ℕ, ◌≡◌, refl, arith, true, none, some, List, [], ◌∷◌, text_eq, text_beq, bytes, find,
}
use crown_kv.Client.{send_put_with_retry, set_cluster_mode}
use crown_kv.Client.Attempts.{IsSeries, send_put_with_retry-IsSeries}
use crown_kv.Client.Cluster.{copy_of, puts, fetches}
use crown_kv.Metadata.{set_mode, trigger_mode_change}
use crown_kv.Client.Modes.{fetches_of, switching, set_cluster_mode-set_mode}
use crown_kv.Client.Commits.{PendingKey, commit_ack, record_accepted_write}
use crown_kv.Client.Commits.Orders.{ack_of, record_accepted_write-commit_ack}
use crown_kv.Client.Commits.Pairs.{Event, accepts, acks, run, new_client, ArePaired}
use crown_kv.Client.Commits.Balance.{IsDone, run-IsDone}
use crown_kv.Client.Commands.{Session, PutWorld}
use crown_kv.Tests.Data.{key}
use crown_kv.Tests.Clusters.{cluster}
use crown_kv.Tests.Deployed.{deployed, old_client}

send_put_with_retry-IsSeries_example :
    IsSeries (puts cluster deployed 0 none) (fetches cluster) key (bytes "v") (bytes "d:9") 3 1 (
      send_put_with_retry
        (puts cluster deployed 0 none)
        (fetches cluster)
        key
        (bytes "v")
        (bytes "d:9")
        1
        old_client)
send_put_with_retry-IsSeries_example =
    send_put_with_retry-IsSeries (puts cluster deployed 0 none) (fetches cluster) key (bytes "v")
      (bytes "d:9") 1 old_client (omega arith)

-- The store has switched at the third round.
set_cluster_mode-set_mode_example :
    let s' = (trigger_mode_change (bytes "CHAIN") cluster).0 in
    let (done, m') =
      set_cluster_mode
        (fetches_of (switching 8 (bytes "CHAIN") cluster) (bytes "CHAIN"))
        (bytes "CHAIN")
        (some (set_mode (bytes "CHAIN") cluster cluster).0)
        old_client in
    (done ≡ true) × (m' ≡ copy_of s') × (m'.mode ≡ bytes "CHAIN") × (m'.epoch ≡ 3 + 1)
unfolding text_beq
set_cluster_mode-set_mode_example =
    set_cluster_mode-set_mode (bytes "CHAIN") cluster 8 old_client refl refl refl (omega arith)
      (omega arith)

abbrev write : ℕ → PendingKey
write version = record { key = key; version = version }

record_accepted_write-commit_ack_example :
    record_accepted_write (write 1) 10 (commit_ack 12 (ack_of (write 1)) new_client)
    ≡ commit_ack 12 (ack_of (write 1)) (record_accepted_write (write 1) 10 new_client)
unfolding find
record_accepted_write-commit_ack_example =
    record_accepted_write-commit_ack (write 1) 10 12 new_client refl refl

-- The second write is acknowledged before it is recorded.
abbrev events : List Event
events = accepts (write 1) 10 ∷ acks (write 2) 13 ∷ acks (write 1) 15 ∷ accepts (write 2) 11 ∷ []

events-ArePaired : ArePaired events
events-ArePaired k = ground arith

run-IsDone_example : IsDone (run events new_client)
run-IsDone_example = run-IsDone events events-ArePaired (omega arith)

-- The ack of the write comes before it is recorded.
abbrev early_world : PutWorld
early_world = record {
  puts = puts cluster deployed 0 none;
  fetches = fetches cluster;
  sent = 10;
  early = (12, ack_of (write 1)) ∷ [];
  late = [];
}

abbrev session : Session
session = record { membership = old_client; state = new_client; request_id = 1 }
