-- ===== src/Tests/Deployed.antt =====
-- A client of src/client/client.cpp against three processes of src/server/server.cpp.
use mathlib.Core.Path.{subst}
use crown_kv.Common.{
  ℕ, zero, suc, ◌≤◌, ◌≡◌, refl, sym, inr, arith, true, if◌then◌else◌, Option, none, some, [], ◌∷◌,
  Text, text_eq, text_beq, ◌==◌, bytes, length, get_elem?,
}
use crown_kv.Messages.{NodeInfo}
use crown_kv.Replication.{Stub, make_replication_stub}
use crown_kv.Membership.Neighbours.{IsFirst}
use crown_kv.Address.{address_from_node, to_string, digits}
use crown_kv.Server.Starting.{apply_membership-server}
use crown_kv.Server.{Process, ServerState, normal, select_mode, craq_mode, refresh_membership}
use crown_kv.Metadata.{get_membership}
use crown_kv.Metadata.Rollouts.{HasJoined, refresh_membership-HasJoined}
use crown_kv.Client.{
  MembershipState, select_write_node_index, select_read_node_index, stub_at, send_put_with_retry,
  send_get_with_retry,
}
use crown_kv.Client.Routes.{IsPlaced}
use crown_kv.Client.Cluster.{copy_of, AreServing, puts, fetches, send_put_with_retry-succeeds}
use crown_kv.Client.Cluster
use crown_kv.Client.Answers.{gets, IsRead, send_get_with_retry-succeeds}
use crown_kv.Client.Answers
use crown_kv.Tests.Data.{key, first, second, third, members}
use crown_kv.Tests.Processes.{new_process}
use crown_kv.Tests.Clusters.{cluster}

-- A process of the cluster, under an id.
abbrev joined : Text → Process
joined id =
    refresh_membership 0 (some (get_membership cluster))
      (record new_process { server = record new_process.server { node_id = id } })

-- The processes behind the three addresses.
abbrev pub deployed : ℕ → Stub → Option Process
deployed left stub =
    if stub == bytes "a:5001"
    then some (joined first.node_id)
    else if stub == bytes "b:5002"
    then some (joined second.node_id)
    else if stub == bytes "c:5003"
    then some (joined third.node_id)
    else none

joined-HasJoined : (id : Text) → HasJoined cluster (joined id)
joined-HasJoined id = refresh_membership-HasJoined cluster 0 _ (omega arith)

joined-server :
    (id : Text)
    → (joined id).server ≡ record {
      node_id = id;
      epoch = 3;
      mode = bytes "CRAQ";
      membership = members;
      state = normal;
    }
unfolding refresh_membership get_membership
joined-server id = apply_membership-server 0 members id (bytes "CRAQ") 3 true _

-- A member is reached, if it is deployed.
member_served :
    (left i : ℕ) (node x : NodeInfo)
    → get_elem? members i ≡ some node
    → get_elem? members i ≡ some x
    → deployed left (make_replication_stub node) ≡ some (joined node.node_id)
    → IsFirst node.node_id members i
    → (p : Process) × (deployed left (make_replication_stub x) ≡ some p)
      × HasJoined cluster p
      × IsPlaced p i
member_served left i node x f e d first_at =
    let same : node ≡ x = cc in
    subst
      (λ y.
        (p : Process) × (deployed left (make_replication_stub y) ≡ some p)
        × HasJoined cluster p
        × IsPlaced p i)
      same
      (
        joined node.node_id,
        d,
        joined-HasJoined node.node_id,
        subst (λ (t : ServerState). IsFirst t.node_id t.membership i)
            (sym (joined-server node.node_id)) first_at,
      )

deployed-AreServing : AreServing cluster deployed
unfolding make_replication_stub address_from_node to_string digits text_beq
deployed-AreServing left zero node e =
    member_served left 0 first node refl e refl
      (record { found = (first, refl, refl); first = λ j node h e. ground arith })
deployed-AreServing left (suc zero) node e =
    member_served left 1 second node refl e refl
      (record { found = (second, refl, refl); first = λ j node h e. ground arith })
deployed-AreServing left (suc (suc zero)) node e =
    member_served left 2 third node refl e refl
      (record { found = (third, refl, refl); first = λ j node h e. ground arith })
deployed-AreServing left (suc (suc (suc i))) node e = cc

-- A client of epoch 2, which knows the first node alone.
abbrev pub old_client : MembershipState
old_client = record {
  epoch = 2;
  mode = bytes "CHAIN";
  members = first ∷ [];
  stubs = bytes "a:5001" ∷ [];
}

old_client-IsBehind : Cluster.IsBehind cluster deployed 0 none key old_client
unfolding select_write_node_index stub_at text_beq
old_client-IsBehind =
    (omega arith, (bytes "a:5001", refl, λ left. (joined first.node_id, refl, joined-HasJoined _)))

reader_IsBehind : Answers.IsBehind cluster deployed 0 none key old_client
unfolding select_read_node_index stub_at text_beq
reader_IsBehind =
    (omega arith, (bytes "a:5001", refl, λ left. (joined first.node_id, refl, joined-HasJoined _)))

send_put_with_retry-succeeds_example :
    let r =
      send_put_with_retry
        (puts cluster deployed 0 none)
        (fetches cluster)
        key
        (bytes "v")
        (bytes "d:9")
        1
        old_client in
    (r.success ≡ true) × (length r.sent ≤ 2) × (r.membership ≡ copy_of cluster)
unfolding select_mode text_beq
send_put_with_retry-succeeds_example =
    send_put_with_retry-succeeds cluster deployed 0 none key (bytes "v") (bytes "d:9") craq_mode 1
      old_client deployed-AreServing (omega arith) refl (inr old_client-IsBehind)

send_get_with_retry-succeeds_example :
    IsRead cluster deployed 0 none 2
      (send_get_with_retry (gets cluster deployed 0 none) (fetches cluster) key old_client)
unfolding select_mode text_beq
send_get_with_retry-succeeds_example =
    send_get_with_retry-succeeds cluster deployed 0 none key craq_mode old_client
      deployed-AreServing (omega arith) refl (inr reader_IsBehind)
