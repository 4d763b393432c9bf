-- ===== src/Client/Cluster.antt =====
-- A write of src/client/client.cpp against the processes of src/server/server.cpp that have joined the
-- cluster of src/metadata_store/metadata_store.cpp.
use mathlib.Core.Path.{subst}
use crown_kv.Common.{
  ℕ, suc, ◌+◌, ◌%◌, ◌^◌, ◌≤◌, ◌<◌, ◌≡◌, refl, sym, ap, ◌∙◌, ◌⊎◌, inl, inr, arith, true, Option,
  some, ◌>>=◌, Text, length, map, get_elem?, get_elem?-some, get_elem?-map,
}
use crown_kv.Messages.{PutRequest, NodeInfo, MembershipResponse, stale_epoch}
use crown_kv.Ring.Placement.{head_index-lt}
use crown_kv.Replication.{Stub, make_replication_stub}
use crown_kv.Membership.Neighbours.{IsFirst}
use crown_kv.Apportioned.{put_error}
use crown_kv.Server.{Process, Mode, chain_mode, craq_mode, crown_mode, select_mode}
use crown_kv.Server.Gateway.{put}
use crown_kv.Server.Stale.{put-stale}
use crown_kv.Metadata.{ClusterState, get_membership}
use crown_kv.Metadata.Rollouts.{HasJoined}
use crown_kv.Client.{
  MembershipState, fetch_membership, select_write_node_index, stub_at, put_request, put_attempts,
  send_put_with_retry, Puts, Fetches, refreshes_put,
}
use crown_kv.Client.Turns.{after_put-success, after_put-refresh, put_attempts-stub}
use crown_kv.Client.Routes.{head_of, select_write_node_index-head_of, IsPlaced, put-head_of}

-- The cluster's membership, as the client keeps it.
abbrev pub copy_of : ClusterState → MembershipState
copy_of s = record {
  epoch = s.epoch;
  mode = s.mode;
  members = s.membership;
  stubs = map make_replication_stub s.membership;
}

-- What the metadata store answers the client.
abbrev pub fetches : ClusterState → Fetches
fetches s left = some (get_membership s)

head_of-lt : (mode : Mode) (key : Text) (n : ℕ) → 0 < n → head_of mode key n < n
head_of-lt chain_mode key n h = h
head_of-lt craq_mode key n h = h
head_of-lt crown_mode key n h = head_index-lt key n h

-- The processes that the stubs reach, by the attempts that are left.
module _ (s : ClusterState) (processes : ℕ → Stub → Option Process) where
  -- Each member is reached, has joined, and is at its place.
  abbrev pub AreServing : Type 0
  AreServing =
      (left i : ℕ) (node : NodeInfo)
      → get_elem? s.membership i ≡ some node
      → (p : Process) × (processes left (make_replication_stub node) ≡ some p)
        × HasJoined s p
        × IsPlaced p i

-- What they answer to writes.
module _ (s : ClusterState) (processes : ℕ → Stub → Option Process) (now : ℕ)
    (answer : Option MembershipResponse) where
  abbrev pub puts : Puts
  puts left stub q = processes left stub >>= λ p. some (put now answer q p).1

  -- The client is behind, and the node that it asks has joined.
  abbrev pub IsBehind : Text → MembershipState → Type 0
  IsBehind key m =
      (m.epoch < s.epoch)
      × ((stub : Stub) × (stub_at m.stubs (select_write_node_index m key) ≡ some stub)
          × ((left : ℕ) → (p : Process) × (processes left stub ≡ some p) × HasJoined s p))

  puts-process :
      (left : ℕ) (stub : Stub) (q : PutRequest) (p : Process)
      → processes left stub ≡ some p
      → puts left stub q ≡ some (put now answer q p).1
  puts-process left stub q p e = rw e refl

  -- An attempt that a node takes.
  attempt_taken :
      (key value client_addr : Text) (left request_id : ℕ) (m : MembershipState) (stub : Stub)
      (p : Process)
      → stub_at m.stubs (select_write_node_index m key) ≡ some stub
      → processes left stub ≡ some p
      → (put now answer (put_request key value client_addr request_id m) p).1.success ≡ true
      → let r = put_attempts puts (fetches s) key value client_addr (suc left) request_id m in
        (r.success ≡ true) × (length r.sent ≡ 1) × (r.membership ≡ m)
  attempt_taken key value client_addr left request_id m stub p e reached taken =
      rw
        (
          put_attempts-stub puts (fetches s) key value client_addr left request_id m stub e,
          puts-process left stub (put_request key value client_addr request_id m) p reached,
          after_put-success (put now answer (put_request key value client_addr request_id m) p).1 _
              _ _ m _ taken,
        )
        (refl, refl, refl)

  -- The client writes with its first attempt.
  write_fresh :
      (key value client_addr : Text) (mode : Mode) (left request_id : ℕ)
      → AreServing s processes
      → 0 < length s.membership
      → select_mode s.mode ≡ some mode
      → let r =
          put_attempts puts (fetches s) key value client_addr (suc left) request_id (copy_of s) in
        (r.success ≡ true) × (length r.sent ≡ 1) × (r.membership ≡ copy_of s)
  unfolding stub_at put_request
  write_fresh key value client_addr mode left request_id serving h known =
      let m = copy_of s in
      let i = head_of mode key (length s.membership) in
      let (node, at) = get_elem?-some s.membership i (head_of-lt mode key _ h) in
      let (p, reached, (n, (pe, pm, po, a)), placed) = serving left i node at in
      let index = select_write_node_index-head_of m key mode h known in
      attempt_taken key value client_addr left request_id m (make_replication_stub node) p
        (ap (stub_at m.stubs) index ∙ get_elem?-map make_replication_stub s.membership i at) reached
        (put-head_of now answer (put_request key value client_addr request_id m) mode p n a
          (ap select_mode po ∙ known) (sym pe) refl
          (subst (λ l. IsFirst p.server.node_id p.server.membership (head_of mode key (length l)))
            (sym pm) placed))

  -- A client's write is accepted within two requests, after which the client has the cluster's
  -- membership. The client has that membership already, or it has an older epoch and the node that
  -- it asks has joined the cluster; the cluster has members and a known mode, each member is
  -- reached under its address, has joined and stands at its place, and the metadata store answers.
  pub send_put_with_retry-succeeds :
      (key value client_addr : Text) (mode : Mode) (request_id : ℕ) (m : MembershipState)
      → AreServing s processes
      → 0 < length s.membership
      → select_mode s.mode ≡ some mode
      → (m ≡ copy_of s) ⊎ IsBehind key m
      → let r = send_put_with_retry puts (fetches s) key value client_addr request_id m in
        (r.success ≡ true) × (length r.sent ≤ 2) × (r.membership ≡ copy_of s)
  unfolding send_put_with_retry put_request fetch_membership get_membership refreshes_put
  send_put_with_retry-succeeds key value client_addr mode request_id m serving h known (inl e) =
      let (done, one, same) = write_fresh key value client_addr mode 2 request_id serving h known in
      rw e (done, omega (arith, one), same)
  send_put_with_retry-succeeds key value client_addr mode request_id m serving h known
        (inr (old, (stub, e, reached))) =
      let (p, at, (n, (pe, pm, po, a))) = reached 2 in
      let q = put_request key value client_addr request_id m in
      let next_id = (request_id + 1) % 2 ^ 64 in
      let refused =
        put-stale now answer q mode p (omega (arith, pe, old)) n (ap select_mode po ∙ known) in
      let (done, one, same) = write_fresh key value client_addr mode 1 next_id serving h known in
      rw
        (
          put_attempts-stub puts (fetches s) key value client_addr 2 request_id m stub e,
          puts-process 2 stub q p at,
          refused,
          after_put-refresh (put_error stale_epoch) true _ _ m next_id refl refl,
        )
        (done, omega (arith, one), same)
