-- ===== src/Client/Answers.antt =====
-- A read of src/client/client.cpp against the processes of src/server/server.cpp that have joined the
-- cluster of src/metadata_store/metadata_store.cpp.
use crown_kv.Common.{
  ℕ, suc, ◌≤◌, ◌<◌, ◌≡◌, ◌≢◌, refl, sym, ap, ◌∙◌, ◌⊎◌, inl, inr, arith, true, Option, some, ◌>>=◌,
  Text, length, get_elem?, get_elem?-some, get_elem?-map, get_elem?-lt,
}
use crown_kv.Messages.{
  NodeInfo, GetRequest, GetResponse, MembershipResponse, VersionQueryRequest, stale_epoch,
}
use crown_kv.Ring.Placement.{head_index-lt}
use crown_kv.Replication.{Stub, make_replication_stub}
use crown_kv.Apportioned.{get_error}
use crown_kv.Server.{Process, Mode, chain_mode, craq_mode, crown_mode, select_mode, selected}
use crown_kv.Server.Gateway.{Query, node_of, get, version_query}
use crown_kv.Server.Stale.{get-stale}
use crown_kv.Metadata.{ClusterState, get_membership}
use crown_kv.Metadata.Rollouts.{HasJoined}
use crown_kv.Client.{
  MembershipState, fetch_membership, select_read_node_index, stub_at, GetResult, refreshes_get,
  get_attempts, send_get_with_retry, Gets,
}
use crown_kv.Client.Routes.{IsPlaced, object_place, object_epoch, selected-IsInstalled}
use crown_kv.Client.Reads.{
  reader_of, tail_of, select_read_node_index-reader_of, IsFinal, IsQuiet, AsksTail,
  version_query-IsFinal, get-IsFinal,
}
use crown_kv.Client.Turns.{after_get-final, after_get-refresh, get_attempts-stub}
use crown_kv.Client.Cluster.{copy_of, AreServing, fetches}

reader_of-lt : (mode : Mode) (key : Text) (n : ℕ) → 0 < n → reader_of mode key n < n
reader_of-lt chain_mode key n h = omega arith
reader_of-lt craq_mode key n h = head_index-lt key n h
reader_of-lt crown_mode key n h = head_index-lt key n h

module _ (s : ClusterState) (processes : ℕ → Stub → Option Process) (now : ℕ)
    (answer : Option MembershipResponse) where
  -- The processes answer each other's version queries too.
  abbrev pub query : ℕ → Query
  query left stub q = processes left stub >>= λ t. some (version_query now answer q t).1

  abbrev pub gets : Gets
  gets left stub q =
      processes left stub >>= λ p. some (get now answer (query left) q.key q.epoch p).1

  abbrev pub IsBehind : Text → MembershipState → Type 0
  IsBehind key m =
      (m.epoch < s.epoch)
      × ((stub : Stub) × (stub_at m.stubs (select_read_node_index m key) ≡ some stub)
          × ((left : ℕ) → (p : Process) × (processes left stub ≡ some p) × HasJoined s p))

  gets-process :
      (left : ℕ) (stub : Stub) (q : GetRequest) (p : Process)
      → processes left stub ≡ some p
      → gets left stub q ≡ some (get now answer (query left) q.key q.epoch p).1
  gets-process left stub q p e = rw e refl

  query-IsQuiet :
      (left : ℕ) (stub : Stub) (q : VersionQueryRequest) (t : Process)
      → processes left stub ≡ some t
      → IsFinal (version_query now answer q t).1.error
      → IsQuiet (query left stub q)
  query-IsQuiet left stub q t e f = rw e f

  -- Where an object of a process that has joined stands.
  joined_place :
      (mode : Mode) (p : Process) (i : ℕ)
      → HasJoined s p
      → IsPlaced p i
      → let r = selected mode p in
        (r.node_index ≡ i)
        × (r.ring_size ≡ length s.membership)
        × (r.epoch ≡ s.epoch)
        × (r.membership ≡ s.membership)
  joined_place mode p i (n, (pe, pm, po, a)) placed =
      let r = selected mode p in
      let installed = selected-IsInstalled mode p a in
      let (place, size) = object_place p.server r i installed placed in
      let (epoch, membership) = object_epoch p.server r installed in
      (place, size ∙ ap length pm, epoch ∙ pe, membership ∙ pm)

  tail-IsQuiet :
      (mode : Mode) (left : ℕ) (key : Text) (node : NodeInfo)
      → AreServing s processes
      → mode ≢ chain_mode
      → select_mode s.mode ≡ some mode
      → get_elem? s.membership (tail_of mode key (length s.membership)) ≡ some node
      → IsQuiet (query left (make_replication_stub node) (record { key = key; epoch = s.epoch }))
  tail-IsQuiet mode left key node serving c known at =
      let (t, reached, joined, placed) =
        serving left (tail_of mode key (length s.membership)) node at in
      let (n, (te, tm, to, a)) = joined in
      let (place, size, epoch, membership) = joined_place mode t _ joined placed in
      query-IsQuiet left (make_replication_stub node) _ t reached (
        version_query-IsFinal now answer (record { key = key; epoch = s.epoch }) mode t (sym te)
          (ap select_mode to ∙ known) c (omega (arith, size, get_elem?-lt s.membership _ at))
          (place ∙ ap (tail_of mode key) (sym size)))

  joined-AsksTail :
      (mode : Mode) (left : ℕ) (key : Text) (p : Process) (i : ℕ)
      → AreServing s processes
      → select_mode s.mode ≡ some mode
      → HasJoined s p
      → IsPlaced p i
      → AsksTail mode (query left) key (node_of mode p)
  unfolding selected
  joined-AsksTail chain_mode left key p i serving known joined placed = tt
  joined-AsksTail craq_mode left key p i serving known joined placed =
      let (_, size, epoch, membership) = joined_place craq_mode p i joined placed in
      λ node at.
        rw epoch (
          tail-IsQuiet craq_mode left key node serving (λ e. cc) known
            (rw (size, membership) at at))
  joined-AsksTail crown_mode left key p i serving known joined placed =
      let (_, size, epoch, membership) = joined_place crown_mode p i joined placed in
      λ node at. rw epoch (
        tail-IsQuiet crown_mode left key node serving (λ e. cc) known (rw (size, membership) at at))

  -- The read ends with an answer that is final, and with the cluster's membership.
  abbrev pub IsRead : ℕ → GetResult → Type 0
  IsRead most r =
      (r.success ≡ true)
      × ((response : GetResponse) × (r.response ≡ some response) × IsFinal response.error)
      × (length r.sent ≤ most)
      × (r.membership ≡ copy_of s)

  -- The client reads with its first attempt.
  get_attempts-IsRead :
      (key : Text) (mode : Mode) (left : ℕ)
      → AreServing s processes
      → 0 < length s.membership
      → select_mode s.mode ≡ some mode
      → IsRead 1 (get_attempts gets (fetches s) key (suc left) (copy_of s))
  unfolding stub_at
  get_attempts-IsRead key mode left serving h known =
      let m = copy_of s in
      let i = reader_of mode key (length s.membership) in
      let (node, at) = get_elem?-some s.membership i (reader_of-lt mode key _ h) in
      let (p, reached, joined, placed) = serving left i node at in
      let (n, (pe, pm, po, a)) = joined in
      let (place, size, epoch, membership) = joined_place mode p i joined placed in
      let index = select_read_node_index-reader_of m key mode h known in
      let stub = make_replication_stub node in
      let found =
        ap (stub_at m.stubs) index ∙ get_elem?-map make_replication_stub s.membership i at in
      let final =
        get-IsFinal now answer (query left) key s.epoch mode p (sym pe) (ap select_mode po ∙ known)
          (omega (arith, size, h)) (place ∙ ap (reader_of mode key) (sym size))
          (joined-AsksTail mode left key p i serving known joined placed) in
      rw
        (
          get_attempts-stub gets (fetches s) key left m stub found,
          gets-process left stub (record { key = key; epoch = s.epoch }) p reached,
          after_get-final (get now answer (query left) key s.epoch p).1 _ _ _ m final,
        )
        (refl, (_, refl, final), omega arith, refl)

  -- A client's read is answered within two requests, by an answer that is neither STALE_EPOCH nor a
  -- bare WRONG_NODE, after which the client has the cluster's membership; a node with dirty
  -- versions asks the process at the tail's place. The conditions are those of a write.
  pub send_get_with_retry-succeeds :
      (key : Text) (mode : Mode) (m : MembershipState)
      → AreServing s processes
      → 0 < length s.membership
      → select_mode s.mode ≡ some mode
      → (m ≡ copy_of s) ⊎ IsBehind key m
      → IsRead 2 (send_get_with_retry gets (fetches s) key m)
  unfolding send_get_with_retry fetch_membership get_membership refreshes_get
  send_get_with_retry-succeeds key mode m serving h known (inl e) =
      let (done, final, one, same) = get_attempts-IsRead key mode 2 serving h known in
      rw e (done, final, omega (arith, one), same)
  send_get_with_retry-succeeds key mode m serving h known (inr (old, (stub, e, reached))) =
      let (p, at, (n, (pe, pm, po, a))) = reached 2 in
      let refused =
        get-stale now m.epoch answer (query 2) key mode p (omega (arith, pe, old))
          (ap select_mode po ∙ known) in
      let (done, final, one, same) = get_attempts-IsRead key mode 1 serving h known in
      rw
        (
          get_attempts-stub gets (fetches s) key 2 m stub e,
          gets-process 2 stub (record { key = key; epoch = m.epoch }) p at,
          refused,
          after_get-refresh (get_error stale_epoch) true _ _ m refl,
        )
        (done, final, omega (arith, one), same)
