-- ===== src/Metadata/Rollouts.antt =====
-- How a change of the cluster, src/metadata_store/metadata_store.cpp, reaches the processes of
-- src/server/server.cpp: by `Reconfigure`, and by the heartbeat of a process that missed it.
use native.Mathlib.Nat.{mod-eq_of_lt}
use crown_kv.Common.{
  ◌+◌, ◌%◌, ◌^◌, ◌⊎◌, ◌++◌, ℕ, ◌≤◌, ◌<◌, ◌≡◌, refl, ap, ◌∙◌, inl, inr, arith, Bool, true, text_eq,
  All-member, ltb-false, ltb, lt→ltb, some, List, [], ◌∷◌, Text, map, All,
}
use crown_kv.Messages.{NodeInfo, ReconfigureRequest, HeartbeatRequest}
use crown_kv.Server.{
  Process, ServerState, normal, apply_membership, refresh_membership, heartbeat_round,
}
use crown_kv.Server.Starting.{apply_membership-server}
use crown_kv.Server.Next.{AreInstalled, apply_membership-AreInstalled}
use crown_kv.Server.Reconfigure.{Peers, reconfigure}
use crown_kv.Metadata.{
  ClusterState, Rollout, without, get_membership, heartbeat, send_reconfigure, send_all,
  trigger_reconfigure_remove, trigger_reconfigure_add, trigger_mode_change,
}
use crown_kv.Metadata.Changes.{
  IsPossible, IsDone, without-IsWithout, without-cases, has_member-cases,
}
use crown_kv.Metadata.History.{Change, removes, adds, switches, change, IsIdle}

-- A process has the cluster's epoch, membership and mode, and so have its objects.
abbrev pub HasTaken : ClusterState → Process → Type 0
HasTaken s p =
    (p.server.epoch ≡ s.epoch)
    × (p.server.membership ≡ s.membership)
    × (p.server.mode ≡ s.mode)
    × AreInstalled p

-- And it is NORMAL.
abbrev pub HasJoined : ClusterState → Process → Type 0
HasJoined s p = (p.server.state ≡ normal) × HasTaken s p

-- A membership that is the server's, under its epoch and mode.
apply_membership-HasTaken :
    (s : ClusterState) (now : ℕ) (b : Bool) (p : Process)
    → p.server.epoch ≡ s.epoch
    → p.server.membership ≡ s.membership
    → p.server.mode ≡ s.mode
    → HasTaken s
        (apply_membership now p.server.membership p.server.node_id p.server.mode p.server.epoch b p)
apply_membership-HasTaken s now b p e m o =
    let q =
      apply_membership-server now p.server.membership p.server.node_id p.server.mode p.server.epoch
        b p in
    (
      ap (λ (t : ServerState). t.epoch) q ∙ e,
      ap (λ (t : ServerState). t.membership) q ∙ m,
      ap (λ (t : ServerState). t.mode) q ∙ o,
      apply_membership-AreInstalled now p.server.mode b p,
    )

pub refresh_membership-HasJoined :
    (s : ClusterState) (now : ℕ) (p : Process)
    → p.server.epoch ≤ s.epoch
    → HasJoined s (refresh_membership now (some (get_membership s)) p)
unfolding refresh_membership get_membership
refresh_membership-HasJoined s now p h = rw (ltb-false s.epoch p.server.epoch h) (
  ap (λ (t : ServerState). t.state)
      (apply_membership-server now s.membership p.server.node_id s.mode s.epoch
        (ltb p.server.epoch s.epoch) _),
  apply_membership-HasTaken s now (ltb p.server.epoch s.epoch) _ refl refl refl,
)

reconfigure-HasJoined :
    (s : ClusterState) (removed added : Text) (node : NodeInfo) (now : ℕ) (peers : Peers)
    (p : Process)
    → p.server.epoch ≤ s.epoch
    → let (p', success) = reconfigure now peers (send_reconfigure s removed added node).1 p in
      (success ≡ true) × HasJoined s p'
unfolding reconfigure send_reconfigure
reconfigure-HasJoined s removed added node now peers p h =
    rw (ltb-false s.epoch p.server.epoch h)
      (refl, (refl, apply_membership-HasTaken s now (ltb p.server.epoch s.epoch) _ refl refl refl))

-- The process that a call reaches joins the cluster.
abbrev pub Joins : ClusterState → ℕ → Peers → Process → NodeInfo × ReconfigureRequest → Type 0
Joins s now peers p c =
    let (p', success) = reconfigure now peers c.1 p in (success ≡ true) × HasJoined s p'

-- A rollout asks every member in turn, and the process joins, whichever it is.
abbrev pub IsRollout : ClusterState → ℕ → Peers → Process → Rollout → Type 0
IsRollout s now peers p calls =
    (map (λ (c : NodeInfo × ReconfigureRequest). c.0) calls ≡ s.membership)
    × All (Joins s now peers p) calls

map-Joins :
    (s : ClusterState) (removed added : Text) (members : List NodeInfo) (now : ℕ) (peers : Peers)
    (p : Process)
    → p.server.epoch ≤ s.epoch
    → All (Joins s now peers p) (map (send_reconfigure s removed added) members)
map-Joins s removed added [] now peers p h = tt
map-Joins s removed added (m ∷ members) now peers p h = (
  reconfigure-HasJoined s removed added m now peers p h,
  map-Joins s removed added members now peers p h,
)

map-nodes :
    (s : ClusterState) (removed added : Text) (members : List NodeInfo)
    → map
        (λ (c : NodeInfo × ReconfigureRequest). c.0)
        (map (send_reconfigure s removed added) members)
      ≡ members
unfolding send_reconfigure
map-nodes s removed added [] = refl
map-nodes s removed added (m ∷ members) = cc (map-nodes s removed added members)

module _ (now : ℕ) (peers : Peers) (p : Process) where
  send_all-IsRollout :
      (s : ClusterState) (removed added : Text)
      → p.server.epoch ≤ s.epoch
      → IsRollout s now peers p (send_all s removed added)
  unfolding send_all
  send_all-IsRollout s removed added h =
      (map-nodes s removed added s.membership, map-Joins s removed added s.membership now peers p h)

  made :
      (removed added : Text) (s : ClusterState)
      → s.epoch + 1 < 2 ^ 64
      → p.server.epoch ≤ s.epoch + 1
      → let s' : ClusterState = record s { epoch = (s.epoch + 1) % 2 ^ 64 } in
        (s'.epoch ≡ s.epoch + 1) × IsRollout s' now peers p (send_all s' removed added)
  made removed added s h l =
      let e = mod-eq_of_lt h in
      (
        e,
        send_all-IsRollout (record s { epoch = (s.epoch + 1) % 2 ^ 64 }) removed added
            (omega (arith, e, l)),
      )

  -- A change that cannot be made: nothing is sent. One that can is, and is rolled out.
  abbrev pub IsMade : Change → ClusterState → ClusterState × Rollout → Type 0
  IsMade c s (s', calls) =
      ((¬ IsPossible c s) × (s' ≡ s) × (calls ≡ []))
      ⊎ (IsPossible c s × IsDone c s s' × (s'.epoch ≡ s.epoch + 1) × IsRollout s' now peers p calls)

  -- A removal is made exactly if the failed node is a member, an addition exactly if the added node
  -- is none, a switch of the mode always; a change that is not made changes nothing and sends
  -- nothing. One that is made raises the epoch by one, and the membership is then the old one
  -- without the failed node, in order, or with the added node at its end, or the mode is the new
  -- one, and the rest stays, but for the heartbeat of the node that goes or comes; it asks every
  -- member of the new membership in turn, and a process that gets one of the requests answers
  -- success, is NORMAL, and has the cluster's epoch, membership and mode, as have its objects. (The
  -- epoch has room, none is in progress, and the process's epoch is at most the new one.)
  pub change-IsMade :
      (c : Change) (s : ClusterState)
      → s.epoch + 1 < 2 ^ 64
      → IsIdle s
      → p.server.epoch ≤ s.epoch + 1
      → IsMade c s (change c s)
  unfolding change trigger_reconfigure_remove trigger_reconfigure_add trigger_mode_change
  change-IsMade (removes failed) s h i l = elim (without-cases failed s.membership) [
    | inl (e, present) ↦
        let (epoch, rolled) =
          made failed [] (record s { membership = (without failed s.membership).0 }) h l in
        rw (i, e)
          (inr (present, (without-IsWithout failed s.membership, refl, refl, refl), epoch, rolled))
    | inr (e, absent) ↦
        rw (i, e) (inl (λ (m, at, same). All-member _ s.membership absent at same, refl, refl))
  ]
  change-IsMade (adds at added) s h i l = elim (has_member-cases added.node_id s.membership) [
    | inl (e, (m, there, same)) ↦
        rw (i, e) (inl (λ absent. All-member _ s.membership absent there same, refl, refl))
    | inr (e, absent) ↦
        let (epoch, rolled) =
          made [] added.node_id (record s { membership = s.membership ++ added ∷ [] }) h l in
        rw (i, e) (inr (absent, (refl, refl, refl, refl), epoch, rolled))
  ]
  change-IsMade (switches mode) s h i l =
      let (epoch, rolled) = made [] [] (record s { mode = mode }) h l in
      rw i (inr (tt, (refl, refl, refl, refl), epoch, rolled))

-- A process behind the metadata store, which missed a reconfiguration, takes over the membership of
-- the store's later state in one round of its heartbeat loop, and is NORMAL; its three objects have
-- it too.
pub heartbeat_round-HasJoined :
    (request : HeartbeatRequest) (heard now : ℕ) (s later : ClusterState) (p : Process)
    → p.server.epoch < s.epoch
    → s.epoch ≤ later.epoch
    → HasJoined later (
        heartbeat_round now
          (some (heartbeat heard request s).1.epoch)
          (some (get_membership later))
          p)
unfolding heartbeat heartbeat_round
heartbeat_round-HasJoined request heard now s later p h k =
    rw (lt→ltb p.server.epoch s.epoch h) (refresh_membership-HasJoined later now p (omega arith))
