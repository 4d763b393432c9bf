-- ===== src/Metadata/Failures.antt =====
-- The failure monitor of src/metadata_store/metadata_store.cpp.
use crown_kv.Common.{
  ℕ, ◌+◌, ◌≤◌, ◌<◌, ◌≡◌, refl, ◌∙◌, ◌⊎◌, inl, inr, arith, true, false, Bool-cases, if◌then◌else◌,
  List, [], ◌∷◌, Text, text_eq, text_beq_iff, ◌==◌, Map, erase, find-erase, length, All, All-mono,
  eq_sound,
}
use crown_kv.Messages.{NodeInfo}
use crown_kv.Metadata.{
  ClusterState, has_member, without, is_dead, failed_nodes, remove_first, monitor_round,
  trigger_reconfigure_remove,
}
use crown_kv.Metadata.History.{IsIdle, removes, change}
use crown_kv.Metadata.Ids.{without-found, has_member-change}

-- Rounds of the monitor, with nothing in between.
unfoldable pub monitor_rounds : List ℕ → ClusterState → ClusterState
monitor_rounds [] s = s
monitor_rounds (now ∷ times) s = monitor_rounds times (monitor_round now s s).0

-- No member was dead at a time.
abbrev pub AreAlive : ℕ → ClusterState → Type 0
AreAlive t s = All (λ m. is_dead t s.last_heartbeat m ≡ false) s.membership

failed_nodes-nil :
    (t : ℕ) (h : Map Text ℕ) (members : List NodeInfo)
    → failed_nodes t h members ≡ []
    → All (λ m. is_dead t h m ≡ false) members
unfolding failed_nodes
failed_nodes-nil t h [] e = tt
failed_nodes-nil t h (m ∷ members) e = ground (arith, failed_nodes-nil t h members)

-- The first of the failed nodes is a member.
failed_nodes-cons :
    (t : ℕ) (h : Map Text ℕ) (members : List NodeInfo) (failed : Text) (rest : List Text)
    → failed_nodes t h members ≡ failed ∷ rest
    → has_member failed members ≡ true
unfolding failed_nodes has_member
failed_nodes-cons t h [] failed rest e = cc
failed_nodes-cons t h (m ∷ members) failed rest e =
    ground (arith, failed_nodes-cons t h members failed rest, text_beq_iff m.node_id failed)

-- Who is dead at some time is dead later.
is_dead-later :
    (t u : ℕ) (h : Map Text ℕ) (m : NodeInfo)
    → t ≤ u
    → is_dead u h m ≡ false
    → is_dead t h m ≡ false
unfolding is_dead
is_dead-later t u h m l d = ground arith

is_dead-erase :
    (t : ℕ) (failed : Text) (h : Map Text ℕ) (m : NodeInfo)
    → is_dead t h m ≡ false
    → is_dead t (erase failed h) m ≡ false
unfolding is_dead
is_dead-erase t failed h m d = ground (arith, find-erase failed m.node_id h)

without-AreAlive :
    (t : ℕ) (failed : Text) (h : Map Text ℕ) (members : List NodeInfo)
    → All (λ m. is_dead t h m ≡ false) members
    → All (λ m. is_dead t (erase failed h) m ≡ false) (without failed members).0
unfolding without
without-AreAlive t failed h [] a = tt
without-AreAlive t failed h (m ∷ members) a =
    ground (arith, without-AreAlive t failed h members a.1, is_dead-erase t failed h m a.0)

length-without :
    (failed : Text) (members : List NodeInfo)
    → length (without failed members).0 + (if has_member failed members then 1 else 0)
      ≤ length members
unfolding without has_member
length-without failed [] = omega arith
length-without failed (m ∷ members) = ground (arith, length-without failed members)

-- What a round does, once it is known whom it has found.
round_by :
    (now t : ℕ) (s : ClusterState) (failed : List Text)
    → failed_nodes now s.last_heartbeat s.membership ≡ failed
    → IsIdle s
    → t ≤ now
    → let s' = (remove_first failed s).0 in
      IsIdle s'
      × (AreAlive t s' ⊎ (length s'.membership < length s.membership))
      × (AreAlive t s → AreAlive t s')
unfolding remove_first trigger_reconfigure_remove
round_by now t s [] e i l = (
  i,
  inl (
      All-mono (λ m. is_dead-later t now s.last_heartbeat m l) s.membership
        (failed_nodes-nil now s.last_heartbeat s.membership e)),
  λ a. a,
)
round_by now t s (failed ∷ rest) e i l =
    let there = failed_nodes-cons now s.last_heartbeat s.membership failed rest e in
    let found = without-found failed s.membership ∙ there in
    let shorter = length-without failed s.membership in
    rw (i, found)
      (
        refl,
        inr (ground (arith, shorter, there)),
        λ a. without-AreAlive t failed s.last_heartbeat s.membership a,
      )

-- Who is alive at a time, or has gone, is not found dead at it later.
rounds_keep :
    (t : ℕ) (times : List ℕ) (s : ClusterState)
    → IsIdle s
    → All (λ now. t ≤ now) times
    → AreAlive t s
    → AreAlive t (monitor_rounds times s)
unfolding monitor_rounds monitor_round
rounds_keep t [] s i l a = a
rounds_keep t (now ∷ times) s i l a =
    let (i', _, keep) =
      round_by now t s (failed_nodes now s.last_heartbeat s.membership) refl i l.0 in
    rounds_keep t times (remove_first (failed_nodes now s.last_heartbeat s.membership) s).0 i' l.1
      (keep a)

-- As many rounds of the failure monitor as there are members, with nothing between them, leave no
-- member that has been silent too long at a time t, if the rounds are at t or later and no
-- reconfiguration is in progress.
pub monitor_rounds-AreAlive :
    (t : ℕ) (times : List ℕ) (s : ClusterState)
    → IsIdle s
    → All (λ now. t ≤ now) times
    → length s.membership ≤ length times
    → AreAlive t (monitor_rounds times s)
unfolding monitor_rounds monitor_round
monitor_rounds-AreAlive t [] s i l n = none_left s.membership n
  where
    none_left :
        (members : List NodeInfo)
        → length members ≤ 0
        → All (λ m. is_dead t s.last_heartbeat m ≡ false) members
    none_left [] h = tt
    none_left (m ∷ members) h = absurd (omega arith)
monitor_rounds-AreAlive t (now ∷ times) s i l n =
    let failed = failed_nodes now s.last_heartbeat s.membership in
    let s' = (remove_first failed s).0 in
    let (i', gone, _) = round_by now t s failed refl i l.0 in
    elim gone [
      | inl a ↦ rounds_keep t times s' i' l.1 a
      | inr shorter ↦ monitor_rounds-AreAlive t times s' i' l.1 (omega (arith, n, shorter))
    ]

failed_nodes-IsDead :
    (t : ℕ) (h : Map Text ℕ) (members : List NodeInfo) (failed : Text) (rest : List Text)
    (m : NodeInfo)
    → failed_nodes t h members ≡ failed ∷ rest
    → m.node_id ≡ failed
    → is_dead t h m ≡ true
unfolding failed_nodes is_dead
failed_nodes-IsDead t h [] failed rest m e d = cc
failed_nodes-IsDead t h (n ∷ members) failed rest m e d =
    ground (arith, failed_nodes-IsDead t h members failed rest m)

has_member_self : (members : List NodeInfo) → All (λ m. has_member m.node_id members ≡ true) members
unfolding has_member
has_member_self [] = tt
has_member_self (n ∷ members) = (
  ground (arith, text_beq_iff n.node_id n.node_id),
  All-mono (λ m h. ground (arith, h)) members (has_member_self members),
)

stays_by :
    (now : ℕ) (s later : ClusterState) (failed : List Text)
    → failed_nodes now s.last_heartbeat s.membership ≡ failed
    → IsIdle later
    → All
        (λ m.
          (is_dead now s.last_heartbeat m ≡ true)
          ⊎ (has_member m.node_id (remove_first failed later).0.membership ≡ true))
        later.membership
unfolding remove_first change
stays_by now s later [] e i =
    All-mono (λ m h. inr h) later.membership (has_member_self later.membership)
stays_by now s later (failed ∷ rest) e i =
    All-mono stays later.membership (has_member_self later.membership)
  where
    stays :
        (m : NodeInfo)
        → has_member m.node_id later.membership ≡ true
        → (is_dead now s.last_heartbeat m ≡ true)
          ⊎ (has_member m.node_id (trigger_reconfigure_remove failed later).0.membership ≡ true)
    stays m h = elim (Bool-cases (m.node_id == failed)) [
      | inl d ↦ inl (
          failed_nodes-IsDead now s.last_heartbeat s.membership failed rest m e
            (eq_sound m.node_id failed d))
      | inr d ↦ inr (has_member-change (removes failed) later i m.node_id ∙ rw d h)
    ]

-- A round of the failure monitor removes only a member that had been silent too long in the state
-- that it looked at, also if the cluster has changed before it removes it; no reconfiguration is in
-- progress then.
pub monitor_round_lem :
    (now : ℕ) (s later : ClusterState)
    → IsIdle later
    → let s' = (monitor_round now s later).0 in
      All
        (λ m. (is_dead now s.last_heartbeat m ≡ true) ⊎ (has_member m.node_id s'.membership ≡ true))
        later.membership
unfolding monitor_round
monitor_round_lem now s later i =
    stays_by now s later (failed_nodes now s.last_heartbeat s.membership) refl i
