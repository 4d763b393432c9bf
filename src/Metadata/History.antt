-- ===== src/Metadata/History.antt =====
-- The cluster's state, src/metadata_store/metadata_store.cpp, along any sequence of its critical
-- sections.
use native.Mathlib.Nat.{mod-eq_of_lt}
use crown_kv.Common.{
  ℕ, ◌+◌, ◌^◌, ◌≤◌, ◌<◌, ◌≡◌, refl, ◌⊎◌, inl, arith, false, List, [], ◌∷◌, Text, length,
}
use crown_kv.Messages.{NodeInfo, HeartbeatRequest}
use crown_kv.Metadata.{
  ClusterState, Rollout, heartbeat, trigger_reconfigure_remove, trigger_reconfigure_add,
  trigger_mode_change,
}

-- The three reconfigurations.
pub data Change : Type 0 where
  removes : Text → Change
  adds : ℕ → NodeInfo → Change
  switches : Text → Change

unfoldable pub change : Change → ClusterState → ClusterState × Rollout
change (removes failed) s = trigger_reconfigure_remove failed s
change (adds now added) s = trigger_reconfigure_add now added s
change (switches mode) s = trigger_mode_change mode s

pub data Event : Type 0 where
  hears : ℕ → HeartbeatRequest → Event
  changes : Change → Event

unfoldable pub step : Event → ClusterState → ClusterState
step (hears now request) s = (heartbeat now request s).0
step (changes c) s = (change c s).0

unfoldable pub run : List Event → ClusterState → ClusterState
run [] s = s
run (e ∷ events) s = run events (step e s)

-- No reconfiguration is in progress between two critical sections.
abbrev pub IsIdle : ClusterState → Type 0
IsIdle s = s.reconfig_in_progress ≡ false

-- The later state is the same cluster under the same epoch, or it has a larger epoch.
abbrev pub Succeeds : ClusterState → ClusterState → Type 0
Succeeds s s' =
    ((s'.epoch ≡ s.epoch) × (s'.membership ≡ s.membership) × (s'.mode ≡ s.mode))
    ⊎ (s.epoch < s'.epoch)

Succeeds-trans : (s t u : ClusterState) → Succeeds s t → Succeeds t u → Succeeds s u
Succeeds-trans s t u a b = ground arith

pub change-Succeeds :
    (c : Change) (s : ClusterState)
    → s.epoch + 1 < 2 ^ 64
    → IsIdle s
    → Succeeds s (change c s).0 × IsIdle (change c s).0 × ((change c s).0.epoch ≤ s.epoch + 1)
unfolding change trigger_reconfigure_remove trigger_reconfigure_add trigger_mode_change
change-Succeeds (removes failed) s h i = ground (arith, mod-eq_of_lt h)
change-Succeeds (adds now added) s h i = ground (arith, mod-eq_of_lt h)
change-Succeeds (switches mode) s h i = ground (arith, mod-eq_of_lt h)

step-Succeeds :
    (e : Event) (s : ClusterState)
    → s.epoch + 1 < 2 ^ 64
    → IsIdle s
    → Succeeds s (step e s) × IsIdle (step e s) × ((step e s).epoch ≤ s.epoch + 1)
unfolding step heartbeat
step-Succeeds (hears now request) s h i = (inl (refl, refl, refl), i, omega arith)
step-Succeeds (changes c) s h i = change-Succeeds c s h i

-- Along any sequence of heartbeats and reconfigurations, from a state in which none is in progress,
-- either the cluster's epoch, membership and mode all stay as they are or its epoch rises, and no
-- reconfiguration is in progress at the end. (The epoch has room for one step per event.)
pub run-Succeeds :
    (events : List Event) (s : ClusterState)
    → s.epoch + length events < 2 ^ 64
    → IsIdle s
    → Succeeds s (run events s) × IsIdle (run events s)
unfolding run
run-Succeeds [] s h i = (inl (refl, refl, refl), i)
run-Succeeds (e ∷ events) s h i =
    let (f, i', b) = step-Succeeds e s (omega arith) i in
    let (g, j) = run-Succeeds events (step e s) (omega (arith, b)) i' in
    (Succeeds-trans s (step e s) (run events (step e s)) f g, j)
