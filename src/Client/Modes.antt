-- ===== src/Client/Modes.antt =====
-- The client waits for a mode, src/client/client.cpp.
use crown_kv.Common.{
  ℕ, zero, suc, ◌+◌, ◌^◌, leb, le→leb, ap, text_beq_iff, Bool-cases, ◌<◌, ◌≡◌, ◌≢◌, refl, sym, ◌∙◌,
  ◌⊎◌, inl, inr, arith, Bool, true, false, if◌then◌else◌, some, Text, text_eq, eq_sound, ◌==◌,
}
use crown_kv.Messages.{SetModeResponse}
use native.Mathlib.Nat.{mod-eq_of_lt}
use crown_kv.Metadata.{ClusterState, get_membership, known_mode, set_mode, trigger_mode_change}
use crown_kv.Metadata.History.{IsIdle}
use crown_kv.Client.{MembershipState, fetch_membership, mode_rounds, set_cluster_mode, Fetches}
use crown_kv.Client.Cluster.{copy_of}

-- The states of the metadata store at the fetches, by the rounds that are left.
module _ (states : ℕ → ClusterState) (mode : Text) where
  abbrev pub fetches_of : Fetches
  fetches_of left = some (get_membership (states left))

  -- At the rounds that are left the store has another mode.
  abbrev pub HasOthers : ℕ → Type 0
  HasOthers zero = Unit
  HasOthers (suc left) = (((states (suc left)).mode == mode) ≡ false) × HasOthers left

  -- The client has stopped at a round at which the store has the mode, or at the last fetch, after
  -- another mode at every round.
  abbrev pub HasWaited : ℕ → MembershipState → Type 0
  HasWaited most m =
      ((left : ℕ) × (left < most) × (m ≡ copy_of (states (suc left))) × (m.mode ≡ mode))
      ⊎ ((m ≡ copy_of (states 0)) × HasOthers most)

  Waits : ℕ → Bool × MembershipState → Type 0
  Waits most (done, m) = (done ≡ true) × HasWaited most m

  -- A round, by its test.
  Waits-round :
      (left : ℕ) (b : Bool) (rest : Bool × MembershipState)
      → ((states (suc left)).mode == mode) ≡ b
      → Waits left rest
      → Waits (suc left) (if b then (true, copy_of (states (suc left))) else rest)
  unfolding Waits
  Waits-round left true rest e w =
      (refl, inl (left, omega arith, refl, eq_sound (states (suc left)).mode mode e))
  Waits-round left false rest e (d, inl (k, l, same, o)) = (d, inl (k, omega (arith, l), same, o))
  Waits-round left false rest e (d, inr (same, others)) = (d, inr (same, (e, others)))

  mode_rounds-Waits :
      (left : ℕ) (m : MembershipState) → Waits left (mode_rounds fetches_of mode left m)
  unfolding mode_rounds fetch_membership get_membership Waits
  mode_rounds-Waits zero m = (refl, inr (refl, tt))
  mode_rounds-Waits (suc left) m =
      Waits-round left ((states (suc left)).mode == mode) _ refl
        (mode_rounds-Waits left (copy_of (states (suc left))))

  -- After the metadata store has accepted a mode and while it answers, the client's wait returns
  -- success: at the first of ten rounds at which the store has the mode, with that membership, or
  -- after ten rounds with another mode, with what the eleventh fetch brings.
  pub set_cluster_mode-HasWaited :
      (response : SetModeResponse) (m : MembershipState)
      → response.success ≡ true
      → let (done, m') = set_cluster_mode fetches_of mode (some response) m in
        (done ≡ true) × HasWaited 10 m'
  unfolding set_cluster_mode Waits
  set_cluster_mode-HasWaited response m e = rw e (mode_rounds-Waits 10 m)

HasOthers-last :
    (states : ℕ → ClusterState) (mode : Text) (n : ℕ)
    → HasOthers states mode (suc n)
    → ((states 1).mode == mode) ≡ false
HasOthers-last states mode zero (h, _) = h
HasOthers-last states mode (suc n) (_, h) = HasOthers-last states mode n h

-- The store before and after the thread that `SetMode` starts, which is done when `k` rounds are left.
abbrev pub switching : ℕ → Text → ClusterState → ℕ → ClusterState
switching k mode s left = if leb left k then (trigger_mode_change mode s).0 else s

module _ (mode : Text) (s : ClusterState) (k : ℕ) where
  trigger_mode_change_lem :
      IsIdle s
      → s.epoch + 1 < 2 ^ 64
      → let s' = (trigger_mode_change mode s).0 in (s'.mode ≡ mode) × (s'.epoch ≡ s.epoch + 1)
  unfolding trigger_mode_change
  trigger_mode_change_lem i h = rw i (refl, mod-eq_of_lt h)

  other_mode : (t : ClusterState) → (t.mode == mode) ≡ false → t.mode ≢ mode
  other_mode t o e = let b = (text_beq_iff t.mode mode).1 e in cc

  switching-mode :
      (left : ℕ)
      → (s.mode == mode) ≡ false
      → (switching k mode s left).mode ≡ mode
      → switching k mode s left ≡ (trigger_mode_change mode s).0
  switching-mode left o e = elim (Bool-cases (leb left k)) [
    | inl b ↦ rw b refl
    | inr b ↦ let f : s.mode ≡ mode = rw b at e in absurd (other_mode s o f)
  ]

  set_mode-accepts :
      known_mode mode ≡ true → (s.mode == mode) ≡ false → (set_mode mode s s).0.success ≡ true
  unfolding set_mode
  set_mode-accepts known o = ground (arith, known, o)

  waited-switched :
      (m : MembershipState)
      → (s.mode == mode) ≡ false
      → (trigger_mode_change mode s).0.mode ≡ mode
      → 0 < k
      → HasWaited (switching k mode s) mode 10 m
      → m ≡ copy_of (trigger_mode_change mode s).0
  waited-switched m o t l (inl (left, _, same, e)) =
      same
      ∙ ap copy_of
          (switching-mode (suc left) o (sym (ap (λ (c : MembershipState). c.mode) same) ∙ e))
  waited-switched m o t l (inr (same, others)) =
      let there : leb 1 k ≡ true = le→leb 1 k l in
      let switched : (switching k mode s 1).mode ≡ mode = rw there t in
      absurd (
        other_mode (switching k mode s 1) (HasOthers-last (switching k mode s) mode 9 others)
          switched)

  -- A client that asks the metadata store for another known mode gets success and the membership of
  -- the new mode, under an epoch one above the old one, if the thread that makes the change is done
  -- by the last of the client's ten rounds and the store answers. (The epoch has room, and no
  -- reconfiguration is in progress.)
  pub set_cluster_mode-set_mode :
      (m : MembershipState)
      → known_mode mode ≡ true
      → (s.mode == mode) ≡ false
      → IsIdle s
      → s.epoch + 1 < 2 ^ 64
      → 0 < k
      → let s' = (trigger_mode_change mode s).0 in
        let (done, m') =
          set_cluster_mode
            (fetches_of (switching k mode s) mode)
            mode
            (some (set_mode mode s s).0)
            m in
        (done ≡ true) × (m' ≡ copy_of s') × (m'.mode ≡ mode) × (m'.epoch ≡ s.epoch + 1)
  set_cluster_mode-set_mode m known o i h l =
      let accepted = set_mode-accepts known o in
      let (done, waited) =
        set_cluster_mode-HasWaited (switching k mode s) mode (set_mode mode s s).0 m accepted in
      let (mode_is, epoch_is) = trigger_mode_change_lem i h in
      let same = waited-switched _ o mode_is l waited in
      (
        done,
        same,
        ap (λ (c : MembershipState). c.mode) same ∙ mode_is,
        ap (λ (c : MembershipState). c.epoch) same ∙ epoch_is,
      )
