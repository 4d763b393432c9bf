-- ===== src/Server/Next.antt =====
-- The installation of memberships of src/server/server.cpp, and the order of epochs.
use crown_kv.Common.{
  ℕ, ◌≡◌, refl, arith, ap, ◌∙◌, Bool, true, false, ltb, leb, if◌then◌else◌, Option, none, some,
  Text, text_eq, ◌≤◌,
}
use crown_kv.Messages.{MembershipResponse}
use crown_kv.Replication.{set_epoch, Replication}
use crown_kv.Membership.{update_membership}
use crown_kv.Server.Starting.{apply_membership-server}
use crown_kv.Server.{
  Process, ServerState, Mode, chain_mode, craq_mode, crown_mode, select_mode, selected,
  with_selected, reforward, reforward_mode, install, apply_membership, refresh_membership,
  refresh_membership_async,
}
use crown_kv.Server.Gateway.{catch_up}
use crown_kv.Server.Views.{view, view-forward_all}

-- An object has the server's epoch, membership and place.
abbrev pub IsInstalled : ServerState → Replication → Type 0
IsInstalled s r = view r ≡ view (install s.membership s.node_id s.epoch r)

abbrev pub AreInstalled : Process → Type 0
AreInstalled p =
    IsInstalled p.server p.chain × IsInstalled p.server p.craq × IsInstalled p.server p.crown

-- The epoch of the process does not fall, its id stays, and its objects stay installed.
abbrev pub IsNext : Process → Process → Type 0
IsNext p p' =
    (p.server.epoch ≤ p'.server.epoch)
    × (p'.server.node_id ≡ p.server.node_id)
    × (AreInstalled p → AreInstalled p')

pub IsNext-refl : (p : Process) → IsNext p p
IsNext-refl p = ground arith

pub IsNext-trans : (p p' p'' : Process) → IsNext p p' → IsNext p' p'' → IsNext p p''
IsNext-trans p p' p'' (e, i, f) (e', i', f') = (ground arith, i' ∙ i, λ h. f' (f h))

pub IsInstalled-view :
    (s : ServerState) (r r' : Replication) → view r' ≡ view r → IsInstalled s r → IsInstalled s r'
unfolding install update_membership set_epoch
IsInstalled-view s r r' e h = e ∙ h

pub with_selected-IsNext :
    (mode : Mode) (r : Replication) (p : Process)
    → view r ≡ view (selected mode p)
    → IsNext p (with_selected mode r p)
unfolding with_selected selected
with_selected-IsNext chain_mode r p e =
    (ground arith, refl, λ h. (IsInstalled-view p.server p.chain r e h.0, h.1, h.2))
with_selected-IsNext craq_mode r p e =
    (ground arith, refl, λ h. (h.0, IsInstalled-view p.server p.craq r e h.1, h.2))
with_selected-IsNext crown_mode r p e =
    (ground arith, refl, λ h. (h.0, h.1, IsInstalled-view p.server p.crown r e h.2))

pub view-reforward : (now : ℕ) (r : Replication) → view (reforward now r) ≡ view r
unfolding reforward
view-reforward now r = grind (arith, view-forward_all)

pub reforward_mode-IsNext :
    (now : ℕ) (mode : Option Mode) (p : Process) → IsNext p (reforward_mode now mode p)
unfolding reforward_mode
reforward_mode-IsNext now none p = IsNext-refl p
reforward_mode-IsNext now (some mode) p =
    with_selected-IsNext mode (reforward now (selected mode p)) p
      (view-reforward now (selected mode p))

-- A membership that is the server's is installed in every object.
pub apply_membership-AreInstalled :
    (now : ℕ) (mode : Text) (b : Bool) (p : Process)
    → AreInstalled
        (apply_membership now p.server.membership p.server.node_id mode p.server.epoch b p)
unfolding apply_membership install update_membership set_epoch
apply_membership-AreInstalled now mode false p = (refl, refl, refl)
apply_membership-AreInstalled now mode true p =
    (reforward_mode-IsNext now (select_mode mode) _).2 (refl, refl, refl)

-- A newer membership replaces the server's, with its epoch, and is installed.
pub apply_membership-IsNext :
    (now : ℕ) (mode : Text) (b : Bool) (p p' : Process)
    → p.server.epoch ≤ p'.server.epoch
    → p'.server.node_id ≡ p.server.node_id
    → IsNext p
        (apply_membership now p'.server.membership p'.server.node_id mode p'.server.epoch b p')
apply_membership-IsNext now mode b p p' e i =
    let s = p'.server in
    let same = apply_membership-server now s.membership s.node_id mode s.epoch b p' in
    (rw same e, ap (λ t. t.node_id) same ∙ i, λ h. apply_membership-AreInstalled now mode b p')

-- A conditional, whose test may be assumed in its branches.
pub IsNext-if :
    (b : Bool) (p x y : Process)
    → (b ≡ true → IsNext p x)
    → (b ≡ false → IsNext p y)
    → IsNext p (if b then x else y)
IsNext-if true p x y f g = f refl
IsNext-if false p x y f g = g refl

pub refresh_membership_async-IsNext :
    (now : ℕ) (answer : Option MembershipResponse) (p : Process)
    → IsNext p (refresh_membership_async now answer p)
unfolding refresh_membership_async
refresh_membership_async-IsNext now none p = IsNext-refl p
refresh_membership_async-IsNext now (some m) p =
    IsNext-if (leb m.epoch p.server.epoch) p p _ (λ e. IsNext-refl p)
      (λ e. apply_membership-IsNext now m.mode true p _ (ground arith) refl)

pub refresh_membership-IsNext :
    (now : ℕ) (answer : Option MembershipResponse) (p : Process)
    → IsNext p (refresh_membership now answer p)
unfolding refresh_membership
refresh_membership-IsNext now none p = IsNext-refl p
refresh_membership-IsNext now (some m) p =
    IsNext-if (ltb m.epoch p.server.epoch) p p _ (λ e. IsNext-refl p)
      (λ e. apply_membership-IsNext now m.mode (ltb p.server.epoch m.epoch) p _ (ground arith) refl)

pub catch_up-IsNext :
    (now : ℕ) (answer : Option MembershipResponse) (epoch : ℕ) (p : Process)
    → IsNext p (catch_up now answer epoch p)
unfolding catch_up
catch_up-IsNext now answer epoch p =
    IsNext-if (ltb p.server.epoch epoch) p _ p (λ e. refresh_membership_async-IsNext now answer p)
      (λ e. IsNext-refl p)
