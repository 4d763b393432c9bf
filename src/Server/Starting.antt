-- ===== src/Server/Starting.antt =====
-- STARTING, the state of a server process of src/server/server.cpp before its first membership.
use crown_kv.Common.{
  ℕ, Text, Bool, ◌≡◌, refl, arith, ap, ◌∙◌, true, false, Option, none, some, List, [], ◌∷◌, ◌≤◌,
  ◌<◌, All,
}
use crown_kv.Messages.{NodeInfo, MembershipResponse, PutRequest, service_unavailable}
use crown_kv.Apportioned.{put_error}
use crown_kv.Server.{
  Mode, starting, Process, with_selected, chain_mode, craq_mode, crown_mode, select_mode,
  reforward_mode, apply_membership, refresh_membership_async, heartbeat_round,
}
use crown_kv.Server.Gateway.{put}

-- Rounds of the heartbeat loop: the master's epoch and what it answers to a refresh.
unfoldable pub heartbeats : ℕ → List (Option ℕ × Option MembershipResponse) → Process → Process
heartbeats now [] p = p
heartbeats now ((e, answer) ∷ l) p = heartbeats now l (heartbeat_round now e answer p)

pub reforward_mode-server :
    (now : ℕ) (mode : Option Mode) (p : Process) → (reforward_mode now mode p).server ≡ p.server
unfolding reforward_mode with_selected
reforward_mode-server now none p = refl
reforward_mode-server now (some chain_mode) p = refl
reforward_mode-server now (some craq_mode) p = refl
reforward_mode-server now (some crown_mode) p = refl

pub apply_membership-server :
    (now : ℕ) (membership : List NodeInfo) (node_id mode : Text) (epoch : ℕ) (b : Bool)
    (p : Process)
    → (apply_membership now membership node_id mode epoch b p).server ≡ p.server
unfolding apply_membership
apply_membership-server now membership node_id mode epoch true p =
    reforward_mode-server now (select_mode mode) _
apply_membership-server now membership node_id mode epoch false p = refl

refresh_membership_async-server :
    (now : ℕ) (m : MembershipResponse) (p : Process)
    → p.server.epoch < m.epoch
    → (refresh_membership_async now (some m) p).server
      ≡ record p.server { epoch = m.epoch; mode = m.mode; membership = m.membership }
unfolding refresh_membership_async
refresh_membership_async-server now m p h = ground (
  arith,
  h,
  apply_membership-server now m.membership p.server.node_id m.mode m.epoch true (record p {
    server = record p.server { epoch = m.epoch; mode = m.mode; membership = m.membership };
  }),
)

-- A heartbeat brings no epoch, or one up to this.
abbrev pub IsUpto : ℕ → Option ℕ × Option MembershipResponse → Type 0
IsUpto bound (none, answer) = Unit
IsUpto bound (some e, answer) = e ≤ bound

heartbeats-idle :
    (now bound : ℕ) (l : List (Option ℕ × Option MembershipResponse)) (p : Process)
    → p.server.epoch ≡ bound
    → All (IsUpto bound) l
    → heartbeats now l p ≡ p
unfolding heartbeats heartbeat_round
heartbeats-idle now bound [] p e b = refl
heartbeats-idle now bound ((none, answer) ∷ l) p e (h, b) = heartbeats-idle now bound l p e b
heartbeats-idle now bound ((some m, answer) ∷ l) p e (h, b) =
    ground (arith, e, h, heartbeats-idle now bound l p e b)

put-starting :
    (now : ℕ) (answer : Option MembershipResponse) (q : PutRequest) (p : Process)
    → p.server.state ≡ starting
    → put now answer q p ≡ (p, put_error service_unavailable)
unfolding put
put-starting now answer q p s = rw s

-- A process that is still STARTING when a request makes it fetch a newer membership stays so at the
-- membership's epoch: whatever heartbeats follow that bring no epoch beyond it, the process refuses
-- every write with SERVICE_UNAVAILABLE.
pub refresh_membership_async-strands :
    (now later : ℕ) (m : MembershipResponse) (p : Process)
    (l : List (Option ℕ × Option MembershipResponse)) (answer : Option MembershipResponse)
    (q : PutRequest)
    → p.server.state ≡ starting
    → p.server.epoch < m.epoch
    → All (IsUpto m.epoch) l
    → let p' = heartbeats now l (refresh_membership_async now (some m) p) in
      (p'.server.epoch ≡ m.epoch) × (put later answer q p' ≡ (p', put_error service_unavailable))
refresh_membership_async-strands now later m p l answer q s h b =
    let p1 = refresh_membership_async now (some m) p in
    let e1 = refresh_membership_async-server now m p h in
    let idle = heartbeats-idle now m.epoch l p1 (ap (λ t. t.epoch) e1) b in
    rw idle (ap (λ t. t.epoch) e1, put-starting later answer q p1 (ap (λ t. t.state) e1 ∙ s))
