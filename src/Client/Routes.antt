-- ===== src/Client/Routes.antt =====
-- The node that src/client/client.cpp sends a write to, and what that node says.
use crown_kv.Common.{
  ℕ, ◌<◌, ◌≡◌, ◌≢◌, refl, sym, ap, ◌∙◌, arith, true, false, ltb, Option, some, Text, text_eq, pos,
  length, get_elem?-lt,
}
use crown_kv.Messages.{PutRequest, MembershipResponse}
use crown_kv.Ring.{head_index}
use crown_kv.Replication.{Node, Replication, set_epoch}
use crown_kv.Membership.{update_membership}
use crown_kv.Membership.Neighbours.{IsFirst, index_of-IsFirst}
use crown_kv.Apportioned.{Roles}
use crown_kv.Apportioned
use crown_kv.Chain
use crown_kv.Craq
use crown_kv.Crown
use crown_kv.Server.{
  normal, Process, ServerState, Mode, chain_mode, craq_mode, crown_mode, select_mode, selected,
  install,
}
use crown_kv.Server.Gateway.{node_of, handle_put, catch_up, forward_put, put}
use crown_kv.Server.Views.{View}
use crown_kv.Server.Next.{IsInstalled, AreInstalled}
use crown_kv.Server.Stale.{put_normal}
use crown_kv.Client.{MembershipState, select_write_node_index}

-- Where the nodes place the head of a key.
abbrev pub head_of : Mode → Text → ℕ → ℕ
head_of chain_mode key ring_size = 0
head_of craq_mode key ring_size = 0
head_of crown_mode key ring_size = head_index key ring_size

-- The client sends a write to the place where the nodes of the mode expect it.
pub select_write_node_index-head_of :
    (membership : MembershipState) (key : Text) (mode : Mode)
    → 0 < length membership.members
    → select_mode membership.mode ≡ some mode
    → select_write_node_index membership key ≡ pos (head_of mode key (length membership.members))
unfolding select_write_node_index select_mode
select_write_node_index-head_of membership key mode h e = ground (arith, e)

-- An object of a process that has joined, at the place of the process.
pub object_place :
    (s : ServerState) (r : Replication) (i : ℕ)
    → IsInstalled s r
    → IsFirst s.node_id s.membership i
    → (r.node_index ≡ i) × (r.ring_size ≡ length s.membership)
unfolding install update_membership set_epoch
object_place s r i e f = (
  ap (λ (v : View). v.node_index) e ∙ index_of-IsFirst s.node_id s.membership i f,
  ap (λ (v : View). v.ring_size) e,
)

pub object_epoch :
    (s : ServerState) (r : Replication)
    → IsInstalled s r
    → (r.epoch ≡ s.epoch) × (r.membership ≡ s.membership)
unfolding install update_membership set_epoch
object_epoch s r e = (ap (λ (v : View). v.epoch) e, ap (λ (v : View). v.membership) e)

apportioned_accepts :
    (roles : Roles) (now : ℕ) (q : PutRequest) (n : Node)
    → q.version ≡ 0
    → n.repl.ring_size ≢ 0
    → n.repl.node_index ≡ roles.head q.key n.repl.ring_size
    → (Apportioned.handle_put roles now q n).1.success ≡ true
unfolding Apportioned.handle_put Apportioned.put_at_head
apportioned_accepts roles now q n v r i = ground arith

chain_accepts :
    (now : ℕ) (q : PutRequest) (n : Node)
    → q.version ≡ 0
    → n.repl.ring_size ≢ 0
    → n.repl.node_index ≡ 0
    → (Chain.handle_put now q n).1.success ≡ true
unfolding Chain.handle_put Chain.put_at_head
chain_accepts now q n v r i = ground arith

handle_put-accepts :
    (mode : Mode) (now : ℕ) (q : PutRequest) (n : Node)
    → q.version ≡ 0
    → n.repl.ring_size ≢ 0
    → n.repl.node_index ≡ head_of mode q.key n.repl.ring_size
    → (handle_put mode now q n).1.success ≡ true
unfolding handle_put Craq.handle_put Crown.handle_put
handle_put-accepts chain_mode now q n = chain_accepts now q n
handle_put-accepts craq_mode now q n = apportioned_accepts Craq.roles now q n
handle_put-accepts crown_mode now q n = apportioned_accepts Crown.roles now q n

pub selected-IsInstalled :
    (mode : Mode) (p : Process) → AreInstalled p → IsInstalled p.server (selected mode p)
unfolding selected
selected-IsInstalled chain_mode p h = h.0
selected-IsInstalled craq_mode p h = h.1
selected-IsInstalled crown_mode p h = h.2

-- The process at a place of the ring.
abbrev pub IsPlaced : Process → ℕ → Type 0
IsPlaced p i = IsFirst p.server.node_id p.server.membership i

forward_put-now :
    (now : ℕ) (answer : Option MembershipResponse) (q : PutRequest) (mode : Mode) (p : Process)
    → q.epoch ≡ p.server.epoch
    → select_mode p.server.mode ≡ some mode
    → (forward_put now answer q p).1 ≡ (handle_put mode now q (node_of mode p)).1
unfolding forward_put catch_up
forward_put-now now answer q mode p e m =
    let fresh : ltb q.epoch p.server.epoch ≡ false = ground (arith, e) in
    let known : ltb p.server.epoch q.epoch ≡ false = ground (arith, e) in
    rw (m, forward_put) (rw (fresh, known) refl)

-- The process at that place accepts the write.
pub put-head_of :
    (now : ℕ) (answer : Option MembershipResponse) (q : PutRequest) (mode : Mode) (p : Process)
    → p.server.state ≡ normal
    → AreInstalled p
    → select_mode p.server.mode ≡ some mode
    → q.epoch ≡ p.server.epoch
    → q.version ≡ 0
    → IsPlaced p (head_of mode q.key (length p.server.membership))
    → (put now answer q p).1.success ≡ true
put-head_of now answer q mode p n a m e v f =
    let (place, size) =
      object_place p.server (selected mode p) _ (selected-IsInstalled mode p a) f in
    let (node, at, _) = f.found in
    let some_nodes = get_elem?-lt p.server.membership _ at in
    rw (put_normal now answer q p n, forward_put-now now answer q mode p e m)
      (handle_put-accepts mode now q (node_of mode p) v (omega (arith, size, some_nodes))
        (place ∙ ap (head_of mode q.key) (sym size)))
