-- ===== src/Server/Views.antt =====
-- The part of an object of src/replication/ that comes from the membership of the server.
use crown_kv.Common.{ℕ, ◌≡◌, refl, arith, ◌∙◌, Option, none, some, List, [], ◌∷◌, text_eq}
use crown_kv.Messages.{NodeInfo, PutRequest}
use crown_kv.Replication.{
  Stub, Replication, Node, ForwardTask, forward_put, enqueue_forward_task, send_ack,
}
use crown_kv.Replication.Retries.{forward_all}
use crown_kv.Apportioned.{Roles, acknowledge}
use crown_kv.Apportioned
use crown_kv.Chain
use crown_kv.Craq
use crown_kv.Crown
use crown_kv.Server.{Mode, chain_mode, craq_mode, crown_mode}
use crown_kv.Server.Gateway.{handle_put, handle_ack}

-- What an object keeps of the server's state: all but its pending acks and its queue.
pub record View : Type 0 where
  pub epoch : ℕ
  pub node_index : ℕ
  pub ring_size : ℕ
  pub membership : List NodeInfo
  pub prev_stub : Option Stub
  pub next_stub : Option Stub

abbrev pub view : Replication → View
view r = record {
  epoch = r.epoch;
  node_index = r.node_index;
  ring_size = r.ring_size;
  membership = r.membership;
  prev_stub = r.prev_stub;
  next_stub = r.next_stub;
}

pub view-enqueue : (t : ForwardTask) (r : Replication) → view (enqueue_forward_task t r) ≡ view r
unfolding enqueue_forward_task
view-enqueue t r = ground arith

pub view-forward_put :
    (now : ℕ) (q : PutRequest) (stub : Option Stub) (r : Replication)
    → view (forward_put now q stub r) ≡ view r
unfolding forward_put
view-forward_put now q none r = refl
view-forward_put now q (some stub) r = view-enqueue _ _

pub view-forward_all :
    (now : ℕ) (qs : List PutRequest) (stub : Option Stub) (r : Replication)
    → view (forward_all now qs stub r) ≡ view r
unfolding forward_all
view-forward_all now [] stub r = refl
view-forward_all now (q ∷ qs) stub r =
    view-forward_all now qs stub (forward_put now q stub r) ∙ view-forward_put now q stub r

pub view-send_ack :
    (q : PutRequest) (stub : Option Stub) (r : Replication) → view (send_ack q stub r) ≡ view r
unfolding send_ack
view-send_ack q (some stub) r = refl
view-send_ack q none r = ground arith

pub view-acknowledge : (q : PutRequest) (r : Replication) → view (acknowledge q r) ≡ view r
unfolding acknowledge send_ack
view-acknowledge q r = ground arith

pub view-apportioned_put :
    (roles : Roles) (now : ℕ) (q : PutRequest) (n : Node)
    → view (Apportioned.handle_put roles now q n).0.repl ≡ view n.repl
unfolding Apportioned.handle_put Apportioned.put_at_head Apportioned.put_versioned
view-apportioned_put roles now q n = grind (arith, view-acknowledge, view-forward_put)

pub view-apportioned_ack :
    (roles : Roles) (request_id : ℕ) (n : Node)
    → view (Apportioned.handle_ack roles request_id n).repl ≡ view n.repl
unfolding Apportioned.handle_ack
view-apportioned_ack roles request_id n = grind (arith, view-send_ack)

pub view-chain_put :
    (now : ℕ) (q : PutRequest) (n : Node) → view (Chain.handle_put now q n).0.repl ≡ view n.repl
unfolding Chain.handle_put Chain.put_at_head Chain.put_versioned
view-chain_put now q n = grind (arith, view-send_ack, view-forward_put)

pub view-chain_ack :
    (request_id : ℕ) (n : Node) → view (Chain.handle_ack request_id n).repl ≡ view n.repl
unfolding Chain.handle_ack
view-chain_ack request_id n = grind (arith, view-send_ack)

pub view-gateway_put :
    (mode : Mode) (now : ℕ) (q : PutRequest) (n : Node)
    → view (handle_put mode now q n).0.repl ≡ view n.repl
unfolding handle_put Craq.handle_put Crown.handle_put
view-gateway_put chain_mode now q n = view-chain_put now q n
view-gateway_put craq_mode now q n = view-apportioned_put Craq.roles now q n
view-gateway_put crown_mode now q n = view-apportioned_put Crown.roles now q n

pub view-gateway_ack :
    (mode : Mode) (request_id : ℕ) (n : Node)
    → view (handle_ack mode request_id n).repl ≡ view n.repl
unfolding handle_ack Craq.handle_ack Crown.handle_ack
view-gateway_ack chain_mode request_id n = view-chain_ack request_id n
view-gateway_ack craq_mode request_id n = view-apportioned_ack Craq.roles request_id n
view-gateway_ack crown_mode request_id n = view-apportioned_ack Crown.roles request_id n
