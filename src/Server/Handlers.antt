-- ===== src/Server/Handlers.antt =====
-- The handlers of src/server/server.cpp and the epochs of the process.
use crown_kv.Common.{
  Bool-cases, inl, inr, ℕ, ◌≡◌, refl, arith, Bool, true, false, ltb, if◌then◌else◌, Option, none,
  some, Text, text_eq,
}
use crown_kv.Messages.{
  PutRequest, WriteAck, VersionQueryRequest, MembershipResponse, ReconfigureRequest,
}
use crown_kv.Replication.{Node}
use crown_kv.Replication.Retries.{retry_round}
use crown_kv.Server.{
  starting, normal, NodeState, Process, Mode, chain_mode, craq_mode, crown_mode, select_mode,
  selected, with_selected, retry_loop_round,
}
use crown_kv.Server.Gateway.{
  Query, node_of, with_node, handle_put, handle_ack, catch_up, forward_put as gateway_forward_put,
  put, get, send_write_ack, version_query, state_dump,
}
use crown_kv.Server.Reconfigure.{Peers, reconfigure}
use crown_kv.Server.Views.{view, view-gateway_put, view-gateway_ack, view-forward_all}
use crown_kv.Server.Next.{
  IsNext, IsNext-refl, IsNext-trans, with_selected-IsNext, catch_up-IsNext, apply_membership-IsNext,
}

pub with_node-IsNext :
    (mode : Mode) (n : Node) (p : Process)
    → view n.repl ≡ view (selected mode p)
    → IsNext p (with_node mode n p)
unfolding with_node selected
with_node-IsNext chain_mode n p e =
    with_selected-IsNext chain_mode n.repl (record p { kv = n.kv }) e
with_node-IsNext craq_mode n p e = with_selected-IsNext craq_mode n.repl (record p { kv = n.kv }) e
with_node-IsNext crown_mode n p e =
    with_selected-IsNext crown_mode n.repl (record p { kv = n.kv }) e

-- A handler that catches up and then lets an object handle the request.
pub serve-IsNext :
    (now : ℕ) (answer : Option MembershipResponse) (epoch : ℕ) (mode : Mode) (n : Node)
    (p : Process)
    → view n.repl ≡ view (selected mode (catch_up now answer epoch p))
    → IsNext p (with_node mode n (catch_up now answer epoch p))
serve-IsNext now answer epoch mode n p e =
    let p' = catch_up now answer epoch p in
    IsNext-trans p p' (with_node mode n p') (catch_up-IsNext now answer epoch p)
      (with_node-IsNext mode n p' e)

-- A conditional answer.
IsNext-answer :
    {R : Type 0} (b : Bool) (p : Process) (x y : Process × R)
    → IsNext p x.0
    → IsNext p y.0
    → IsNext p (if b then x else y).0
IsNext-answer true p x y f g = f
IsNext-answer false p x y f g = g

-- A choice by the mode that the process is in, and by its state.
IsNext-mode :
    {R : Type 0} (mode : Option Mode) (p : Process) (x : Process × R) (f : Mode → Process × R)
    → IsNext p x.0
    → ((m : Mode) → IsNext p (f m).0)
    → IsNext p (elim mode as (λ o. Process × R) [ none ↦ x | some m ↦ f m ]).0
IsNext-mode none p x f h k = h
IsNext-mode (some m) p x f h k = k m

IsNext-state :
    {R : Type 0} (s : NodeState) (p : Process) (x y : Process × R)
    → IsNext p x.0
    → IsNext p y.0
    → IsNext p (elim s as (λ o. Process × R) [ starting ↦ x | normal ↦ y ]).0
IsNext-state starting p x y h k = h
IsNext-state normal p x y h k = k

IsNext-choice :
    {R : Type 0} (m : Mode) (p : Process) (x y z : Process × R)
    → IsNext p x.0
    → IsNext p y.0
    → IsNext p z.0
    → IsNext p (elim m as (λ o. Process × R) [ chain_mode ↦ x | craq_mode ↦ y | crown_mode ↦ z ]).0
IsNext-choice chain_mode p x y z h k l = h
IsNext-choice craq_mode p x y z h k l = k
IsNext-choice crown_mode p x y z h k l = l

pub forward_put-IsNext :
    (now : ℕ) (answer : Option MembershipResponse) (q : PutRequest) (p : Process)
    → IsNext p (gateway_forward_put now answer q p).0
unfolding gateway_forward_put
forward_put-IsNext now answer q p =
    IsNext-mode (select_mode p.server.mode) p _ _ (IsNext-refl p) (λ mode.
      let n = node_of mode (catch_up now answer q.epoch p) in
      IsNext-answer (ltb q.epoch p.server.epoch) p _ _ (IsNext-refl p) (
        serve-IsNext now answer q.epoch mode (handle_put mode now q n).0 p
          (view-gateway_put mode now q n)))

pub get-IsNext :
    (now : ℕ) (answer : Option MembershipResponse) (query : Query) (key : Text) (epoch : ℕ)
    (p : Process)
    → IsNext p (get now answer query key epoch p).0
unfolding get
get-IsNext now answer query key epoch p =
    IsNext-mode (select_mode p.server.mode) p _ _ (IsNext-refl p) (λ mode.
      IsNext-answer (ltb epoch p.server.epoch) p _ _ (IsNext-refl p)
        (catch_up-IsNext now answer epoch p))

pub send_write_ack-IsNext :
    (now : ℕ) (answer : Option MembershipResponse) (ack : WriteAck) (p : Process)
    → IsNext p (send_write_ack now answer ack p).0
unfolding send_write_ack
send_write_ack-IsNext now answer ack p =
    IsNext-mode (select_mode p.server.mode) p _ _ (IsNext-refl p) (λ mode.
      let n = node_of mode (catch_up now answer ack.epoch p) in
      serve-IsNext now answer ack.epoch mode (handle_ack mode ack.request_id n) p
        (view-gateway_ack mode ack.request_id n))

pub version_query-IsNext :
    (now : ℕ) (answer : Option MembershipResponse) (q : VersionQueryRequest) (p : Process)
    → IsNext p (version_query now answer q p).0
unfolding version_query
version_query-IsNext now answer q p =
    let caught = catch_up-IsNext now answer q.epoch p in
    IsNext-answer (ltb q.epoch p.server.epoch) p _ _ (IsNext-refl p) (
      IsNext-mode (select_mode p.server.mode) p _ _ caught
        (λ m. IsNext-choice m p _ _ _ caught caught caught))

pub state_dump-IsNext :
    (now : ℕ) (answer : Option MembershipResponse) (epoch : ℕ) (p : Process)
    → IsNext p (state_dump now answer epoch p).0
unfolding state_dump
state_dump-IsNext now answer epoch p =
    IsNext-answer (ltb epoch p.server.epoch) p _ _ (IsNext-refl p)
      (catch_up-IsNext now answer epoch p)

pub retry_round-IsNext :
    (now : ℕ) (mode : Option Mode) (p : Process)
    → IsNext p (elim mode as (λ o. Process) [
      | none ↦ p
      | some m ↦ with_selected m (retry_round now (selected m p)).0 p
    ])
unfolding retry_round
retry_round-IsNext now none p = IsNext-refl p
retry_round-IsNext now (some m) p = with_selected-IsNext m _ p (view-forward_all now _ _ _)

pub retry_loop_round-IsNext : (now : ℕ) (p : Process) → IsNext p (retry_loop_round now p)
unfolding retry_loop_round
retry_loop_round-IsNext now p = retry_round-IsNext now (select_mode p.server.mode) p

-- The request is refused, or it installs its membership and makes the node NORMAL.
pub reconfigure-IsNext :
    (now : ℕ) (peers : Peers) (q : ReconfigureRequest) (p : Process)
    → IsNext p (reconfigure now peers q p).0
unfolding reconfigure
reconfigure-IsNext now peers q p = elim (Bool-cases (ltb q.epoch p.server.epoch)) [
  | inl e ↦ rw e (IsNext-refl p)
  | inr e ↦
      rw e (apply_membership-IsNext now q.mode (ltb p.server.epoch q.epoch) p _ (ground arith) refl)
]

pub put-IsNext :
    (now : ℕ) (answer : Option MembershipResponse) (q : PutRequest) (p : Process)
    → IsNext p (put now answer q p).0
unfolding put
put-IsNext now answer q p =
    IsNext-state p.server.state p _ _ (IsNext-refl p) (forward_put-IsNext now answer q p)
