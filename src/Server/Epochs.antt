-- ===== src/Server/Epochs.antt =====
-- The epochs of a process of src/server/server.cpp along any sequence of its calls and background
-- rounds.
use crown_kv.Common.{ℕ, ◌≡◌, ltb, Option, none, some, List, [], ◌∷◌, Text, text_eq, ◌≤◌}
use crown_kv.Messages.{
  PutRequest, WriteAck, VersionQueryRequest, MembershipResponse, ReconfigureRequest,
}
use crown_kv.Server.{Process, heartbeat_round, retry_loop_round}
use crown_kv.Server.Gateway.{
  Query, forward_put as gateway_forward_put, put, get, send_write_ack, version_query, state_dump,
}
use crown_kv.Server.Reconfigure.{Peers, reconfigure}
use crown_kv.Server.Next.{
  AreInstalled, IsNext, IsNext-refl, IsNext-trans, IsNext-if, refresh_membership-IsNext,
}
use crown_kv.Server.Handlers.{
  forward_put-IsNext, get-IsNext, send_write_ack-IsNext, version_query-IsNext, state_dump-IsNext,
  retry_loop_round-IsNext, reconfigure-IsNext, put-IsNext,
}

-- What happens to a process: requests of the gateway and of the metadata service, and rounds of the
-- two background loops.
pub data Event : Type 0 where
  put_event forward_event : ℕ → Option MembershipResponse → PutRequest → Event
  get_event : ℕ → Option MembershipResponse → Query → Text → ℕ → Event
  ack_event : ℕ → Option MembershipResponse → WriteAck → Event
  query_event : ℕ → Option MembershipResponse → VersionQueryRequest → Event
  dump_event : ℕ → Option MembershipResponse → ℕ → Event
  reconfigure_event : ℕ → Peers → ReconfigureRequest → Event
  heartbeat_event : ℕ → Option ℕ → Option MembershipResponse → Event
  retry_event : ℕ → Event

unfoldable pub step : Event → Process → Process
step (put_event now answer q) p = (put now answer q p).0
step (forward_event now answer q) p = (gateway_forward_put now answer q p).0
step (get_event now answer query key epoch) p = (get now answer query key epoch p).0
step (ack_event now answer ack) p = (send_write_ack now answer ack p).0
step (query_event now answer q) p = (version_query now answer q p).0
step (dump_event now answer epoch) p = (state_dump now answer epoch p).0
step (reconfigure_event now peers q) p = (reconfigure now peers q p).0
step (heartbeat_event now epoch answer) p = heartbeat_round now epoch answer p
step (retry_event now) p = retry_loop_round now p

unfoldable pub run : List Event → Process → Process
run [] p = p
run (e ∷ events) p = run events (step e p)

step-IsNext : (e : Event) (p : Process) → IsNext p (step e p)
unfolding step heartbeat_round
step-IsNext (put_event now answer q) p = put-IsNext now answer q p
step-IsNext (forward_event now answer q) p = forward_put-IsNext now answer q p
step-IsNext (get_event now answer query key epoch) p = get-IsNext now answer query key epoch p
step-IsNext (ack_event now answer ack) p = send_write_ack-IsNext now answer ack p
step-IsNext (query_event now answer q) p = version_query-IsNext now answer q p
step-IsNext (dump_event now answer epoch) p = state_dump-IsNext now answer epoch p
step-IsNext (reconfigure_event now peers q) p = reconfigure-IsNext now peers q p
step-IsNext (heartbeat_event now none answer) p = IsNext-refl p
step-IsNext (heartbeat_event now (some epoch) answer) p =
    IsNext-if (ltb p.server.epoch epoch) p _ p (λ e. refresh_membership-IsNext now answer p)
      (λ e. IsNext-refl p)
step-IsNext (retry_event now) p = retry_loop_round-IsNext now p

pub run-IsNext : (events : List Event) (p : Process) → IsNext p (run events p)
unfolding run
run-IsNext [] p = IsNext-refl p
run-IsNext (e ∷ events) p =
    IsNext-trans p (step e p) (run events (step e p)) (step-IsNext e p)
      (run-IsNext events (step e p))

-- The epoch of a process never falls, whatever requests and rounds of the background loops come in
-- whatever order; its id stays; and its three objects, which have the epoch, the ring and the
-- neighbours of the server's membership at the start, have those of its membership at the end.
pub run-epoch :
    (events : List Event) (p : Process)
    → AreInstalled p
    → let p' = run events p in
      (p.server.epoch ≤ p'.server.epoch) × (p'.server.node_id ≡ p.server.node_id) × AreInstalled p'
run-epoch events p h = let (e, i, f) = run-IsNext events p in (e, i, f h)
