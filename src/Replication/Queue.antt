-- ===== src/Replication/Queue.antt =====
-- The forward queue of src/replication/common/replication_common.cpp, and its workers.
pub mod Workers
use mathlib.Core.List.{append_assoc, map-append}
use crown_kv.Common.{
  ◌≤◌, ◌<◌, ◌≡◌, refl, sym, ◌∙◌, ap, inl, inr, arith, false, Bool-cases, ltb, ltb→lt, List, [], ◌∷◌,
  ◌++◌, map, length, length-append,
}
use crown_kv.Replication.{
  Call, put_call, ForwardTask, Replication, max_forward_queue_size, wait_for_room,
  enqueue_forward_task, forward_worker_take,
}

abbrev pub to_call : ForwardTask → Call
to_call task = put_call task.stub task.request

-- What is to be sent: what the workers have taken, and after it the queue.
abbrev pub unsent : Replication → List ForwardTask
unsent r = r.taken ++ r.forward_queue

-- What was handed to gRPC, and after it what the workers will send.
abbrev pub outgoing : Replication → List Call
outgoing r = r.calls ++ map to_call (unsent r)

pub wait_for_room_lem :
    (taken queue : List ForwardTask)
    → let (taken', queue') = wait_for_room taken queue in
      (taken' ++ queue' ≡ taken ++ queue) × (length queue' < max_forward_queue_size)
unfolding wait_for_room
wait_for_room_lem taken [] = (refl, omega arith)
wait_for_room_lem taken (task ∷ queue) =
    elim (Bool-cases (ltb (length (task ∷ queue)) max_forward_queue_size)) [
      | inl e ↦ rw e (refl, ltb→lt _ _ e)
      | inr e ↦
          let ih = wait_for_room_lem (taken ++ task ∷ []) queue in
          rw e (ih.0 ∙ append_assoc taken (task ∷ []) queue, ih.1)
    ]

-- The wait loses nothing, and what is enqueued then comes last.
pub wait_for_room-enqueue :
    (task : ForwardTask) (r : Replication)
    → let (taken, queue) = wait_for_room r.taken r.forward_queue in
      taken ++ (queue ++ task ∷ []) ≡ unsent r ++ task ∷ []
wait_for_room-enqueue task r =
    let (taken, queue) = wait_for_room r.taken r.forward_queue in
    sym (append_assoc taken queue (task ∷ []))
    ∙ ap (λ (l : List ForwardTask). l ++ task ∷ []) (wait_for_room_lem r.taken r.forward_queue).0

pub enqueue_forward_task-unsent :
    (task : ForwardTask) (r : Replication)
    → r.forward_shutdown ≡ false
    → let r' = enqueue_forward_task task r in
      (r'.calls ≡ r.calls)
      × (unsent r' ≡ unsent r ++ task ∷ [])
      × (length r'.forward_queue ≤ max_forward_queue_size)
unfolding enqueue_forward_task
enqueue_forward_task-unsent task r h =
    let w = wait_for_room_lem r.taken r.forward_queue in
    let (taken, queue) = wait_for_room r.taken r.forward_queue in
    rw h (refl, wait_for_room-enqueue task r, omega (arith, length-append queue (task ∷ []), w.1))

pub enqueue_forward_task-outgoing :
    (task : ForwardTask) (r : Replication)
    → r.forward_shutdown ≡ false
    → outgoing (enqueue_forward_task task r) ≡ outgoing r ++ to_call task ∷ []
enqueue_forward_task-outgoing task r h =
    let (c, u, _) = enqueue_forward_task-unsent task r h in
    rw (c, u, map-append) (sym (append_assoc r.calls (map to_call (unsent r)) (to_call task ∷ [])))

-- A worker that takes a task changes only the task's place.
pub forward_worker_take-unsent :
    (r : Replication)
    → let r' = forward_worker_take r in
      (r'.calls ≡ r.calls)
      × (unsent r' ≡ unsent r)
      × (r'.pending_acks ≡ r.pending_acks)
      × ((r'.node_index ≡ r.node_index)
          × (r'.ring_size ≡ r.ring_size)
          × (r'.membership ≡ r.membership)
          × (r'.next_stub ≡ r.next_stub))
unfolding forward_worker_take
forward_worker_take-unsent r = by_queue r.forward_queue refl
  where
    by_queue :
        (q : List ForwardTask)
        → r.forward_queue ≡ q
        → let r' = forward_worker_take r in
          (r'.calls ≡ r.calls)
          × (unsent r' ≡ unsent r)
          × (r'.pending_acks ≡ r.pending_acks)
          × ((r'.node_index ≡ r.node_index)
              × (r'.ring_size ≡ r.ring_size)
              × (r'.membership ≡ r.membership)
              × (r'.next_stub ≡ r.next_stub))
    by_queue [] e =
        rw (e, forward_worker_take)
          (refl, ap (λ (q : List ForwardTask). r.taken ++ q) e, refl, (refl, refl, refl, refl))
    by_queue (task ∷ queue) e =
        rw (e, forward_worker_take)
          (refl, append_assoc r.taken (task ∷ []) queue, refl, (refl, refl, refl, refl))
