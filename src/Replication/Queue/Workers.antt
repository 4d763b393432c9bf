-- ===== src/Replication/Queue/Workers.antt =====
-- The forward workers of src/replication/common/replication_common.cpp: `forward_worker_loop` in several
-- threads, and the callers of `enqueue_forward_task`.
use mathlib.Core.List.Permᴰ
use mathlib.Core.List.{Permᴰ, append_assoc, append-nil, map-append}
use crown_kv.Common.{
  ℕ, zero, suc, ◌≤◌, ◌≡◌, refl, sym, ◌∙◌, ap, inl, inr, arith, false, Bool-cases, ltb, Option, none,
  some, List, [], ◌∷◌, ◌++◌, map, length, length-append, ◌>>=◌,
}
use crown_kv.Replication.{
  Call, ForwardTask, Replication, max_forward_queue_size, wait_for_room, enqueue_forward_task,
  forward_worker_take, forward_worker_send, pick,
}
use crown_kv.Replication.Queue.{to_call, wait_for_room_lem}

-- What happens to the queue: a task is enqueued, a worker takes the task in front, or one of them
-- sends a task that it has taken.
pub data WorkerEvent : Type 0 where
  enqueues : ForwardTask → WorkerEvent
  takes : WorkerEvent
  sends : ℕ → WorkerEvent

unfoldable pub step : WorkerEvent → Replication → Replication
step (enqueues task) r = enqueue_forward_task task r
step takes r = forward_worker_take r
step (sends i) r = forward_worker_send i r

unfoldable pub run : List WorkerEvent → Replication → Replication
run [] r = r
run (e ∷ events) r = run events (step e r)

-- The tasks that are enqueued, in order.
abbrev pub enqueued : List WorkerEvent → List ForwardTask
enqueued [] = []
enqueued (enqueues task ∷ events) = task ∷ enqueued events
enqueued (takes ∷ events) = enqueued events
enqueued (sends i ∷ events) = enqueued events

-- What the workers have taken is a first part of what was queued followed by what was enqueued
-- then; what they have sent or still hold is, up to order, what it was before and this part.
abbrev pub HasWorked : Replication → List ForwardTask → Replication → Type 0
HasWorked r added r' =
    (picked : List ForwardTask) × (picked ++ r'.forward_queue ≡ r.forward_queue ++ added)
    × Permᴰ (r'.calls ++ map to_call r'.taken) (r.calls ++ map to_call (r.taken ++ picked))
    × (length r'.forward_queue ≤ max_forward_queue_size)

-- The task that is picked, and the others, are all of them.
abbrev IsPicked : List ForwardTask → Option (ForwardTask × List ForwardTask) → Type 0
IsPicked tasks none = Unit
IsPicked tasks (some (task, rest)) = Permᴰ (map to_call tasks) (to_call task ∷ map to_call rest)

pick-IsPicked : (i : ℕ) (tasks : List ForwardTask) → IsPicked tasks (pick i tasks)
unfolding pick
pick-IsPicked i [] = tt
pick-IsPicked zero (task ∷ tasks) = Permᴰ.refl (map to_call (task ∷ tasks))
pick-IsPicked (suc i) (task ∷ tasks) =
    elim (pick i tasks)
        as (λ o. IsPicked tasks o → IsPicked (task ∷ tasks) (o >>= λ p. some (p.0, task ∷ p.1))) [
          | none ↦ λ h. tt
          | some (t, rest) ↦ λ h. Permᴰ.trans (Permᴰ.cons refl h) (Permᴰ.swap refl refl)
        ]
      (pick-IsPicked i tasks)

take_all :
    (taken queue : List ForwardTask)
    → let (taken', queue') = wait_for_room taken queue in
      (picked : List ForwardTask) × (taken' ≡ taken ++ picked) × (picked ++ queue' ≡ queue)
unfolding wait_for_room
take_all taken [] = ([], sym (append-nil taken), refl)
take_all taken (task ∷ queue) =
    elim (Bool-cases (ltb (length (task ∷ queue)) max_forward_queue_size)) [
      | inl e ↦ rw e ([], sym (append-nil taken), refl)
      | inr e ↦
          let (picked, a, b) = take_all (taken ++ task ∷ []) queue in
          rw e (
            task ∷ picked,
            a ∙ append_assoc taken (task ∷ []) picked,
            ap (λ (l : List ForwardTask). task ∷ l) b,
          )
    ]

grown :
    (c c' : List Call) (t t' p : List ForwardTask)
    → Permᴰ (c' ++ map to_call t') (c ++ map to_call t)
    → Permᴰ (c' ++ map to_call (t' ++ p)) (c ++ map to_call (t ++ p))
grown c c' t t' p h =
    rw
      (
        map-append to_call t' p,
        map-append to_call t p,
        ← append_assoc c' (map to_call t') (map to_call p),
        ← append_assoc c (map to_call t) (map to_call p),
      )
      (Permᴰ.append_right (map to_call p) h)

HasWorked-trans :
    (r r' r'' : Replication) (added added' : List ForwardTask)
    → HasWorked r added r'
    → HasWorked r' added' r''
    → HasWorked r (added ++ added') r''
HasWorked-trans r r' r'' added added' (p, e, s, l) (p', e', s', l') = (
  p ++ p',
  append_assoc p p' r''.forward_queue
      ∙ ap (λ (x : List ForwardTask). p ++ x) e'
      ∙ sym (append_assoc p r'.forward_queue added')
      ∙ ap (λ (x : List ForwardTask). x ++ added') e
      ∙ append_assoc r.forward_queue added added',
  rw (← append_assoc r.taken p p')
      (Permᴰ.trans s' (grown r.calls r'.calls (r.taken ++ p) r'.taken p' s)),
  l',
)

idle : (r : Replication) → length r.forward_queue ≤ max_forward_queue_size → HasWorked r [] r
idle r l = ([], sym (append-nil r.forward_queue), rw (append-nil r.taken) (Permᴰ.refl _), l)

by_queue :
    (r : Replication)
    → length r.forward_queue ≤ max_forward_queue_size
    → (q : List ForwardTask) → r.forward_queue ≡ q
    → HasWorked r [] (forward_worker_take r)
unfolding forward_worker_take
by_queue r l [] e = let same : forward_worker_take r ≡ r = ground (arith, e) in rw same (idle r l)
by_queue r l (task ∷ queue) e =
    rw (e, forward_worker_take)
      (
        task ∷ [],
        sym (append-nil (task ∷ queue)),
        Permᴰ.refl _,
        omega (arith, l, ap (λ (q : List ForwardTask). length q) e),
      )

step-HasWorked :
    (e : WorkerEvent) (r : Replication)
    → r.forward_shutdown ≡ false
    → length r.forward_queue ≤ max_forward_queue_size
    → HasWorked r (enqueued (e ∷ [])) (step e r)
unfolding step enqueue_forward_task forward_worker_take forward_worker_send
step-HasWorked (enqueues task) r h l =
    let (picked, a, b) = take_all r.taken r.forward_queue in
    let (taken, queue) = wait_for_room r.taken r.forward_queue in
    let w = wait_for_room_lem r.taken r.forward_queue in
    rw h (
      picked,
      sym (append_assoc picked queue (task ∷ [])) ∙ ap (λ (x : List ForwardTask). x ++ task ∷ []) b,
      rw a (Permᴰ.refl _),
      omega (arith, length-append queue (task ∷ []), w.1),
    )
step-HasWorked takes r h l = by_queue r l r.forward_queue refl
step-HasWorked (sends i) r h l =
    elim (pick i r.taken)
        as (λ o.
          IsPicked r.taken o
          → HasWorked r [] (elim o [
            | none ↦ r
            | some (task, rest) ↦ record r { taken = rest; calls = r.calls ++ to_call task ∷ [] }
          ])) [
            | none ↦ λ p. idle r l
            | some (task, rest) ↦ λ p. (
              [],
              sym (append-nil r.forward_queue),
              rw (append-nil r.taken, append_assoc r.calls (to_call task ∷ []) (map to_call rest))
                  (Permᴰ.append_left r.calls (Permᴰ.symm p)),
              l,
            )
          ]
      (pick-IsPicked i r.taken)

step-forward_shutdown :
    (e : WorkerEvent) (r : Replication) → (step e r).forward_shutdown ≡ r.forward_shutdown
unfolding step enqueue_forward_task forward_worker_take forward_worker_send
step-forward_shutdown (enqueues task) r = ground arith
step-forward_shutdown takes r = ground arith
step-forward_shutdown (sends i) r = ground arith

enqueued-cons :
    (e : WorkerEvent) (events : List WorkerEvent)
    → enqueued (e ∷ []) ++ enqueued events ≡ enqueued (e ∷ events)
enqueued-cons (enqueues task) events = refl
enqueued-cons takes events = refl
enqueued-cons (sends i) events = refl

-- In whatever order tasks are enqueued, workers take tasks and workers send what they have taken:
-- the tasks that the workers have taken are a first part of what was queued followed by what was
-- enqueued then; what is sent or still held by a worker is, up to order, what it was before and
-- this part, so no task is lost or sent twice; and the queue stays within its limit. The node is
-- not shutting down and the queue is within its limit at the start.
pub run-HasWorked :
    (events : List WorkerEvent) (r : Replication)
    → r.forward_shutdown ≡ false
    → length r.forward_queue ≤ max_forward_queue_size
    → HasWorked r (enqueued events) (run events r)
unfolding run
run-HasWorked [] r h l = idle r l
run-HasWorked (e ∷ events) r h l =
    let one = step-HasWorked e r h l in
    let rest = run-HasWorked events (step e r) (step-forward_shutdown e r ∙ h) one.3 in
    rw (← enqueued-cons e events) (
      HasWorked-trans r (step e r) (run events (step e r)) (enqueued (e ∷ [])) (enqueued events) one
        rest)
