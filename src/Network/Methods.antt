-- ===== src/Network/Methods.antt =====
-- The methods of src/replication/common/replication_common.cpp send and stage only what is sound.
use mathlib.Core.Path.{subst}
use mathlib.Core.List.{map-append}
use crown_kv.Common.{
  ℕ, ℤ, zero, suc, ◌>>=◌, inl, inr, refl, sym, Bool-cases, true, false, none, some, Option, List,
  [], ◌∷◌, ◌++◌, Text, text_eq, nat_eq, if◌then◌else◌, ltb, leb, All, All-append, append-All,
  All-assign, All-erase, Map, find, length, map,
}
use crown_kv.Messages.{PutRequest, NodeInfo}
use crown_kv.Address.{parse_host_port}
use crown_kv.Ring.{next_index}
use crown_kv.KvStore.{KvStore}
use crown_kv.Replication.{
  Stub, Call, write_ack_call, commit_ack_call, PendingEntry, ForwardTask, Replication, restage,
  add_to_pending_acks, erase_pending_ack, collect_expired_requests, max_retry_count,
  forward_worker_take, forward_worker_send, pick, enqueue_forward_task, forward_put, send_ack,
  wait_for_room,
}
use crown_kv.Replication.Queue.{to_call, unsent, wait_for_room-enqueue, forward_worker_take-unsent}
use crown_kv.Replication.Retries.{forward_all, retry_round}
use crown_kv.Apportioned.{Roles, acknowledge}
use crown_kv.Network.{Write, write_of, IsAt}
use crown_kv.Network.Traffic.{IsSettled, IsCarried, IsSound, IsAwaited, HasSound, IsPlaced-same}

module _ (roles : Roles) (members : List NodeInfo) (stores : ℕ → KvStore) (issued : List Write)
    (i : ℕ) where
  -- A call that is sound is logged.
  HasSound-call :
      (r : Replication) (c : Call)
      → IsSound roles members stores issued i c
      → HasSound roles members stores issued i r
      → HasSound roles members stores issued i (record r { calls = r.calls ++ c ∷ [] })
  HasSound-call r c s h = record {
    placed = IsPlaced-same members i r _ (refl, refl, refl, refl) h.placed;
    calls = All-append (IsSound roles members stores issued i) r.calls (c ∷ []) h.calls (s, tt);
    queue = h.queue;
    pending = h.pending;
  }

  pub HasSound-send_ack :
      (q : PutRequest) (stub : Option Stub) (r : Replication)
      → IsSettled roles members stores issued (write_of q)
      → HasSound roles members stores issued i r
      → HasSound roles members stores issued i (send_ack q stub r)
  unfolding send_ack
  HasSound-send_ack q (some stub) r s h =
      HasSound-call r (write_ack_call stub _) (write_of q, s, refl, refl, refl) h
  HasSound-send_ack q none r s h =
      elim (parse_host_port q.client_addr)
        as (λ o. HasSound roles members stores issued i (sent o)) [
          | none ↦ h
          | some x ↦ HasSound-call r (commit_ack_call _ _) (write_of q, s, refl, refl) h
        ]
    where
      sent : Option (Text × ℤ) → Replication
      sent none = r
      sent (some x) = record r {
        calls =
            r.calls
            ++ commit_ack_call q.client_addr (record { key = q.key; version = q.version }) ∷ [];
      }

  pub HasSound-acknowledge :
      (q : PutRequest) (r : Replication)
      → IsSettled roles members stores issued (write_of q)
      → HasSound roles members stores issued i r
      → HasSound roles members stores issued i (acknowledge q r)
  unfolding acknowledge
  HasSound-acknowledge q r s h =
      elim r.prev_stub as (λ o. HasSound roles members stores issued i (acknowledged o)) [
        | none ↦ HasSound-send_ack q none r s h
        | some prev ↦
            HasSound-send_ack q none (send_ack q (some prev) r) s
              (HasSound-send_ack q (some prev) r s h)
      ]
    where
      acknowledged : Option Stub → Replication
      acknowledged none = send_ack q none r
      acknowledged (some prev) = send_ack q none (send_ack q (some prev) r)

  pub HasSound-erase_pending_ack :
      (id : ℕ) (r : Replication)
      → HasSound roles members stores issued i r
      → HasSound roles members stores issued i
          (record r { pending_acks = erase_pending_ack id r.pending_acks })
  unfolding erase_pending_ack
  HasSound-erase_pending_ack id r h = record {
    placed = IsPlaced-same members i r _ (refl, refl, refl, refl) h.placed;
    calls = h.calls;
    queue = h.queue;
    pending = All-erase (IsAwaited roles members stores issued i) id r.pending_acks h.pending;
  }

  HasSound-enqueue_forward_task :
      (task : ForwardTask) (r : Replication)
      → IsSound roles members stores issued i (to_call task)
      → HasSound roles members stores issued i r
      → HasSound roles members stores issued i (enqueue_forward_task task r)
  unfolding enqueue_forward_task
  HasSound-enqueue_forward_task task r s h =
      elim r.forward_shutdown
        as (λ b. HasSound roles members stores issued i (if b then r else enqueued)) [
          | true ↦ h
          | false ↦ record {
            placed = IsPlaced-same members i r _ (refl, refl, refl, refl) h.placed;
            calls = h.calls;
            queue =
                rw (wait_for_room-enqueue task r, map-append)
                  (All-append P (map to_call (unsent r)) _ h.queue (s, tt));
            pending = h.pending;
          }
        ]
    where
      P : Call → Type 0
      P = IsSound roles members stores issued i

      w : List ForwardTask × List ForwardTask
      w = wait_for_room r.taken r.forward_queue

      enqueued : Replication
      enqueued = record r { taken = w.0; forward_queue = w.1 ++ task ∷ [] }

  pub HasSound-forward_put :
      (now : ℕ) (q : PutRequest) (stub : Stub) (r : Replication)
      → IsAt members (next_index (length members) i) stub
      → IsCarried roles members stores issued i q
      → HasSound roles members stores issued i r
      → HasSound roles members stores issued i (forward_put now q (some stub) r)
  unfolding forward_put add_to_pending_acks
  HasSound-forward_put now q stub r at s h =
      HasSound-enqueue_forward_task _ _ (at, s)
        (record {
          placed = IsPlaced-same members i r _ (refl, refl, refl, refl) h.placed;
          calls = h.calls;
          queue = h.queue;
          pending =
              All-assign (IsAwaited roles members stores issued i) q.request_id _ r.pending_acks
                (awaited (find q.request_id r.pending_acks)) h.pending;
        })
    where
      awaited :
          (o : Option PendingEntry)
          → IsAwaited roles members stores issued i
              (q.request_id, restage now (record q { epoch = r.epoch }) o)
      awaited none = (refl, s)
      awaited (some entry) = (refl, s)

  pub HasSound-forward_worker_take :
      (r : Replication)
      → HasSound roles members stores issued i r
      → HasSound roles members stores issued i (forward_worker_take r)
  HasSound-forward_worker_take r h =
      let (c, u, p, same) = forward_worker_take-unsent r in
      record {
        placed = IsPlaced-same members i r _ same h.placed;
        calls = rw c h.calls;
        queue = rw u h.queue;
        pending = rw p h.pending;
      }

  pub HasSound-forward_worker_send :
      (k : ℕ) (r : Replication)
      → HasSound roles members stores issued i r
      → HasSound roles members stores issued i (forward_worker_send k r)
  unfolding forward_worker_send pick
  HasSound-forward_worker_send k r h =
      elim (pick k r.taken)
          as (λ o. ArePicked o → HasSound roles members stores issued i (sent o)) [
            | none ↦ λ s. h
            | some (task, rest) ↦ λ s. record {
              placed = IsPlaced-same members i r _ (refl, refl, refl, refl) h.placed;
              calls = All-append P r.calls _ h.calls (s.0, tt);
              queue = rw map-append (All-append P (map to_call rest) _ s.1 parts.1);
              pending = h.pending;
            }
          ]
        (picked k r.taken parts.0)
    where
      P : Call → Type 0
      P = IsSound roles members stores issued i

      ArePicked : Option (ForwardTask × List ForwardTask) → Type 0
      ArePicked none = Unit
      ArePicked (some (task, rest)) = P (to_call task) × All P (map to_call rest)

      picked :
          (j : ℕ) (tasks : List ForwardTask) → All P (map to_call tasks) → ArePicked (pick j tasks)
      picked j [] a = tt
      picked zero (task ∷ tasks) a = a
      picked (suc j) (task ∷ tasks) a =
          elim (pick j tasks)
              as (λ o. ArePicked o → ArePicked (o >>= λ p. some (p.0, task ∷ p.1))) [
                | none ↦ λ b. tt
                | some (t, rest) ↦ λ b. (b.0, (a.0, b.1))
              ]
            (picked j tasks a.1)

      sent : Option (ForwardTask × List ForwardTask) → Replication
      sent none = r
      sent (some (task, rest)) = record r { taken = rest; calls = r.calls ++ to_call task ∷ [] }

      parts : All P (map to_call r.taken) × All P (map to_call r.forward_queue)
      parts =
          append-All P (map to_call r.taken) (map to_call r.forward_queue)
            (rw (← map-append) h.queue)

  HasSound-forward_all :
      (now : ℕ) (qs : List PutRequest) (stub : Stub) (r : Replication)
      → IsAt members (next_index (length members) i) stub
      → All (IsCarried roles members stores issued i) qs
      → HasSound roles members stores issued i r
      → HasSound roles members stores issued i (forward_all now qs (some stub) r)
  unfolding forward_all
  HasSound-forward_all now [] stub r at s h = h
  HasSound-forward_all now (q ∷ qs) stub r at s h =
      HasSound-forward_all now qs stub (forward_put now q (some stub) r) at s.1
        (HasSound-forward_put now q stub r at s.0 h)

  collect_sound :
      (now : ℕ) (m : Map ℕ PendingEntry)
      → All (IsAwaited roles members stores issued i) m
      → let (m', expired) = collect_expired_requests now m in
        All (IsAwaited roles members stores issued i) m'
        × All (IsCarried roles members stores issued i) expired
  unfolding collect_expired_requests
  collect_sound now [] h = (tt, tt)
  collect_sound now ((id, entry) ∷ m) h =
      let ih = collect_sound now m h.1 in
      elim (Bool-cases (ltb now entry.deadline)) [
        | inl e ↦ rw e ((h.0, ih.0), ih.1)
        | inr e ↦ elim (Bool-cases (leb max_retry_count entry.retry_count)) [
          | inl f ↦ rw (e, f) ((h.0, ih.0), ih.1)
          | inr f ↦ rw (e, f) ((h.0, ih.0), (h.0.1, ih.1))
        ]
      ]

  pub HasSound-retry_round :
      (now : ℕ) (r : Replication)
      → HasSound roles members stores issued i r
      → HasSound roles members stores issued i (retry_round now r).0
  unfolding retry_round
  HasSound-retry_round now r h =
      let c = collect_sound now r.pending_acks h.pending in
      let (stub, e, at) = h.placed.next in
      let m = collect_expired_requests now r.pending_acks in
      subst
        (λ o.
          HasSound roles members stores issued i
            (forward_all now m.1 o (record r { pending_acks = m.0 })))
        (sym e)
        (HasSound-forward_all now m.1 stub (record r { pending_acks = m.0 }) at c.1
          (record {
            placed = IsPlaced-same members i r _ (refl, refl, refl, refl) h.placed;
            calls = h.calls;
            queue = h.queue;
            pending = c.0;
          }))
