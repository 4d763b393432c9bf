-- ===== src/Replication/Retries.antt =====
-- The retries of pending requests: `collect_expired_requests` and `forward_put` of
-- src/replication/common/replication_common.cpp as one round of `RetryLoop` of
-- src/server/server.cpp uses them.
use crown_kv.Common.{
  ℕ, ◌+◌, ◌*◌, ◌≤◌, ◌≡◌, ◌≢◌, refl, ap, ◌∙◌, arith, Option, none, some, List, [], ◌∷◌, nat_eq, Map,
  find, assign, length, All,
}
use crown_kv.Messages.{PutRequest}
use crown_kv.Replication.{
  Stub, PendingEntry, Replication, max_retry_count, restage, add_to_pending_acks, retried,
  collect_expired_requests, forward_put, enqueue_forward_task,
}
use crown_kv.Replication.Pending.{
  budget, budget-collect, budget-add_to_pending_acks, find-collect, find-add_to_pending_acks,
}

-- The loops over requests in `RetryLoop` and `ApplyMembership`.
unfoldable pub forward_all : ℕ → List PutRequest → Option Stub → Replication → Replication
forward_all now [] stub r = r
forward_all now (q ∷ qs) stub r = forward_all now qs stub (forward_put now q stub r)

-- One round of `RetryLoop`, and how many requests it collected.
unfoldable pub retry_round : ℕ → Replication → Replication × ℕ
retry_round now r =
    let (pending, expired) = collect_expired_requests now r.pending_acks in
    let r' = record r { pending_acks = pending } in
    (forward_all now expired r.next_stub r', length expired)

-- Each entry stands under the id of its request.
abbrev pub IsTagged : Map ℕ PendingEntry → Type 0
IsTagged [] = Unit
IsTagged ((id, entry) ∷ m) = (entry.request.request_id ≡ id) × IsTagged m

pub pending_acks-enqueue :
    (r : Replication) (q : PutRequest) (s : Stub)
    → (enqueue_forward_task (record { request = q; stub = s }) r).pending_acks ≡ r.pending_acks
unfolding enqueue_forward_task
pending_acks-enqueue r q s = ground arith

pub pending_acks-forward_put :
    (now : ℕ) (q : PutRequest) (stub : Stub) (r : Replication)
    → (forward_put now q (some stub) r).pending_acks
      ≡ add_to_pending_acks now (record q { epoch = r.epoch }) r.pending_acks
unfolding forward_put
pending_acks-forward_put now q stub r = pending_acks-enqueue _ _ stub

-- All of the requests are pending.
abbrev ArePending : List PutRequest → Map ℕ PendingEntry → Type 0
ArePending qs m = All (λ q. find q.request_id m ≢ none) qs

find-cons_some :
    (i id : ℕ) (entry : PendingEntry) (m : Map ℕ PendingEntry)
    → find i m ≢ none
    → find i ((id, entry) ∷ m) ≢ none
unfolding find
find-cons_some i id entry m h = ground arith

find-cons_self :
    (i id : ℕ) (entry : PendingEntry) (m : Map ℕ PendingEntry)
    → i ≡ id
    → find i ((id, entry) ∷ m) ≢ none
unfolding find
find-cons_self i id entry m h = ground arith

collect-ArePending :
    (now : ℕ) (m k : Map ℕ PendingEntry)
    → IsTagged m
    → ((id : ℕ) → find id m ≢ none → find id k ≢ none)
    → ArePending (collect_expired_requests now m).1 k
unfolding collect_expired_requests
collect-ArePending now [] k t h = tt
collect-ArePending now ((id, entry) ∷ m) k t h =
    let ih = collect-ArePending now m k t.1 (λ i p. h i (find-cons_some i id entry m p)) in
    let self = h entry.request.request_id (find-cons_self _ id entry m t.0) in
    ground (arith, ih, self)

collect_kept :
    (now : ℕ) (m : Map ℕ PendingEntry) (i : ℕ)
    → find i m ≢ none
    → find i (collect_expired_requests now m).0 ≢ none
collect_kept now m i h = ground (arith, find-collect now m i)

collect-IsTagged :
    (now : ℕ) (m : Map ℕ PendingEntry) → IsTagged m → IsTagged (collect_expired_requests now m).0
unfolding collect_expired_requests
collect-IsTagged now [] t = tt
collect-IsTagged now ((id, entry) ∷ m) t = ground (arith, collect-IsTagged now m t.1)

assign-IsTagged :
    (id : ℕ) (entry : PendingEntry) (m : Map ℕ PendingEntry)
    → entry.request.request_id ≡ id
    → IsTagged m
    → IsTagged (assign id entry m)
unfolding assign
assign-IsTagged id entry [] h t = (h, tt)
assign-IsTagged id entry ((j, w) ∷ m) h t = ground (arith, assign-IsTagged id entry m h t.1)

restage-request :
    (now : ℕ) (q : PutRequest) (o : Option PendingEntry) → (restage now q o).request ≡ q
restage-request now q none = refl
restage-request now q (some w) = refl

pub add_to_pending_acks-IsTagged :
    (now : ℕ) (q : PutRequest) (m : Map ℕ PendingEntry)
    → IsTagged m
    → IsTagged (add_to_pending_acks now q m)
unfolding add_to_pending_acks
add_to_pending_acks-IsTagged now q m t =
    assign-IsTagged _ _ m
      (ap (λ (p : PutRequest). p.request_id) (restage-request now q (find q.request_id m))) t

add-ArePending :
    (now : ℕ) (q : PutRequest) (qs : List PutRequest) (m : Map ℕ PendingEntry)
    → ArePending qs m
    → ArePending qs (add_to_pending_acks now q m)
add-ArePending now q [] m h = tt
add-ArePending now q (p ∷ qs) m h = (
  (λ e. h.0 (ground (arith, find-add_to_pending_acks now q m p.request_id))),
  add-ArePending now q qs m h.1,
)

forward_all-keeps :
    (now : ℕ) (qs : List PutRequest) (stub : Option Stub) (r : Replication)
    → IsTagged r.pending_acks
    → ArePending qs r.pending_acks
    → let r' = forward_all now qs stub r in
      (budget r'.pending_acks ≡ budget r.pending_acks) × IsTagged r'.pending_acks
unfolding forward_all forward_put
forward_all-keeps now [] stub r t h = (refl, t)
forward_all-keeps now (q ∷ qs) none r t h = forward_all-keeps now qs none r t h.1
forward_all-keeps now (q ∷ qs) (some stub) r t h =
    let stamped : PutRequest = record q { epoch = r.epoch } in
    let m = add_to_pending_acks now stamped r.pending_acks in
    let e = pending_acks-forward_put now q stub r in
    let tagged : IsTagged (forward_put now q (some stub) r).pending_acks =
      rw e (add_to_pending_acks-IsTagged now stamped r.pending_acks t) in
    let pending : ArePending qs (forward_put now q (some stub) r).pending_acks =
      rw e (add-ArePending now stamped qs r.pending_acks h.1) in
    let same : budget m ≡ budget r.pending_acks =
      ground (arith, h.0, budget-add_to_pending_acks now stamped r.pending_acks) in
    let ih =
      forward_all-keeps now qs (some stub) (forward_put now q (some stub) r) tagged pending in
    (ih.0 ∙ ap budget e ∙ same, ih.1)

-- A round of the retry loop uses up one retry of the budget for each request that it collects, and
-- staging the requests again gives none back; the entries stand under their requests' ids, as they
-- do before.
pub retry_round-budget :
    (now : ℕ) (r : Replication)
    → IsTagged r.pending_acks
    → let (r', retried) = retry_round now r in
      (budget r'.pending_acks + retried ≡ budget r.pending_acks) × IsTagged r'.pending_acks
unfolding retry_round
retry_round-budget now r t =
    let m = r.pending_acks in
    let m' = (collect_expired_requests now m).0 in
    let f =
      forward_all-keeps now (collect_expired_requests now m).1 r.next_stub
        (record r { pending_acks = m' }) (collect-IsTagged now m t)
        (collect-ArePending now m m' t (collect_kept now m)) in
    (omega (arith, f.0, budget-collect now m), f.1)

-- Rounds of the retry loop at some times, and how many requests they collected together.
unfoldable pub retry_rounds : List ℕ → Replication → Replication × ℕ
retry_rounds [] r = (r, 0)
retry_rounds (now ∷ times) r =
    let (r', n) = retry_round now r in let (r'', total) = retry_rounds times r' in (r'', n + total)

budget-le : (m : Map ℕ PendingEntry) → budget m ≤ max_retry_count * length m
unfolding budget
budget-le [] = omega arith
budget-le ((id, entry) ∷ m) = omega (arith, budget-le m)

retry_rounds-budget :
    (times : List ℕ) (r : Replication)
    → IsTagged r.pending_acks
    → (retry_rounds times r).1 ≤ budget r.pending_acks
unfolding retry_rounds
retry_rounds-budget [] r t = omega arith
retry_rounds-budget (now ∷ times) r t =
    let step = retry_round-budget now r t in
    omega (arith, step.0, retry_rounds-budget times (retry_round now r).0 step.1)

-- However many rounds the retry loop makes, and at whatever times, it re-forwards at most three
-- requests for each entry that is pending at the start, if each stands under its request's id and
-- nothing new is staged.
pub retry_rounds-le :
    (times : List ℕ) (r : Replication)
    → IsTagged r.pending_acks
    → (retry_rounds times r).1 ≤ max_retry_count * length r.pending_acks
retry_rounds-le times r t = omega (arith, retry_rounds-budget times r t, budget-le r.pending_acks)
