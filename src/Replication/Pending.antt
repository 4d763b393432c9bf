-- ===== src/Replication/Pending.antt =====
-- The pending acks of src/replication/common/replication_common.cpp.
use crown_kv.Common.{
  ℕ, ◌+◌, ◌-◌, ◌≡◌, refl, arith, Bool, true, false, if◌then◌else◌, ltb, leb, none, some, [], ◌∷◌,
  nat_eq, ◌==◌, Map, find, assign, find-assign, find-erase, length,
}
use crown_kv.Messages.{PutRequest}
use crown_kv.Replication.{
  PendingEntry, max_retry_count, restage, add_to_pending_acks, erase_pending_ack, retried,
  collect_expired_requests,
}

pub find-add_to_pending_acks :
    (now : ℕ) (q : PutRequest) (m : Map ℕ PendingEntry) (j : ℕ)
    → find j (add_to_pending_acks now q m)
      ≡ (if q.request_id == j then some (restage now q (find j m)) else find j m)
unfolding add_to_pending_acks
find-add_to_pending_acks now q m j =
    ground (arith, find-assign q.request_id j (restage now q (find q.request_id m)) m)

pub find-erase_pending_ack :
    (id j : ℕ) (m : Map ℕ PendingEntry)
    → find j (erase_pending_ack id m) ≡ (if id == j then none else find j m)
unfolding erase_pending_ack
find-erase_pending_ack id j m = find-erase id j m

-- The retries that the entries have left.
abbrev pub retries_left : PendingEntry → ℕ
retries_left entry = max_retry_count - entry.retry_count

unfoldable pub budget : Map ℕ PendingEntry → ℕ
budget [] = 0
budget ((id, entry) ∷ m) = retries_left entry + budget m

-- Each request that is collected costs its entry one retry, and nothing else does.
pub budget-collect :
    (now : ℕ) (m : Map ℕ PendingEntry)
    → let (m', expired) = collect_expired_requests now m in budget m' + length expired ≡ budget m
unfolding collect_expired_requests budget
budget-collect now [] = refl
budget-collect now ((id, entry) ∷ m) = ground (arith, budget-collect now m)

-- An entry that is due and has retries left.
abbrev pub due : ℕ → PendingEntry → Bool
due now entry =
    if ltb now entry.deadline
    then false
    else if leb max_retry_count entry.retry_count
    then false
    else true

-- What collecting does to the entry under an id.
pub find-collect :
    (now : ℕ) (m : Map ℕ PendingEntry) (j : ℕ)
    → find j (collect_expired_requests now m).0 ≡ (elim (find j m) [
      | none ↦ none
      | some entry ↦ some (if due now entry then retried now entry else entry)
    ])
unfolding collect_expired_requests find
find-collect now [] j = refl
find-collect now ((id, entry) ∷ m) j = ground (arith, find-collect now m j)

-- Staging a request again costs no retry; a new entry has three.
budget-assign :
    (now : ℕ) (q : PutRequest) (id : ℕ) (m : Map ℕ PendingEntry)
    → budget (assign id (restage now q (find id m)) m)
      ≡ (elim (find id m) [ none ↦ budget m + max_retry_count | some _ ↦ budget m ])
unfolding budget assign find
budget-assign now q id [] = refl
budget-assign now q id ((j, entry) ∷ m) = ground (arith, budget-assign now q id m)

pub budget-add_to_pending_acks :
    (now : ℕ) (q : PutRequest) (m : Map ℕ PendingEntry)
    → budget (add_to_pending_acks now q m)
      ≡ (elim (find q.request_id m) [ none ↦ budget m + max_retry_count | some _ ↦ budget m ])
unfolding add_to_pending_acks
budget-add_to_pending_acks now q m = budget-assign now q q.request_id m
