-- ===== src/Tests/Tails.antt =====
-- Runs of the tail of src/replication/chain/chain_replication.cpp.
use crown_kv.Common.{
  ℕ, ◌<◌, ◌≤◌, ◌≡◌, ◌⊎◌, refl, arith, some, [], ◌++◌, text_eq, nat_eq, bytes, find, text_beq, ◌∷◌,
}
use crown_kv.KvStore.{get, get_latest_version}
use crown_kv.KvStore.Views.{committed, committed_version, dirty_record}
use crown_kv.Replication.{Node}
use crown_kv.Apportioned.{get_success}
use crown_kv.Apportioned.Puts.{commit_acks}
use crown_kv.Apportioned.Acks.{passed_on}
use crown_kv.Chain.{handle_put, handle_get}
use crown_kv.Chain.Tail.{IsTail, handle_put-tail, handle_put-uncommitted, handle_get-misreports}
use crown_kv.Tests.Data.{key, clean_record, dirty, store_IsConsistent, request, tail_node}

third_node-IsTail : IsTail tail_node.repl
third_node-IsTail = record { present = omega arith; last = refl }

handle_put-tail_example :
    let n' = (handle_put 0 (request 3) tail_node).0 in
    (((get_latest_version tail_node.kv key < 3)
        × (committed n'.kv key ≡ some (record { verison = 3; value = bytes "c" })))
      ⊎ ((3 ≤ get_latest_version tail_node.kv key) × (n'.kv ≡ tail_node.kv)))
    × (n'.repl.calls
        ≡ ([] ++ passed_on (request 3) tail_node.repl.prev_stub) ++ commit_acks (request 3))
handle_put-tail_example = handle_put-tail 0 (request 3) tail_node third_node-IsTail (omega arith)

handle_put-uncommitted_example :
    let n' = (handle_put 0 (request 2) tail_node).0 in
    (n'.repl.calls
      ≡ ([] ++ passed_on (request 2) tail_node.repl.prev_stub) ++ commit_acks (request 2))
    × (committed_version n'.kv key < 2)
    × (get n'.kv key ≡ get tail_node.kv key)
unfolding dirty_record find text_beq
handle_put-uncommitted_example =
    handle_put-uncommitted 0 (request 2) tail_node third_node-IsTail (omega arith) dirty
      store_IsConsistent refl

-- The tail with nothing dirty.
abbrev clean_tail : Node
clean_tail = record tail_node { kv = record { store = (key, clean_record) ∷ []; dirty_store = [] } }

handle_get-misreports_example :
    (u : ℕ) × (handle_get key tail_node ≡ get_success (bytes "a") u) × (1 < u)
unfolding committed dirty_record find text_beq
handle_get-misreports_example =
    handle_get-misreports key tail_node third_node-IsTail clean_record dirty 2 store_IsConsistent
      refl refl
