-- ===== src/Tests/Handlers.antt =====
-- Runs of the handlers that CRAQ and CROWN share, at the nodes of a CRAQ ring of three.
use crown_kv.Common.{
  text_beq_iff, ℕ, ◌<◌, ◌≤◌, ◌≡◌, ◌⊎◌, refl, arith, true, if◌then◌else◌, leb, nat_beq, Option, none,
  some, [], ◌∷◌, ◌++◌, Text, text_eq, nat_eq, ◌==◌, bytes, find, text_beq,
}
use crown_kv.Messages.{PutRequest, VersionQueryRequest, VersionQueryResponse, no_error}
use crown_kv.KvStore.{get_latest_version, newest}
use crown_kv.KvStore.Views.{committed, committed_version, dirty_record, promote}
use crown_kv.Replication.{Stub, put_call, restage}
use crown_kv.Replication.Queue.{outgoing}
use crown_kv.Apportioned.{
  is_last, get_success, get_committed_state, has_dirty, get_dirty_record, get_version, get_answered,
  get_dirty, handle_put, handle_get, handle_ack,
}
use crown_kv.Apportioned.Puts.{write_version, write_acks, commit_acks, handle_put-commits}
use crown_kv.Apportioned.Forwards.{handle_put-forwards}
use crown_kv.Apportioned.Acks.{passed_on, handle_ack_lem}
use crown_kv.Apportioned.Rounds.{handle_ack_replaced}
use crown_kv.Craq.{roles}
use crown_kv.Tests.Data.{dirty, key, request, entry, head_node, middle_node, tail_node}

handle_put-commits_example :
    let (n', response) = handle_put roles 0 (request 3) tail_node in
    (response.success ≡ true)
    × (response.version ≡ 3)
    × (((committed_version tail_node.kv key < 3)
          × (committed n'.kv key ≡ some (record { verison = 3; value = bytes "c" })))
        ⊎ ((3 ≤ committed_version tail_node.kv key) × (n'.kv ≡ tail_node.kv)))
    × (n'.repl.calls
        ≡ ([] ++ write_acks (request 3) tail_node.repl.prev_stub) ++ commit_acks (request 3))
unfolding is_last
handle_put-commits_example =
    handle_put-commits roles 0 (request 3) tail_node refl refl (omega arith)

handle_put-forwards_example :
    let (n', response) = handle_put roles 0 (request 0) head_node in
    let v = write_version (request 0) head_node in
    let q' : PutRequest = record (request 0) { version = v; epoch = 3 } in
    (response.success ≡ true)
    × (response.version ≡ v)
    × ((k : Text) → committed n'.kv k ≡ committed head_node.kv k)
    × (((committed_version head_node.kv key < v)
          × (dirty_record n'.kv key v ≡ some (record { verison = v; value = bytes "c" })))
        ⊎ ((v ≤ committed_version head_node.kv key) × (n'.kv ≡ head_node.kv)))
    × (find 7 n'.repl.pending_acks ≡ some (restage 0 q' (find 7 head_node.repl.pending_acks)))
    × (outgoing n'.repl ≡ outgoing head_node.repl ++ put_call (bytes "b:5002") q' ∷ [])
unfolding is_last get_latest_version newest find text_beq
handle_put-forwards_example =
    handle_put-forwards roles 0 (request 0) head_node (bytes "b:5002") refl refl refl (omega arith)
      refl

handle_ack_lem_example :
    let n' = handle_ack roles 7 middle_node in
    ((k : Text)
      → committed n'.kv k ≡ (
          if key == k
          then promote (dirty_record middle_node.kv key 2) (committed middle_node.kv k)
          else committed middle_node.kv k))
    × ((k : Text) (v : ℕ)
        → dirty_record n'.kv k v ≡ (
            if key == k
            then (if leb v 2 then none else dirty_record middle_node.kv k v)
            else dirty_record middle_node.kv k v))
    × ((j : ℕ)
        → find j n'.repl.pending_acks
          ≡ (if 7 == j then none else find j middle_node.repl.pending_acks))
    × (n'.repl.calls
        ≡ middle_node.repl.calls
          ++ (if nat_beq 1 0 then [] else passed_on entry.request middle_node.repl.prev_stub))
unfolding find
handle_ack_lem_example = handle_ack_lem roles 7 middle_node entry refl (omega arith)

-- A tail that has committed version 2.
abbrev tail_answer : Stub → VersionQueryRequest → Option VersionQueryResponse
tail_answer stub q = some (record { committed_version = 2; error = no_error })

middle_get : handle_get roles tail_answer key middle_node ≡ get_success (bytes "b") 2
unfolding handle_get has_dirty get_dirty get_answered get_version get_dirty_record
    get_committed_state find text_beq
middle_get = refl

-- Another client's write, of another key under the same id.
abbrev other_request : PutRequest
other_request = record (request 0) { key = bytes "l"; client_addr = bytes "e:9" }

handle_ack_replaced_example :
    let n' = handle_ack roles 7 (handle_put roles 0 other_request head_node).0 in
    (find 7 n'.repl.pending_acks ≡ none)
    × (dirty_record n'.kv key 2 ≡ some dirty)
    × (committed n'.kv key ≡ committed head_node.kv key)
unfolding is_last get_latest_version newest committed_version committed dirty_record find text_beq
handle_ack_replaced_example =
    handle_ack_replaced roles 0 other_request head_node (bytes "b:5002") entry dirty refl refl refl
      (omega arith) refl refl (λ e. ground (arith, e, text_beq_iff key (bytes "l"))) refl
