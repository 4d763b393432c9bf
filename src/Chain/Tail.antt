-- ===== src/Chain/Tail.antt =====
-- The tail of src/replication/chain/chain_replication.cpp: what it commits, acknowledges and reads.
use crown_kv.Common.{
  ◌⊎◌, split_bound, ℕ, ◌-◌, ◌≤◌, ◌<◌, ◌≡◌, ◌≢◌, ap, arith, if◌then◌else◌, leb, le→leb, leb-false,
  none, some, ◌++◌, Text, nat_eq,
}
use crown_kv.Messages.{PutRequest, not_found}
use crown_kv.KvStore.{Record, version_of, get_latest_version, put, get, mark_clean}
use crown_kv.KvStore.Views.{committed, committed_version, dirty_record}
use crown_kv.KvStore.Latest.{get_latest_version-IsLatest, get_latest_version-clean}
use crown_kv.KvStore.Invariant.{IsConsistent}
use crown_kv.KvStore.Commit.{put-commits_offered}
use crown_kv.Replication.{Replication, Node, send_ack}
use crown_kv.Apportioned.{get_error, get_success}
use crown_kv.Apportioned.Puts.{commit_acks}
use crown_kv.Apportioned.Acks.{passed_on, calls-send_ack}
use crown_kv.Apportioned.Gets.{answer, get-eq}
use crown_kv.Chain.{handle_put, put_versioned, handle_get}

-- The node is the last one of a ring.
pub record IsTail (r : Replication) : Type 0 where
  pub present : r.ring_size ≢ 0
  pub last : r.node_index ≡ r.ring_size - 1

module _ (now : ℕ) (q : PutRequest) (n : Node) (t : IsTail n.repl) (v : q.version ≢ 0) where
  tail_put :
      let stale = leb q.version (get_latest_version n.kv q.key) in
      (handle_put now q n).0 ≡ record {
        kv =
            if stale
            then n.kv
            else mark_clean (put n.kv q.key q.value (some q.version)).0 q.key q.version;
        repl = send_ack q none (send_ack q n.repl.prev_stub n.repl);
      }
  unfolding handle_put put_versioned
  tail_put = ground (arith, t.present, t.last)

  tail_stale : q.version ≤ get_latest_version n.kv q.key → (handle_put now q n).0.kv ≡ n.kv
  tail_stale g = rw tail_put (rw (le→leb q.version (get_latest_version n.kv q.key) g))

  -- At the tail a write that comes with a version newer than every version of its key, clean or
  -- dirty, becomes the committed record, and any other leaves the store as it is; either way the
  -- same acks go out: first one to the predecessor, or to the client if there is no predecessor,
  -- and then one to the client. An ack to the client is sent only if its address can be read.
  pub handle_put-tail :
      let n' = (handle_put now q n).0 in
      (((get_latest_version n.kv q.key < q.version)
          × (committed n'.kv q.key ≡ some (record { verison = q.version; value = q.value })))
        ⊎ ((q.version ≤ get_latest_version n.kv q.key) × (n'.kv ≡ n.kv)))
      × (n'.repl.calls ≡ (n.repl.calls ++ passed_on q n.repl.prev_stub) ++ commit_acks q)
  handle_put-tail = rw tail_put (
    split_bound (get_latest_version n.kv q.key) q.version
        (λ g. rw (leb-false q.version (get_latest_version n.kv q.key) g) (
          put-commits_offered n.kv q.key q.value q.version
            (omega (arith, (get_latest_version-IsLatest n.kv q.key).committed_le))))
        (λ g. rw (le→leb q.version (get_latest_version n.kv q.key) g)),
    rw (
      calls-send_ack q none (send_ack q n.repl.prev_stub n.repl),
      calls-send_ack q n.repl.prev_stub n.repl,
    ),
  )

  -- A node that has become the tail, with a consistent store, acknowledges to the client a write
  -- that it holds as dirty, and does not commit it: the committed version of the key stays below
  -- the acknowledged one, and the next read at this tail still has what was read before.
  pub handle_put-uncommitted :
      (r : Record)
      → IsConsistent n.kv
      → dirty_record n.kv q.key q.version ≡ some r
      → let n' = (handle_put now q n).0 in
        (n'.repl.calls ≡ (n.repl.calls ++ passed_on q n.repl.prev_stub) ++ commit_acks q)
        × (committed_version n'.kv q.key < q.version)
        × (get n'.kv q.key ≡ get n.kv q.key)
  handle_put-uncommitted r c d =
      let acks = handle_put-tail.1 in
      let same = tail_stale ((get_latest_version-IsLatest n.kv q.key).dirty_le q.version r d) in
      (acks, rw same (c.newer q.key q.version r d), rw same)

module _ (key : Text) (n : Node) (t : IsTail n.repl) where
  tail_get : handle_get key n ≡ (elim (get n.kv key) [
    | none ↦ get_error not_found
    | some x ↦ get_success x (get_latest_version n.kv key)
  ])
  unfolding handle_get
  tail_get = ground (arith, t.present, t.last)

  -- With nothing dirty under the key, a read at the tail returns the committed record, or that
  -- there is none.
  pub handle_get-committed :
      ((w : ℕ) → dirty_record n.kv key w ≡ none) → handle_get key n ≡ answer (committed n.kv key)
  unfolding committed_version
  handle_get-committed h =
      rw tail_get (ground (arith, get-eq n.kv key, get_latest_version-clean n.kv key h))

  -- In a consistent store with a committed record and a dirty one under the key, a read at the tail
  -- returns the committed value under a version that is not the committed one, but larger.
  pub handle_get-misreports :
      (r d : Record) (w : ℕ)
      → IsConsistent n.kv
      → committed n.kv key ≡ some r
      → dirty_record n.kv key w ≡ some d
      → (u : ℕ) × (handle_get key n ≡ get_success r.value u) × (r.verison < u)
  unfolding committed_version
  handle_get-misreports r d w c e f =
      let l = get_latest_version-IsLatest n.kv key in
      (
        get_latest_version n.kv key,
        rw tail_get (ground (arith, get-eq n.kv key, e)),
        omega (arith, l.dirty_le w d f, c.newer key w d f, ap version_of e),
      )
